-- ===== src/Expression.antt =====
-- internal/policy/compiler/expression.go: conditions translated to Rego.
--
-- The printing of indices, quoted strings, numbers and whole objects is the parameter `Printer`. The
-- assertion `field.(string)` panics on another type.
pub mod Values
pub mod Leaves
pub mod Panics
pub mod Nesting
pub mod Tests
use mcp_proxy.Prelude.{
  Bool, List, Option, String, [], eqb, false, if◌then◌else◌, leb, none, not, some, suc, true, zero,
  ℕ, ◌&&◌, ◌+◌, ◌==◌, ◌||◌, ◌∷◌,
}
use Prim.Native.Char.{code as code_point}
use Prim.Native.String.{◌++◌ as ◌++ˢ◌}
use mcp_proxy.Cache.{join}
use mcp_proxy.Json.{
  Fields, Items, Value, arr, bool, cons, end, field, get_field, nil, null, number, obj, str,
}
use mcp_proxy.Parser.{all_chars, is_letter}
use mcp_proxy.Upstream.Events.{has_prefix, trim}
use mcp_proxy.Validation.{is_in}
use mcp_proxy.Expression.Values.{
  Compiled, Printer, both, err, field_path_to_rego, indentation, map_compiled, membership, ok,
  panicked, quote_slice, to_string_slice, value_to_rego, wrap,
}
use mcp_proxy.Expression.Leaves.{compile_leaf}

unfoldable pub parenthesised : List String → List String
unfolding trim
parenthesised [] = []
parenthesised (c ∷ cs) = ("(" ++ˢ trim c ++ˢ ")") ∷ parenthesised cs

-- The text of compileAny; the text that it builds before is not used.
unfoldable pub any_text : ℕ → List String → String
unfolding indentation parenthesised join
any_text n conditions =
    indentation n
    ++ˢ "# any: one of the following must be true\n"
    ++ˢ indentation n
    ++ˢ join (parenthesised conditions) ("\n" ++ˢ indentation n)

-- The case of a logical operator, which is there or not, and what follows it.
unfoldable pub or_next : Option (Compiled String) → Compiled String → Compiled String
or_next none next = next
or_next (some here) next = here

unfoldable pub not_text : ℕ → String → String
unfolding trim indentation
not_text n inner = indentation n ++ˢ "not " ++ˢ trim inner

-- compileExpr, with its body written out at both of its recursive calls. The first three compile the
-- member that get_field finds, if it finds one.
unfoldable mutual
  unfolding or_next compile_leaf any_text not_text map_compiled both wrap

  pub compile_all : Printer → ℕ → Fields → Option (Compiled String)
  compile_all pr n end = none
  compile_all pr n (field k v fs) =
      let rest = compile_all pr n fs in
      let here = map_compiled (λ cs. join cs "\n") (compile_array pr "all" n v) in
      if k == "all" then some here else rest

  pub compile_any : Printer → ℕ → Fields → Option (Compiled String)
  compile_any pr n end = none
  compile_any pr n (field k v fs) =
      let rest = compile_any pr n fs in
      let here = map_compiled (any_text n) (compile_array pr "any" (n + 1) v) in
      if k == "any" then some here else rest

  pub compile_not : Printer → ℕ → Fields → Option (Compiled String)
  compile_not pr n end = none
  compile_not pr n (field k v fs) =
      let rest = compile_not pr n fs in
      let here = map_compiled (not_text n) (compile_negated pr v) in
      if k == "not" then some here else rest

  pub compile_array : Printer → String → ℕ → Value → Compiled (List String)
  compile_array pr key n (arr xs) = compile_items pr key n 0 xs
  compile_array pr key n v = err ("'" ++ˢ key ++ˢ "' must be an array")

  pub compile_items : Printer → String → ℕ → ℕ → Items → Compiled (List String)
  compile_items pr key n i nil = ok []
  compile_items pr key n i (cons v xs) =
      both (λ c cs. c ∷ cs) (compile_item pr key n i v) (compile_items pr key n (i + 1) xs)

  pub compile_item : Printer → String → ℕ → ℕ → Value → Compiled String
  compile_item pr key n i (obj fs) = wrap (key ++ˢ "[" ++ˢ pr.decimal i ++ˢ "]") (
      or_next (compile_all pr n fs)
        (or_next (compile_any pr n fs) (or_next (compile_not pr n fs) (compile_leaf pr n fs))))
  compile_item pr key n i v = err (key ++ˢ "[" ++ˢ pr.decimal i ++ˢ "] must be an object")

  pub compile_negated : Printer → Value → Compiled String
  compile_negated pr (obj fs) =
      or_next (compile_all pr 0 fs)
        (or_next (compile_any pr 0 fs) (or_next (compile_not pr 0 fs) (compile_leaf pr 0 fs)))
  compile_negated pr v = err "'not' must be an object"

unfoldable pub compile_expr : Printer → ℕ → Fields → Compiled String
unfolding compile_all compile_leaf or_next
compile_expr pr n fs =
    or_next (compile_all pr n fs)
      (or_next (compile_any pr n fs) (or_next (compile_not pr n fs) (compile_leaf pr n fs)))

-- Compile
unfoldable pub compile : Printer → Fields → Compiled String
unfolding compile_expr
compile pr expr = compile_expr pr 1 expr
