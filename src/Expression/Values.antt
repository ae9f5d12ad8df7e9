-- ===== src/Expression/Values.antt =====
-- internal/policy/compiler: the values, lists and paths of Rego.
use mcp_proxy.Prelude.{List, String, [], if◌then◌else◌, suc, zero, ℕ, ◌+◌, ◌∷◌}
use Prim.Native.String.{◌++◌ as ◌++ˢ◌}
use mcp_proxy.Cache.{join}
use mcp_proxy.Json.{Fields, Items, Value, arr, bool, cons, nil, null, number, obj, str}
use mcp_proxy.Upstream.Events.{has_prefix}

pub record Printer : Type 0 where
  -- %d
  pub decimal : ℕ → String
  -- %q
  pub quote : String → String
  -- a JSON number as a Rego literal
  pub number : String → String
  -- %v of a map
  pub object : Fields → String

pub data Compiled {ℓ} (A : Type ℓ) : Type ℓ where
  ok : A → Compiled A
  err : String → Compiled A
  panicked : Compiled A

-- fmt.Errorf("%s: %w", …)
unfoldable pub wrap {ℓ} : {A : Type ℓ} → String → Compiled A → Compiled A
wrap text (ok x) = ok x
wrap text (err e) = err (text ++ˢ ": " ++ˢ e)
wrap text panicked = panicked

-- The second is made if the first has a result.
unfoldable pub both {ℓ} : {A B C : Type ℓ} → (A → B → C) → Compiled A → Compiled B → Compiled C
both f (ok x) (ok y) = ok (f x y)
both f (ok x) (err e) = err e
both f (ok x) panicked = panicked
both f (err e) _ = err e
both f panicked _ = panicked

unfoldable pub map_compiled {ℓ} : {A B : Type ℓ} → (A → B) → Compiled A → Compiled B
map_compiled f (ok x) = ok (f x)
map_compiled f (err e) = err e
map_compiled f panicked = panicked

-- strings.Repeat("    ", n)
unfoldable pub indentation : ℕ → String
indentation zero = ""
indentation (suc n) = "    " ++ˢ indentation n

-- fieldPathToRego
unfoldable pub field_path_to_rego : String → String
unfolding has_prefix
field_path_to_rego path = if has_prefix "input." path then path else "input." ++ˢ path

-- valueToRego
unfoldable mutual
  pub value_to_rego : Printer → Value → String
  value_to_rego pr (str s) = pr.quote s
  value_to_rego pr (bool b) = if b then "true" else "false"
  value_to_rego pr (number n) = pr.number n
  value_to_rego pr (arr xs) = "[" ++ˢ join (items_to_rego pr xs) ", " ++ˢ "]"
  value_to_rego pr null = "null"
  value_to_rego pr (obj fs) = pr.object fs

  pub items_to_rego : Printer → Items → List String
  items_to_rego pr nil = []
  items_to_rego pr (cons v xs) = value_to_rego pr v ∷ items_to_rego pr xs

-- toStringSlice
unfoldable pub string_items : Printer → ℕ → Items → Compiled (List String)
unfolding map_compiled
string_items pr i nil = ok []
string_items pr i (cons (str s) xs) = map_compiled (λ ss. s ∷ ss) (string_items pr (i + 1) xs)
string_items pr i (cons _ xs) = err ("values[" ++ˢ pr.decimal i ++ˢ "] must be a string")

unfoldable pub to_string_slice : Printer → Value → Compiled (List String)
unfolding string_items
to_string_slice pr (arr xs) = string_items pr 0 xs
to_string_slice pr _ = err "values must be an array of strings"

unfoldable pub quote_all : Printer → List String → List String
quote_all pr [] = []
quote_all pr (s ∷ ss) = pr.quote s ∷ quote_all pr ss

-- quoteSlice
unfoldable pub quote_slice : Printer → List String → String
unfolding quote_all join
quote_slice pr items = "[" ++ˢ join (quote_all pr items) ", " ++ˢ "]"

-- path in [...], behind `start`
unfoldable pub membership : Printer → String → String → Value → Compiled String
unfolding map_compiled to_string_slice quote_slice
membership pr start path v =
    map_compiled (λ values. start ++ˢ path ++ˢ " in " ++ˢ quote_slice pr values)
      (to_string_slice pr v)
