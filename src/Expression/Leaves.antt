-- ===== src/Expression/Leaves.antt =====
-- internal/policy/compiler/expression.go: the conditions without a logical operator.
use mcp_proxy.Prelude.{
  Bool, List, Option, String, [], eqb, false, if◌then◌else◌, leb, none, some, ℕ, ◌&&◌, ◌==◌, ◌||◌,
  ◌∷◌,
}
use Prim.Native.Char.{code as code_point}
use Prim.Native.String.{◌++◌ as ◌++ˢ◌}
use mcp_proxy.Cache.{join}
use mcp_proxy.Json.{Fields, Value, end, field, get_field, null, obj, str}
use mcp_proxy.Parser.{all_chars, is_letter}
use mcp_proxy.Validation.{is_in}
use mcp_proxy.Expression.Values.{
  Compiled, Printer, both, err, field_path_to_rego, indentation, map_compiled, membership, ok,
  panicked, value_to_rego,
}

-- isFieldPath, with ^[a-zA-Z][a-zA-Z0-9_.]*$
unfoldable pub is_path_char : ℕ → Bool
unfolding is_letter
is_path_char c = is_letter c || leb b'0' c && leb c b'9' || eqb c b'_' || eqb c b'.'

abbrev pub keywords : List String
keywords =
    "all" ∷ "any" ∷ "not" ∷ "field" ∷ "op" ∷ "value" ∷ "field_equals" ∷ "field_in" ∷ "field_matches"
    ∷ "tool_in" ∷ "agent_in" ∷ []

unfoldable pub matches_path : String → Bool
unfolding is_letter is_path_char all_chars
matches_path String.[] = false
matches_path (String.◌∷◌ c s) = is_letter (code_point c) && all_chars is_path_char s

unfoldable pub is_field_path : String → Bool
unfolding matches_path is_in
is_field_path s = if is_in keywords s then false else matches_path s

unfoldable pub comparison : Printer → ℕ → String → Value → String
unfolding indentation field_path_to_rego
comparison pr n path v = indentation n ++ˢ field_path_to_rego path ++ˢ " == " ++ˢ value_to_rego pr v

-- The loop over the members that ends with the first field path.
unfoldable pub compile_direct : Printer → ℕ → Fields → Fields → Compiled String
unfolding comparison is_field_path
compile_direct pr n expr end = err ("unknown expression type: " ++ˢ pr.object expr)
compile_direct pr n expr (field k v fs) =
    let rest = compile_direct pr n expr fs in
    if is_field_path k then ok (comparison pr n k v) else rest

-- The conditions of the members of an object, one line each.
unfoldable pub equals_lines : Printer → ℕ → Fields → List String
unfolding comparison
equals_lines pr n end = []
equals_lines pr n (field k v fs) = comparison pr n k v ∷ equals_lines pr n fs

unfoldable pub compile_field_equals : Printer → ℕ → Value → Compiled String
unfolding equals_lines join
compile_field_equals pr n (obj fs) = ok (join (equals_lines pr n fs) "\n")
compile_field_equals pr n _ = err "'field_equals' must be an object"

unfoldable pub in_lines : Printer → ℕ → Fields → Compiled (List String)
unfolding both membership field_path_to_rego indentation
in_lines pr n end = ok []
in_lines pr n (field k v fs) =
    both (λ l ls. l ∷ ls) (membership pr (indentation n) (field_path_to_rego k) v)
      (in_lines pr n fs)

unfoldable pub compile_field_in : Printer → ℕ → Value → Compiled String
unfolding in_lines map_compiled join
compile_field_in pr n (obj fs) = map_compiled (λ ls. join ls "\n") (in_lines pr n fs)
compile_field_in pr n _ = err "'field_in' must be an object"

unfoldable pub match_line : Printer → ℕ → String → Value → Compiled String
unfolding indentation field_path_to_rego
match_line pr n path (str pattern) = ok (
    indentation n
    ++ˢ "regex.match("
    ++ˢ pr.quote pattern
    ++ˢ ", "
    ++ˢ field_path_to_rego path
    ++ˢ ")")
match_line pr n path _ = err ("pattern for '" ++ˢ path ++ˢ "' must be a string")

unfoldable pub match_lines : Printer → ℕ → Fields → Compiled (List String)
unfolding both match_line
match_lines pr n end = ok []
match_lines pr n (field k v fs) = both (λ l ls. l ∷ ls) (match_line pr n k v) (match_lines pr n fs)

unfoldable pub compile_field_matches : Printer → ℕ → Value → Compiled String
unfolding match_lines map_compiled join
compile_field_matches pr n (obj fs) = map_compiled (λ ls. join ls "\n") (match_lines pr n fs)
compile_field_matches pr n _ = err "'field_matches' must be an object"

-- expr["value"], nil where it is missing
unfoldable pub value_of : Fields → Value
value_of fs = elim (get_field "value" fs) [ none ↦ null | some v ↦ v ]

-- The switch of compileFieldOp; `start` is the indentation.
unfoldable pub compile_operator : Printer → String → String → String → Value → Compiled String
unfolding membership
compile_operator pr start path op v =
    if op == "eq"
    then ok (start ++ˢ path ++ˢ " == " ++ˢ value_to_rego pr v)
    else if op == "ne"
    then ok (start ++ˢ path ++ˢ " != " ++ˢ value_to_rego pr v)
    else if op == "gt"
    then ok (start ++ˢ path ++ˢ " > " ++ˢ value_to_rego pr v)
    else if op == "gte"
    then ok (start ++ˢ path ++ˢ " >= " ++ˢ value_to_rego pr v)
    else if op == "lt"
    then ok (start ++ˢ path ++ˢ " < " ++ˢ value_to_rego pr v)
    else if op == "lte"
    then ok (start ++ˢ path ++ˢ " <= " ++ˢ value_to_rego pr v)
    else if op == "contains"
    then ok (start ++ˢ "contains(" ++ˢ path ++ˢ ", " ++ˢ value_to_rego pr v ++ˢ ")")
    else if op == "startswith"
    then ok (start ++ˢ "startswith(" ++ˢ path ++ˢ ", " ++ˢ value_to_rego pr v ++ˢ ")")
    else if op == "endswith"
    then ok (start ++ˢ "endswith(" ++ˢ path ++ˢ ", " ++ˢ value_to_rego pr v ++ˢ ")")
    else if op == "matches"
    then ok (start ++ˢ "regex.match(" ++ˢ value_to_rego pr v ++ˢ ", " ++ˢ path ++ˢ ")")
    else if op == "in"
    then membership pr start path v
    else if op == "not_in"
    then membership pr (start ++ˢ "not ") path v
    else err ("unknown operator: " ++ˢ op)

unfoldable pub with_operator : Printer → ℕ → String → Option Value → Fields → Compiled String
unfolding compile_operator value_of field_path_to_rego indentation
with_operator pr n path (some (str op)) fs =
    compile_operator pr (indentation n) (field_path_to_rego path) op (value_of fs)
with_operator pr n path _ fs = err "'op' is required for field operations"

-- Under "field"; the assertion panics on a value that is no string.
unfoldable pub compile_field : Printer → ℕ → Value → Fields → Compiled String
unfolding with_operator
compile_field pr n (str path) fs = with_operator pr n path (get_field "op" fs) fs
compile_field pr n _ fs = panicked

-- A case of compileExpr that is taken if the member is there, and else the next.
unfoldable pub when_there :
    Option Value → (Value → Compiled String) → Compiled String → Compiled String
when_there none taken next = next
when_there (some v) taken next = taken v

-- compileExpr behind its logical operators.
unfoldable pub compile_leaf : Printer → ℕ → Fields → Compiled String
unfolding when_there membership indentation compile_field_equals compile_field_in
    compile_field_matches compile_field compile_direct
compile_leaf pr n fs =
    when_there (get_field "tool_in" fs) (membership pr (indentation n) "input.request.tool") (
      when_there (get_field "agent_in" fs) (membership pr (indentation n) "input.agent.id") (
        when_there (get_field "field_equals" fs) (compile_field_equals pr n) (
          when_there (get_field "field_in" fs) (compile_field_in pr n) (
            when_there (get_field "field_matches" fs) (compile_field_matches pr n) (
              when_there (get_field "field" fs) (λ v. compile_field pr n v fs)
                (compile_direct pr n fs fs))))))
