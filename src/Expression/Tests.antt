-- ===== src/Expression/Tests.antt =====
-- Conditions that compile, and one that panics without the validator.
use mcp_proxy.Prelude.{none, refl, true, ◌≡◌}
use Prim.Native.String.{◌++◌ as ◌++ˢ◌}
use mcp_proxy.Json.{Fields, Items, Value, arr, bool, cons, end, field, nil, number, obj, str}
use mcp_proxy.Validation.{Format, validate_expression}
use mcp_proxy.Expression.{compile}
use mcp_proxy.Expression.Values.{Compiled, Printer, ok, panicked}

abbrev pub printer : Printer
printer = record {
  decimal = λ _. "0";
  quote = λ s. "\"" ++ˢ s ++ˢ "\"";
  number = λ s. s;
  object = λ _. "map[]";
}

abbrev pub format : Format
format = record { decimal = λ _. "0"; is_positive = λ _. true }

abbrev verified : Value
verified = obj (field "identity.verified" (bool true) end)

abbrev alice : Value
alice =
    obj (field "field" (str "agent.id") (field "op" (str "eq") (field "value" (str "alice") end)))

-- any of: verified, and not alice
abbrev pub condition : Fields
condition = field "any" (arr (cons verified (cons (obj (field "not" alice end)) nil))) end

condition_text :
    compile printer condition
    ≡ ok (
        "    # any: one of the following must be true\n    (input.identity.verified == true)\n    (not input.agent.id == \"alice\")")
unfolding compile mcp_proxy.Json.get_field mcp_proxy.Expression.Values.value_to_rego
condition_text = refl

untyped_panics : compile printer (field "field" (number "5") end) ≡ panicked
unfolding compile mcp_proxy.Json.get_field
untyped_panics = refl

pub condition_accepted : validate_expression format condition ≡ none
unfolding validate_expression mcp_proxy.Json.get_field
condition_accepted = refl
