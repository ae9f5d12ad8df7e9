-- ===== src/Validation/Tests.antt =====
-- A policy with one custom rule, and the theorem at it.
use mcp_proxy.Prelude.{[], ◌∷◌, none, some, true, ◌≡◌, ◌↔◌, refl}
use mcp_proxy.Parser.{all_chars}
use mcp_proxy.Prelude.Int.{pos}
use mcp_proxy.Json.{get_field, Fields, end, field, str, obj}
use mcp_proxy.Validation.{Format, PolicyDefinition, RuleDefinition, validate}
use mcp_proxy.Validation.Rules.{IsWellFormed, validate_iff}

abbrev format : Format
format = record { decimal = λ n. "0"; is_positive = λ s. true }

-- {"not": {"field": "tool", "op": "eqq"}}, with an operator that is not one
abbrev misspelt : Fields
misspelt = field "not" (obj (field "field" (str "tool") (field "op" (str "eqq") end))) end

abbrev custom_rule : Fields → RuleDefinition
custom_rule conditions = record {
  id = "r1";
  rule_type = "custom";
  priority = pos 1;
  enabled = none;
  conditions = conditions;
  action = "deny";
  message = "no";
}

abbrev policy_of : Fields → PolicyDefinition
policy_of conditions = record {
  schema = "";
  version = "1.0";
  name = "guard";
  description = "";
  rules = custom_rule conditions ∷ [];
  defaults = record { action = "allow"; rate_limit = pos 0 };
}

misspelt_refused : validate format (policy_of misspelt) ≡ some "rule[0]: not: invalid operator: eqq"
unfolding validate all_chars get_field
misspelt_refused = refl

validate_iff_example :
    (validate format (policy_of misspelt) ≡ none) ↔ IsWellFormed format (policy_of misspelt)
validate_iff_example = validate_iff format (policy_of misspelt)
