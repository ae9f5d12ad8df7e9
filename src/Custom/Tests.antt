-- ===== src/Custom/Tests.antt =====
-- A custom rule as text.
use mcp_proxy.Prelude.{[], none, refl, ◌≡◌, ◌≢◌, ◌∷◌}
use mcp_proxy.Prelude.Int.{pos}
use mcp_proxy.Validation.{RuleDefinition}
use mcp_proxy.Expression.Values.{ok, panicked}
use mcp_proxy.Expression.Tests.{condition, condition_accepted, format, printer}
use mcp_proxy.Custom.{compile_custom_rules}
use mcp_proxy.Custom.Compiling.{compile_custom_rules_total}

abbrev verified_only : RuleDefinition
verified_only = record {
  id = "verified-only";
  rule_type = "custom";
  priority = pos 0;
  enabled = none;
  conditions = condition;
  action = "deny";
  message = "denied";
}

verified_only_text :
    compile_custom_rules printer (verified_only ∷ [])
    ≡ ok (
        "\n# Rule: verified_only (custom)\n# Conditions: map[]\n\nverified_only_match if {\n    # any: one of the following must be true\n    (input.identity.verified == true)\n    (not input.agent.id == \"alice\")\n}\n\n\nviolations[msg] if {\n    verified_only_match\n    msg := \"denied\"\n}\n\n\n")
unfolding compile_custom_rules mcp_proxy.Json.get_field mcp_proxy.Expression.Values.value_to_rego
verified_only_text = refl

compile_custom_rules_total_example : compile_custom_rules printer (verified_only ∷ []) ≢ panicked
unfolding mcp_proxy.Custom.Compiling.AllPassed mcp_proxy.Validation.validate_custom_rule
compile_custom_rules_total_example =
    compile_custom_rules_total printer format (verified_only ∷ []) (λ _. condition_accepted, tt)
