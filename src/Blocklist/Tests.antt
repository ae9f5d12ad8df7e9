-- ===== src/Blocklist/Tests.antt =====
-- Blocklist rules as text.
use mcp_proxy.Prelude.{[], none, refl, true, ◌≡◌, ◌∷◌}
use mcp_proxy.Prelude.Int.{pos}
use mcp_proxy.Json.{arr, cons, end, field, nil, str}
use mcp_proxy.Validation.{RuleDefinition}
use mcp_proxy.Expression.Values.{ok}
use mcp_proxy.Expression.Tests.{format, printer}
use mcp_proxy.Blocklist.{compile_blocklist_rules, replace_dashes, sanitize_rule_id}
use mcp_proxy.Blocklist.Compiling.{is_ok-compile_blocklist_rules, is_ok}
use mcp_proxy.Blocklist.Names.{sanitize_rule_id_lem}

abbrev no_shell : RuleDefinition
no_shell = record {
  id = "no-shell";
  rule_type = "blocklist";
  priority = pos 0;
  enabled = none;
  conditions =
      field "match_type" (str "tool")
        (field "values" (arr (cons (str "sh") (cons (str "bash") nil))) end);
  action = "deny";
  message = "";
}

no_shell_text :
    compile_blocklist_rules printer (no_shell ∷ [])
    ≡ ok (
        "\n# Rule: no_shell (blocklist)\n# Blocks tool: [sh bash]\n\nno_shell_blocked if {\n    input.request.tool in [\"sh\", \"bash\"]\n}\n\nblocked if {\n    no_shell_blocked\n}\n\nviolations[msg] if {\n    no_shell_blocked\n    msg := \"tool is blocked by policy\"\n}\n\n")
unfolding compile_blocklist_rules mcp_proxy.Json.get_field
no_shell_text = refl

-- Two IDs, one name.
names_collide : sanitize_rule_id "no-shell" ≡ sanitize_rule_id "no_shell"
unfolding sanitize_rule_id
names_collide = refl

sanitize_rule_id_lem_example : sanitize_rule_id "no-shell" ≡ replace_dashes "no-shell"
unfolding mcp_proxy.Validation.is_valid_identifier mcp_proxy.Parser.all_chars
sanitize_rule_id_lem_example = sanitize_rule_id_lem "no-shell" refl

is_ok-compile_blocklist_rules_example :
    is_ok (compile_blocklist_rules printer (no_shell ∷ [])) ≡ true
unfolding mcp_proxy.Blocklist.Compiling.AllAccepted mcp_proxy.Validation.validate_blocklist_rule
    mcp_proxy.Json.get_field
is_ok-compile_blocklist_rules_example =
    is_ok-compile_blocklist_rules printer format (no_shell ∷ []) (λ _. refl, tt)
