-- ===== src/Custom.antt =====
-- internal/policy/compiler/custom.go: custom rules as Rego.
--
-- The texts are those of the template in templates.go. The list of warnings that CompileCustomRules
-- returns stays empty and is left out.
pub mod Compiling
pub mod Tests
use mcp_proxy.Prelude.{Bool, List, String, [], if◌then◌else◌, ◌==◌, ◌∷◌}
use Prim.Native.String.{◌++◌ as ◌++ˢ◌}
use mcp_proxy.Json.{Fields, end, field}
use mcp_proxy.Validation.{RuleDefinition, is_enabled}
use mcp_proxy.Expression.{compile}
use mcp_proxy.Expression.Values.{Compiled, Printer, both, map_compiled, ok, wrap}
use mcp_proxy.Blocklist.{sanitize_rule_id}

-- What the template writes for the action.
unfoldable pub render_action : Printer → String → String → String → String
render_action pr rule_id action message =
    if action == "deny"
    then "\nviolations[msg] if {\n    "
      ++ˢ rule_id
      ++ˢ "_match\n    msg := "
      ++ˢ pr.quote message
      ++ˢ "\n}\n"
    else "\nallow if {\n    " ++ˢ rule_id ++ˢ "_match\n}\n"

-- RenderCustom
unfoldable pub render_custom : Printer → String → String → String → String → String → String
unfolding render_action
render_custom pr rule_id description conditions action message =
    "\n# Rule: "
    ++ˢ rule_id
    ++ˢ " (custom)\n# "
    ++ˢ description
    ++ˢ "\n\n"
    ++ˢ rule_id
    ++ˢ "_match if {\n"
    ++ˢ conditions
    ++ˢ "\n}\n\n"
    ++ˢ render_action pr rule_id action message
    ++ˢ "\n"

unfoldable pub description_of : Printer → Fields → String
description_of pr end = ""
description_of pr (field k v fs) = "Conditions: " ++ˢ pr.object (field k v fs)

unfoldable pub custom_message : RuleDefinition → String
custom_message rule =
    if rule.message == "" then "Custom policy rule '" ++ˢ rule.id ++ˢ "' matched" else rule.message

-- The body of the loop for an enabled rule.
unfoldable pub compile_custom_rule : Printer → RuleDefinition → Compiled String
unfolding wrap map_compiled compile render_custom sanitize_rule_id description_of custom_message
compile_custom_rule pr rule = wrap ("rule " ++ˢ rule.id) (
    map_compiled
      (λ conditions.
        render_custom pr (sanitize_rule_id rule.id) (description_of pr rule.conditions) conditions
          rule.action (custom_message rule))
      (compile pr rule.conditions))

-- CompileCustomRules
unfoldable pub compile_custom_rules : Printer → List RuleDefinition → Compiled String
unfolding is_enabled both compile_custom_rule
compile_custom_rules pr [] = ok ""
compile_custom_rules pr (rule ∷ rules) =
    let rest = compile_custom_rules pr rules in
    if is_enabled rule
    then both (λ text texts. text ++ˢ "\n" ++ˢ texts) (compile_custom_rule pr rule) rest
    else rest
