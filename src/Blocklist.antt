-- ===== src/Blocklist.antt =====
-- internal/policy/compiler/blocklist.go: blocklist rules as Rego, with the names of rules.
--
-- The texts are those of the template in templates.go. The list of warnings that
-- CompileBlocklistRules returns stays empty and is left out.
pub mod Names
pub mod Compiling
pub mod Tests
use mcp_proxy.Prelude.{
  Bool, List, Option, String, [], eqb, false, if◌then◌else◌, leb, none, not, some, true, ℕ, ◌&&◌,
  ◌==◌, ◌||◌, ◌∷◌,
}
use Prim.Native.Char.{Char, char, code as code_point}
use Prim.Native.String.{◌++◌ as ◌++ˢ◌}
use mcp_proxy.Cache.{join}
use mcp_proxy.Json.{Value, get_field, str}
use mcp_proxy.Parser.{is_letter}
use mcp_proxy.Validation.{RuleDefinition, is_enabled}
use mcp_proxy.Expression.Values.{
  Compiled, Printer, both, err, map_compiled, ok, quote_slice, to_string_slice, wrap,
}

abbrev pub underscore : Char
underscore = char b'_' tt

-- strings.ReplaceAll(id, "-", "_")
unfoldable pub replace_dashes : String → String
replace_dashes String.[] = ""
replace_dashes (String.◌∷◌ c s) =
    let rest = replace_dashes s in
    if eqb (code_point c) b'-' then (String.◌∷◌ underscore rest) else (String.◌∷◌ c rest)

-- The loop of sanitizeRuleID; `started` is builder.Len() > 0.
unfoldable pub keep_valid : Bool → String → String
unfolding is_letter
keep_valid started String.[] = ""
keep_valid started (String.◌∷◌ c s) =
    let kept = keep_valid true s in
    let dropped = keep_valid started s in
    if is_letter (code_point c) || eqb (code_point c) b'_'
    then (String.◌∷◌ c kept)
    else if started && leb b'0' (code_point c) && leb (code_point c) b'9'
    then (String.◌∷◌ c kept)
    else dropped

-- sanitizeRuleID
unfoldable pub sanitize_rule_id : String → String
unfolding replace_dashes keep_valid
sanitize_rule_id id = keep_valid false (replace_dashes id)

unfoldable pub matched_subject : String → String
matched_subject match_type =
    if match_type == "tool"
    then "input.request.tool"
    else if match_type == "agent"
    then "input.agent.id"
    else "input.identity.did"

-- RenderBlocklist
unfoldable pub render_blocklist : Printer → String → String → List String → String → String
unfolding matched_subject quote_slice join
render_blocklist pr rule_id match_type values message =
    "\n# Rule: "
    ++ˢ rule_id
    ++ˢ " (blocklist)\n# Blocks "
    ++ˢ match_type
    ++ˢ ": ["
    ++ˢ join values " "
    ++ˢ "]\n\n"
    ++ˢ rule_id
    ++ˢ "_blocked if {\n    "
    ++ˢ matched_subject match_type
    ++ˢ " in "
    ++ˢ quote_slice pr values
    ++ˢ "\n}\n\nblocked if {\n    "
    ++ˢ rule_id
    ++ˢ "_blocked\n}\n\nviolations[msg] if {\n    "
    ++ˢ rule_id
    ++ˢ "_blocked\n    msg := "
    ++ˢ pr.quote message
    ++ˢ "\n}\n"

unfoldable pub blocklist_message : RuleDefinition → String → String
blocklist_message rule match_type =
    if rule.message == "" then match_type ++ˢ " is blocked by policy" else rule.message

unfoldable pub with_values : Printer → RuleDefinition → String → Option Value → Compiled String
unfolding wrap map_compiled to_string_slice render_blocklist sanitize_rule_id blocklist_message
with_values pr rule match_type none = err ("rule " ++ˢ rule.id ++ˢ ": 'values' is required")
with_values pr rule match_type (some v) = wrap ("rule " ++ˢ rule.id) (
    map_compiled
      (λ values.
        render_blocklist pr (sanitize_rule_id rule.id) match_type values
          (blocklist_message rule match_type))
      (to_string_slice pr v))

unfoldable pub with_match_type :
    Printer → RuleDefinition → Option Value → Option Value → Compiled String
unfolding with_values
with_match_type pr rule (some (str match_type)) values = with_values pr rule match_type values
with_match_type pr rule _ values = err ("rule " ++ˢ rule.id ++ˢ ": 'match_type' must be a string")

-- The body of the loop for an enabled rule.
unfoldable pub compile_blocklist_rule : Printer → RuleDefinition → Compiled String
unfolding with_match_type
compile_blocklist_rule pr rule =
    with_match_type pr rule (get_field "match_type" rule.conditions)
      (get_field "values" rule.conditions)

-- CompileBlocklistRules
unfoldable pub compile_blocklist_rules : Printer → List RuleDefinition → Compiled String
unfolding is_enabled both compile_blocklist_rule
compile_blocklist_rules pr [] = ok ""
compile_blocklist_rules pr (rule ∷ rules) =
    let rest = compile_blocklist_rules pr rules in
    if is_enabled rule
    then both (λ text texts. text ++ˢ "\n" ++ˢ texts) (compile_blocklist_rule pr rule) rest
    else rest
