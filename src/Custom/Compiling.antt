-- ===== src/Custom/Compiling.antt =====
-- Custom rules that the validator accepts.
use mcp_proxy.Prelude.{Bool-cases, List, [], arith, inl, inr, none, refl, true, ◌≡◌, ◌≢◌, ◌∷◌}
use mcp_proxy.Json.{Fields, end, field}
use mcp_proxy.Validation.{
  Format, RuleDefinition, is_enabled, validate_custom_rule, validate_expression,
}
use mcp_proxy.Expression.{compile}
use mcp_proxy.Expression.Values.{Compiled, Printer, panicked}
use mcp_proxy.Expression.Panics.{safe, safe-both, safe-map_compiled, safe-wrap}
use mcp_proxy.Expression.Nesting.{compile_total, safe-ne_panicked}
use mcp_proxy.Custom.{compile_custom_rule, compile_custom_rules}

-- The validator accepts the conditions of the rules that are enabled.
unfoldable pub AllPassed : Format → List RuleDefinition → Type 0
AllPassed fmt [] = Unit
AllPassed fmt (rule ∷ rules) =
    (is_enabled rule ≡ true → validate_custom_rule fmt rule.conditions ≡ none) × AllPassed fmt rules

accepted_expression :
    (fmt : Format) (fs : Fields)
    → validate_custom_rule fmt fs ≡ none
    → validate_expression fmt fs ≡ none
unfolding validate_custom_rule
accepted_expression fmt end h = ground arith
accepted_expression fmt (field k v fs) h = h

ne_panicked-safe : {A : Type 0} (c : Compiled A) → c ≢ panicked → safe c ≡ true
unfolding safe
ne_panicked-safe c h = ground arith

safe-compile_custom_rule :
    (pr : Printer) (fmt : Format) (rule : RuleDefinition)
    → validate_custom_rule fmt rule.conditions ≡ none
    → safe (compile_custom_rule pr rule) ≡ true
unfolding compile_custom_rule
safe-compile_custom_rule pr fmt rule h =
    let accepted = accepted_expression fmt rule.conditions h in
    safe-wrap _ _ (
      safe-map_compiled _ (compile pr rule.conditions)
        (ne_panicked-safe _ (compile_total pr fmt rule.conditions accepted)))

safe-compile_custom_rules :
    (pr : Printer) (fmt : Format) (rules : List RuleDefinition)
    → AllPassed fmt rules
    → safe (compile_custom_rules pr rules) ≡ true
unfolding safe compile_custom_rules AllPassed
safe-compile_custom_rules pr fmt [] h = refl
safe-compile_custom_rules pr fmt (rule ∷ rules) (passed, others) =
    let rest = safe-compile_custom_rules pr fmt rules others in
    elim (Bool-cases (is_enabled rule)) [
      | inl e ↦ rw e (
          safe-both _ (compile_custom_rule pr rule) _
            (safe-compile_custom_rule pr fmt rule (passed e)) rest)
      | inr e ↦ rw e rest
    ]

-- Custom rules compile to a text or to an error, and never panic, however deeply their conditions are nested, if the validator accepts the conditions of those that are enabled.
pub compile_custom_rules_total :
    (pr : Printer) (fmt : Format) (rules : List RuleDefinition)
    → AllPassed fmt rules
    → compile_custom_rules pr rules ≢ panicked
compile_custom_rules_total pr fmt rules h =
    safe-ne_panicked _ (safe-compile_custom_rules pr fmt rules h)
