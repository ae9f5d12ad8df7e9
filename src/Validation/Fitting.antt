-- ===== src/Validation/Fitting.antt =====
-- The checks of a rule's conditions pass exactly what fits the type of the rule.
use mcp_proxy.Prelude.{
  Bool-cases, Option, String, arith, eq_iff, false, inl, inr, none, refl, some, ◌==◌, ◌≡◌, ◌≢◌, ◌⊎◌,
  ◌↔◌, if◌then◌else◌,
}
use Prim.Native.String.{◌++◌ as ◌++ˢ◌}
use mcp_proxy.Json.{Fields}
use mcp_proxy.Validation.{
  Format, validate_blocklist_rule, validate_capability_rule, validate_conditions,
  validate_rate_limit_rule,
}
use mcp_proxy.Validation.Shapes.{FitsType, IsBlocklistRule, IsCapabilityRule, IsRateLimitRule}
use mcp_proxy.Validation.Texts.{
  check_text_iff, check_limit_iff, check_match_type_iff, check_values_iff, check_window_iff,
}
use mcp_proxy.Validation.Conditions.{custom_iff, then_check_iff}

capability_iff : (fs : Fields) → (validate_capability_rule fs ≡ none) ↔ IsCapabilityRule fs
unfolding validate_capability_rule
capability_iff fs =
    then_check_iff _ _ (check_text_iff "capability" "tool" _)
      (check_text_iff "capability" "requires_capability" _)

blocklist_iff :
    (fmt : Format) (fs : Fields) → (validate_blocklist_rule fmt fs ≡ none) ↔ IsBlocklistRule fs
unfolding validate_blocklist_rule
blocklist_iff fmt fs = then_check_iff _ _ (check_match_type_iff _) (check_values_iff fmt _)

rate_limit_iff :
    (fmt : Format) (fs : Fields) → (validate_rate_limit_rule fmt fs ≡ none) ↔ IsRateLimitRule fmt fs
unfolding validate_rate_limit_rule
rate_limit_iff fmt fs = then_check_iff _ _ (check_limit_iff fmt _) (check_window_iff _)

apart : (a b t : String) → (a == b) ≡ false → t ≡ a → t ≢ b
apart a b t other e f = ground (arith, eq_iff a b)

-- The case of one type of rule, before cases of others.
case_iff :
    {P Q : Type 0} (t name : String) (here rest : Option String)
    → (here ≡ none) ↔ P
    → (rest ≡ none) ↔ Q
    → (Q → t ≢ name)
    → ((if t == name then here else rest) ≡ none) ↔ (((t ≡ name) × P) ⊎ Q)
case_iff t name here rest (p, p_back) (q, q_back) others = elim (Bool-cases (t == name)) [
  | inl same ↦
      let e = (eq_iff t name).0 same in
      rw same
        (λ h. inl (e, p h), λ x. elim x [ inl (_, y) ↦ p_back y | inr y ↦ absurd (others y e) ])
  | inr other ↦
      let ne : t ≢ name = λ e. ground (arith, eq_iff t name) in
      rw other (λ h. inr (q h), λ x. elim x [ inl (e, _) ↦ absurd (ne e) | inr y ↦ q_back y ])
]

last_iff :
    {P : Type 0} (t name e : String) (here : Option String)
    → (here ≡ none) ↔ P
    → ((if t == name then here else some e) ≡ none) ↔ ((t ≡ name) × P)
last_iff t name e here (p, p_back) =
    let (there, back) =
      case_iff {Q = ⊥} t name here (some e) (p, p_back) (λ h. ground arith, λ h. absurd h)
        (λ h. absurd h) in
    (λ h. elim (there h) [ inl x ↦ x | inr x ↦ absurd x ], λ x. back (inl x))

named_iff :
    {Q : Type 0} (t e : String) (rest : Option String)
    → (rest ≡ none) ↔ Q
    → (Q → t ≢ "")
    → ((if t == "" then some e else rest) ≡ none) ↔ Q
named_iff t e rest q others =
    let (there, back) =
      case_iff {P = ⊥} t "" (some e) rest (λ h. ground arith, λ h. absurd h) q others in
    (λ h. elim (there h) [ inl (_, x) ↦ absurd x | inr x ↦ x ], λ x. back (inr x))

pub fits_iff :
    (fmt : Format) (t : String) (fs : Fields)
    → (validate_conditions fmt t fs ≡ none) ↔ FitsType fmt t fs
unfolding validate_conditions
fits_iff fmt t fs =
    named_iff t "type is required" _
      (case_iff t "capability" _ _ (capability_iff fs)
        (case_iff t "blocklist" _ _ (blocklist_iff fmt fs)
          (case_iff t "rate_limit" _ _ (rate_limit_iff fmt fs)
            (last_iff t "custom" ("unknown rule type: " ++ˢ t) _ (custom_iff fmt fs))
            (λ (e, _). apart "custom" "rate_limit" t refl e))
          (λ x. elim x [
            | inl (e, _) ↦ apart "rate_limit" "blocklist" t refl e
            | inr (e, _) ↦ apart "custom" "blocklist" t refl e
          ]))
        (λ x. elim x [
          | inl (e, _) ↦ apart "blocklist" "capability" t refl e
          | inr (inl (e, _)) ↦ apart "rate_limit" "capability" t refl e
          | inr (inr (e, _)) ↦ apart "custom" "capability" t refl e
        ]))
      (λ x. elim x [
        | inl (e, _) ↦ apart "capability" "" t refl e
        | inr (inl (e, _)) ↦ apart "blocklist" "" t refl e
        | inr (inr (inl (e, _))) ↦ apart "rate_limit" "" t refl e
        | inr (inr (inr (e, _))) ↦ apart "custom" "" t refl e
      ])
