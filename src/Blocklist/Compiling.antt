-- ===== src/Blocklist/Compiling.antt =====
-- Blocklist rules that the validator accepts.
use mcp_proxy.Prelude.{
  Bool, Bool-cases, List, String, [], arith, false, true, refl, none, some, ◌≡◌, ◌∷◌, ℕ, ◌+◌, inl,
  inr, Option,
}
use mcp_proxy.Json.{Items, Value, arr, cons, nil, str, null, bool, number, obj, get_field}
use mcp_proxy.Validation.{
  ◌then_check◌, Format, RuleDefinition, check_items, check_match_type, check_values, is_enabled,
  is_str, validate_blocklist_rule,
}
use mcp_proxy.Expression.Values.{
  Compiled, Printer, both, err, map_compiled, ok, panicked, string_items, to_string_slice, wrap,
}
use mcp_proxy.Blocklist.{
  compile_blocklist_rule, compile_blocklist_rules, with_match_type, with_values,
}

-- There is a result.
unfoldable pub is_ok {ℓ} : {A : Type ℓ} → Compiled A → Bool
is_ok (ok _) = true
is_ok (err _) = false
is_ok panicked = false

is_ok-map_compiled :
    {A B : Type 0} (f : A → B) (c : Compiled A) → is_ok c ≡ true → is_ok (map_compiled f c) ≡ true
unfolding is_ok map_compiled
is_ok-map_compiled f c h = ground arith

is_ok-wrap : {A : Type 0} (t : String) (c : Compiled A) → is_ok c ≡ true → is_ok (wrap t c) ≡ true
unfolding is_ok wrap
is_ok-wrap t c h = ground arith

is_ok-string_items :
    (pr : Printer) (fmt : Format) (i j : ℕ) (xs : Items)
    → check_items fmt i xs ≡ none
    → is_ok (string_items pr j xs) ≡ true
unfolding is_ok check_items string_items is_str
is_ok-string_items pr fmt i j nil h = refl
is_ok-string_items pr fmt i j (cons (str s) xs) h =
    is_ok-map_compiled _ _ (is_ok-string_items pr fmt (i + 1) (j + 1) xs h)
is_ok-string_items pr fmt i j (cons null xs) h = ground arith
is_ok-string_items pr fmt i j (cons (bool _) xs) h = ground arith
is_ok-string_items pr fmt i j (cons (number _) xs) h = ground arith
is_ok-string_items pr fmt i j (cons (obj _) xs) h = ground arith
is_ok-string_items pr fmt i j (cons (arr _) xs) h = ground arith

is_ok-with_values :
    (pr : Printer) (fmt : Format) (rule : RuleDefinition) (mt : String) (v : Option Value)
    → check_values fmt v ≡ none
    → is_ok (with_values pr rule mt v) ≡ true
unfolding is_ok check_values with_values to_string_slice
is_ok-with_values pr fmt rule mt none h = ground arith
is_ok-with_values pr fmt rule mt (some (arr nil)) h = ground arith
is_ok-with_values pr fmt rule mt (some (arr (cons v xs))) h =
    is_ok-wrap _ _ (is_ok-map_compiled _ _ (is_ok-string_items pr fmt 0 0 (cons v xs) h))
is_ok-with_values pr fmt rule mt (some null) h = ground arith
is_ok-with_values pr fmt rule mt (some (bool _)) h = ground arith
is_ok-with_values pr fmt rule mt (some (number _)) h = ground arith
is_ok-with_values pr fmt rule mt (some (str _)) h = ground arith
is_ok-with_values pr fmt rule mt (some (obj _)) h = ground arith

is_ok-with_match_type :
    (pr : Printer) (fmt : Format) (rule : RuleDefinition) (mt v : Option Value)
    → check_match_type mt ≡ none
    → check_values fmt v ≡ none
    → is_ok (with_match_type pr rule mt v) ≡ true
unfolding check_match_type with_match_type
is_ok-with_match_type pr fmt rule (some (str mt)) v h k = is_ok-with_values pr fmt rule mt v k
is_ok-with_match_type pr fmt rule none v h k = ground arith
is_ok-with_match_type pr fmt rule (some null) v h k = ground arith
is_ok-with_match_type pr fmt rule (some (bool _)) v h k = ground arith
is_ok-with_match_type pr fmt rule (some (number _)) v h k = ground arith
is_ok-with_match_type pr fmt rule (some (obj _)) v h k = ground arith
is_ok-with_match_type pr fmt rule (some (arr _)) v h k = ground arith

passed : (a b : Option String) → (a then_check b) ≡ none → (a ≡ none) × (b ≡ none)
passed a b h = ground arith

is_ok-compile_blocklist_rule :
    (pr : Printer) (fmt : Format) (rule : RuleDefinition)
    → validate_blocklist_rule fmt rule.conditions ≡ none
    → is_ok (compile_blocklist_rule pr rule) ≡ true
unfolding validate_blocklist_rule compile_blocklist_rule
is_ok-compile_blocklist_rule pr fmt rule h =
    let (typed, valued) = passed _ _ h in
    is_ok-with_match_type pr fmt rule (get_field "match_type" rule.conditions)
      (get_field "values" rule.conditions) typed valued

is_ok-both :
    {A B C : Type 0} (f : A → B → C) (c : Compiled A) (d : Compiled B)
    → is_ok c ≡ true
    → is_ok d ≡ true
    → is_ok (both f c d) ≡ true
unfolding is_ok both
is_ok-both f c d h k = ground arith

-- The validator accepts the conditions of the rules that are enabled.
unfoldable pub AllAccepted : Format → List RuleDefinition → Type 0
AllAccepted fmt [] = Unit
AllAccepted fmt (rule ∷ rules) =
    (is_enabled rule ≡ true → validate_blocklist_rule fmt rule.conditions ≡ none)
    × AllAccepted fmt rules

-- Blocklist rules compile to a text, without an error or a panic, if the validator accepts the conditions of those that are enabled.
pub is_ok-compile_blocklist_rules :
    (pr : Printer) (fmt : Format) (rules : List RuleDefinition)
    → AllAccepted fmt rules
    → is_ok (compile_blocklist_rules pr rules) ≡ true
unfolding is_ok compile_blocklist_rules AllAccepted
is_ok-compile_blocklist_rules pr fmt [] h = refl
is_ok-compile_blocklist_rules pr fmt (rule ∷ rules) (accepted, others) =
    let rest = is_ok-compile_blocklist_rules pr fmt rules others in
    elim (Bool-cases (is_enabled rule)) [
      | inl e ↦ rw e (
          is_ok-both _ (compile_blocklist_rule pr rule) _
            (is_ok-compile_blocklist_rule pr fmt rule (accepted e)) rest)
      | inr e ↦ rw e rest
    ]
