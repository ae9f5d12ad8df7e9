-- ===== src/Validation/Conditions.antt =====
-- The conditions of custom rules, however deeply nested.
use mcp_proxy.Prelude.{
  Bool-cases, Option, String, arith, eq_iff, inl, inr, none, refl, some, ◌==◌, ◌≡◌, ◌≢◌, ◌⊎◌, ◌↔◌,
  ℕ, ◌+◌, if◌then◌else◌,
}
use mcp_proxy.Json.{Fields, Items, Value, arr, cons, end, field, get_field, nil, obj, str}
use mcp_proxy.Validation.{
  Format, check_field, validate_array, validate_custom_rule, validate_expression, validate_item,
  validate_items, validate_list, validate_negated, validate_not, wrap, ◌then_check◌,
}
use mcp_proxy.Validation.Shapes.{
  AllConditions, IsComparison, IsCondition, IsConditionList, IsCustomRule, IsListAt, IsNegated,
  IsText, IsTextIn, operators,
}
use mcp_proxy.Validation.Texts.{check_op_iff}

pub then_check_iff :
    {P Q : Type 0} (a b : Option String)
    → (a ≡ none) ↔ P
    → (b ≡ none) ↔ Q
    → ((a then_check b) ≡ none) ↔ (P × Q)
then_check_iff none b (p, p_back) (q, q_back) = (λ h. (p refl, q h), λ (x, y). q_back y)
then_check_iff (some e) b (p, p_back) (q, q_back) =
    (λ h. ground arith, λ (x, y). let h = p_back x in cc)

wrap_iff : {P : Type 0} (t : String) (a : Option String) → (a ≡ none) ↔ P → (wrap t a ≡ none) ↔ P
wrap_iff t none p = p
wrap_iff t (some e) (p, p_back) = (λ h. ground arith, λ x. let h = p_back x in cc)

field_iff :
    (o : Option Value) (fs : Fields)
    → (check_field o fs ≡ none) ↔ (
        (o ≡ none)
        ⊎ (IsText o × ((get_field "op" fs ≡ none) ⊎ IsTextIn operators (get_field "op" fs))))
unfolding check_field
field_iff none fs = (λ h. inl refl, λ h. refl)
field_iff (some (str s)) fs =
    let (known, back) = check_op_iff (get_field "op" fs) in
    (λ h. inr ((s, refl), known h), λ h. elim h [ inl e ↦ cc | inr (_, x) ↦ back x ])
field_iff (some _) fs =
    (λ h. ground arith, λ h. elim h [ inl e ↦ cc | inr ((s, e), _) ↦ ground arith ])

pub check_field_iff :
    (fs : Fields) → (check_field (get_field "field" fs) fs ≡ none) ↔ IsComparison fs
check_field_iff fs = field_iff (get_field "field" fs) fs

-- The case of a member with the key, and of one with another.
member_iff :
    {P Q : Type 0} (k key : String) (here rest : Option String)
    → (here ≡ none) ↔ P
    → (rest ≡ none) ↔ Q
    → ((if k == key then here else rest) ≡ none) ↔ ((k ≡ key → P) × (k ≢ key → Q))
member_iff k key here rest (p, p_back) (q, q_back) = elim (Bool-cases (k == key)) [
  | inl same ↦
      let e = (eq_iff k key).0 same in
      rw same (λ h. (λ _. p h, λ ne. absurd (ne e)), λ (x, _). p_back (x e))
  | inr other ↦
      let ne : k ≢ key = λ e. ground (arith, eq_iff k key) in
      rw other (λ h. (λ e. absurd (ne e), λ _. q h), λ (_, y). q_back (y ne))
]

mutual
  unfolding validate_list validate_not IsListAt

  pub list_iff :
      (fmt : Format) (key : String) (fs : Fields)
      → (validate_list fmt key fs ≡ none) ↔ IsListAt key fs
  list_iff fmt key end = (λ h. tt, λ h. refl)
  list_iff fmt key (field k v fs) =
      member_iff k key (validate_array fmt key v) (validate_list fmt key fs) (array_iff fmt key v)
        (list_iff fmt key fs)

  array_iff :
      (fmt : Format) (key : String) (v : Value)
      → (validate_array fmt key v ≡ none) ↔ IsConditionList v
  array_iff fmt key (arr xs) = conditions_iff fmt key 0 xs
  array_iff fmt key _ = (λ h. ground arith, λ h. absurd h)

  conditions_iff :
      (fmt : Format) (key : String) (i : ℕ) (xs : Items)
      → (validate_items fmt key i xs ≡ none) ↔ AllConditions xs
  conditions_iff fmt key i nil = (λ h. tt, λ h. refl)
  conditions_iff fmt key i (cons v xs) =
      then_check_iff (validate_item fmt key i v) (validate_items fmt key (i + 1) xs)
        (validate_item_iff fmt key i v) (conditions_iff fmt key (i + 1) xs)

  validate_item_iff :
      (fmt : Format) (key : String) (i : ℕ) (v : Value)
      → (validate_item fmt key i v ≡ none) ↔ IsCondition v
  validate_item_iff fmt key i (obj fs) = wrap_iff _ _ (
      then_check_iff _ _ (list_iff fmt "all" fs) (
        then_check_iff _ _ (list_iff fmt "any" fs)
          (then_check_iff _ _ (not_iff fmt fs) (check_field_iff fs))))
  validate_item_iff fmt key i _ = (λ h. ground arith, λ h. absurd h)

  pub not_iff : (fmt : Format) (fs : Fields) → (validate_not fmt fs ≡ none) ↔ IsNegated fs
  not_iff fmt end = (λ h. tt, λ h. refl)
  not_iff fmt (field k v fs) =
      member_iff k "not" (validate_negated fmt v) (validate_not fmt fs) (negated_iff fmt v)
        (not_iff fmt fs)

  negated_iff : (fmt : Format) (v : Value) → (validate_negated fmt v ≡ none) ↔ IsCondition v
  negated_iff fmt (obj fs) = wrap_iff _ _ (
      then_check_iff _ _ (list_iff fmt "all" fs) (
        then_check_iff _ _ (list_iff fmt "any" fs)
          (then_check_iff _ _ (not_iff fmt fs) (check_field_iff fs))))
  negated_iff fmt _ = (λ h. ground arith, λ h. absurd h)

expression_iff :
    (fmt : Format) (fs : Fields)
    → (validate_expression fmt fs ≡ none)
      ↔ (IsListAt "all" fs × (IsListAt "any" fs × (IsNegated fs × IsComparison fs)))
unfolding validate_expression
expression_iff fmt fs = then_check_iff _ _ (list_iff fmt "all" fs) (
    then_check_iff _ _ (list_iff fmt "any" fs)
      (then_check_iff _ _ (not_iff fmt fs) (check_field_iff fs)))

pub custom_iff :
    (fmt : Format) (fs : Fields) → (validate_custom_rule fmt fs ≡ none) ↔ IsCustomRule fs
unfolding validate_custom_rule
custom_iff fmt end = (λ h. ground arith, λ (ne, _). absurd (ne refl))
custom_iff fmt (field k v fs) =
    let (fine, back) = expression_iff fmt (field k v fs) in
    (λ h. (λ e. ground arith, fine h), λ (ne, h). back h)
