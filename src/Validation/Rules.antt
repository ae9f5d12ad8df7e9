-- ===== src/Validation/Rules.antt =====
-- What a policy definition that passes the checks is like.
use mcp_proxy.Prelude.{
  ◌↔◌, List, Option, String, [], false, none, some, true, ℕ, ◌+◌, ◌==◌, ◌∷◌, ◌≡◌, ◌≢◌, arith, refl,
  eq_iff, Bool-cases, inl, inr, sym, ◌∙◌, ap, length, ◌<◌,
}
use mcp_proxy.Validation.Fitting.{fits_iff}
use mcp_proxy.Validation.Shapes.{FitsType, IsIdentifier}
use mcp_proxy.Validation.Texts.{is_valid_identifier_iff}
use mcp_proxy.Validation.{
  Format, RuleDefinition, PolicyDefinition, ◌then_check◌, wrap, is_valid_identifier, is_in,
  validate_id, validate_rule, validate_rules, check_rules, validate,
}

then_check-none : (a b : Option String) → a then_check b ≡ none → (a ≡ none) × (b ≡ none)
then_check-none none b h = (refl, h)
then_check-none (some e) b h = absurd (ground arith)

wrap-none : (t : String) (a : Option String) → wrap t a ≡ none → a ≡ none
wrap-none t none h = refl
wrap-none t (some e) h = absurd (ground arith)

abbrev pub IsNew : String → List RuleDefinition → Type 0
IsNew id [] = Unit {0}
IsNew id (r ∷ rs) = (id ≢ r.id) × IsNew id rs

-- No two rules have the same ID.
abbrev pub IsUnique : List RuleDefinition → Type 0
IsUnique [] = Unit {0}
IsUnique (r ∷ rs) = IsNew r.id rs × IsUnique rs

-- Every rule has an identifier for its ID, and conditions that fit its type.
abbrev pub AllValid : Format → List RuleDefinition → Type 0
AllValid fmt [] = Unit {0}
AllValid fmt (r ∷ rs) = IsIdentifier r.id × FitsType fmt r.rule_type r.conditions × AllValid fmt rs

pub record IsWellFormed (fmt : Format) (def : PolicyDefinition) : Type 0 where
  pub versioned : def.version ≢ ""
  pub named : IsIdentifier def.name
  pub has_rules : 0 < length def.rules
  pub unique : IsUnique def.rules
  pub valid : AllValid fmt def.rules

abbrev AllOutside : List String → List RuleDefinition → Type 0
AllOutside ids [] = Unit {0}
AllOutside ids (r ∷ rs) = (is_in ids r.id ≡ false) × AllOutside ids rs

AllOutside-parts :
    (id : String) (ids : List String) (rs : List RuleDefinition)
    → AllOutside (id ∷ ids) rs
    → IsNew id rs × AllOutside ids rs
unfolding is_in
AllOutside-parts id ids [] h = (tt, tt)
AllOutside-parts id ids (r ∷ rs) (h, rest) =
    let (new, outside) = AllOutside-parts id ids rs rest in
    ((ground (arith, eq_iff id r.id), new), (ground arith, outside))

id_lem :
    (ids : List String) (id : String)
    → validate_id ids id ≡ none
    → (is_valid_identifier id ≡ true) × (is_in ids id ≡ false)
unfolding validate_id
id_lem ids id h = ground arith

rules_lem :
    (fmt : Format) (i : ℕ) (ids : List String) (rs : List RuleDefinition)
    → validate_rules fmt i ids rs ≡ none
    → AllValid fmt rs × IsUnique rs × AllOutside ids rs
unfolding validate_rules validate_rule
rules_lem fmt i ids [] h = (tt, tt, tt)
rules_lem fmt i ids (r ∷ rs) h =
    let (first, rest) = then_check-none _ _ h in
    let (id_ok, conditions_ok) = then_check-none _ _ (wrap-none _ _ first) in
    let (identifier, outside) = id_lem ids r.id id_ok in
    let (valid, unique, all_outside) = rules_lem fmt (i + 1) (r.id ∷ ids) rs rest in
    let (new, still) = AllOutside-parts r.id ids rs all_outside in
    (
      (
        (is_valid_identifier_iff r.id).0 identifier,
        (fits_iff fmt r.rule_type r.conditions).0 conditions_ok,
        valid,
      ),
      (new, unique),
      (outside, still),
    )

AllOutside-join :
    (id : String) (ids : List String) (rs : List RuleDefinition)
    → IsNew id rs
    → AllOutside ids rs
    → AllOutside (id ∷ ids) rs
unfolding is_in
AllOutside-join id ids [] n h = tt
AllOutside-join id ids (r ∷ rs) (ne, n) (h, rest) =
    (ground (arith, eq_iff id r.id), AllOutside-join id ids rs n rest)

AllOutside-nil : (rs : List RuleDefinition) → AllOutside [] rs
unfolding is_in
AllOutside-nil [] = tt
AllOutside-nil (r ∷ rs) = (refl, AllOutside-nil rs)

identifier-not_empty : (id : String) → is_valid_identifier id ≡ true → (id == "") ≡ false
unfolding is_valid_identifier
identifier-not_empty id h = elim (Bool-cases (id == "")) [
  | inr e ↦ e
  | inl e ↦ absurd (empty_invalid (sym (ap is_valid_identifier ((eq_iff id "").0 e)) ∙ h))
]
  where
    empty_invalid : is_valid_identifier "" ≡ true → ⊥
    empty_invalid z = ground arith

id_passes :
    (ids : List String) (id : String)
    → is_valid_identifier id ≡ true
    → is_in ids id ≡ false
    → validate_id ids id ≡ none
unfolding validate_id
id_passes ids id h outside = rw (identifier-not_empty id h, h, outside)

rules_pass :
    (fmt : Format) (i : ℕ) (ids : List String) (rs : List RuleDefinition)
    → AllValid fmt rs
    → IsUnique rs
    → AllOutside ids rs
    → validate_rules fmt i ids rs ≡ none
unfolding validate_rules validate_rule
rules_pass fmt i ids [] v u o = refl
rules_pass fmt i ids (r ∷ rs) (identifier, conditions_ok, v) (new, u) (outside, o) = rw (
  id_passes ids r.id ((is_valid_identifier_iff r.id).1 identifier) outside,
  (fits_iff fmt r.rule_type r.conditions).1 conditions_ok,
  rules_pass fmt (i + 1) (r.id ∷ ids) rs v u (AllOutside-join r.id ids rs new o),
)

check_rules_lem :
    (fmt : Format) (rs : List RuleDefinition)
    → check_rules fmt rs ≡ none
    → (0 < length rs) × (validate_rules fmt 0 [] rs ≡ none)
unfolding check_rules
check_rules_lem fmt [] h = absurd (ground arith)
check_rules_lem fmt (r ∷ rs) h = (omega arith, h)

check_rules_pass :
    (fmt : Format) (rs : List RuleDefinition)
    → 0 < length rs
    → validate_rules fmt 0 [] rs ≡ none
    → check_rules fmt rs ≡ none
unfolding check_rules
check_rules_pass fmt [] h k = absurd (omega arith)
check_rules_pass fmt (r ∷ rs) h k = k

head_lem :
    (fmt : Format) (def : PolicyDefinition)
    → validate fmt def ≡ none
    → (def.version ≢ "")
      × (is_valid_identifier def.name ≡ true)
      × (check_rules fmt def.rules ≡ none)
unfolding validate
head_lem fmt def h = ground (arith, eq_iff def.version "")

head_passes :
    (fmt : Format) (def : PolicyDefinition)
    → (def.version == "") ≡ false
    → is_valid_identifier def.name ≡ true
    → check_rules fmt def.rules ≡ none
    → validate fmt def ≡ none
unfolding validate
head_passes fmt def versioned named rules =
    rw (versioned, identifier-not_empty def.name named, named) rules

validate-IsWellFormed :
    (fmt : Format) (def : PolicyDefinition) → validate fmt def ≡ none → IsWellFormed fmt def
validate-IsWellFormed fmt def h =
    let (versioned, named, rules) = head_lem fmt def h in
    let (has_rules, passed) = check_rules_lem fmt def.rules rules in
    let (valid, unique, _) = rules_lem fmt 0 [] def.rules passed in
    record {
      versioned = versioned;
      named = (is_valid_identifier_iff def.name).0 named;
      has_rules = has_rules;
      unique = unique;
      valid = valid;
    }

IsWellFormed-validate :
    (fmt : Format) (def : PolicyDefinition) → IsWellFormed fmt def → validate fmt def ≡ none
IsWellFormed-validate fmt def w =
    head_passes fmt def (unequal def.version w.versioned)
      ((is_valid_identifier_iff def.name).1 w.named)
      (check_rules_pass fmt def.rules w.has_rules
        (rules_pass fmt 0 [] def.rules w.valid w.unique (AllOutside-nil def.rules)))
  where
    unequal : (s : String) → s ≢ "" → (s == "") ≡ false
    unequal s ne = ground (arith, eq_iff s "")

-- A policy definition passes exactly if it has a version, an identifier as its name (a letter, and then letters, digits, _ and -) and at least one rule, no two rules have the same ID, and each rule has an identifier for its ID and fits its type: a capability rule names a tool and a capability; a blocklist rule names what it matches, of tool, agent and did, and lists at least one text; a rate limit rule has a positive limit and, if any, one of the three windows; a custom rule has at least one member and conditions of the right form, with known operators, however deeply they are nested.
pub validate_iff :
    (fmt : Format) (def : PolicyDefinition) → (validate fmt def ≡ none) ↔ IsWellFormed fmt def
validate_iff fmt def = (validate-IsWellFormed fmt def, IsWellFormed-validate fmt def)
