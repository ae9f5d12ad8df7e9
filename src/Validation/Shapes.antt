-- ===== src/Validation/Shapes.antt =====
-- What rules have to look like, said without the checks.
use mcp_proxy.Prelude.{List, Option, String, [], none, some, ◌≡◌, ◌≢◌, ◌∷◌, ◌⊎◌, ℕ, true, ◌≤◌}
use Prim.Native.Char.{code as code_point}
use mcp_proxy.Json.{Fields, Items, Value, arr, cons, end, field, get_field, nil, number, obj, str}
use mcp_proxy.Validation.{Format}

abbrev pub IsLetter : ℕ → Type 0
IsLetter c = ((97 ≤ c) × (c ≤ 122)) ⊎ ((65 ≤ c) × (c ≤ 90))

-- A letter, a digit, _ or -
abbrev pub IsIdentifierChar : ℕ → Type 0
IsIdentifierChar c = IsLetter c ⊎ ((48 ≤ c) × (c ≤ 57)) ⊎ (c ≡ 95) ⊎ (c ≡ 45)

abbrev pub AllIdentifierChars : String → Type 0
AllIdentifierChars String.[] = Unit {0}
AllIdentifierChars (String.◌∷◌ c s) = IsIdentifierChar (code_point c) × AllIdentifierChars s

-- A letter, and then letters, digits, _ and -
abbrev pub IsIdentifier : String → Type 0
IsIdentifier String.[] = ⊥
IsIdentifier (String.◌∷◌ c s) = IsLetter (code_point c) × AllIdentifierChars s

abbrev pub OneOf : List String → String → Type 0
OneOf [] s = ⊥
OneOf (t ∷ ts) s = (t ≡ s) ⊎ OneOf ts s

abbrev pub IsText : Option Value → Type 0
IsText o = (s : String) × (o ≡ some (str s))

abbrev pub IsTextIn : List String → Option Value → Type 0
IsTextIn ts o = (s : String) × (o ≡ some (str s)) × OneOf ts s

abbrev pub AllTexts : Items → Type 0
AllTexts nil = Unit {0}
AllTexts (cons v xs) = IsText (some v) × AllTexts xs

-- A tool and a capability
abbrev pub IsCapabilityRule : Fields → Type 0
IsCapabilityRule fs = IsText (get_field "tool" fs) × IsText (get_field "requires_capability" fs)

abbrev pub IsValues : Option Value → Type 0
IsValues o = (v : Value) × (xs : Items) × (o ≡ some (arr (cons v xs))) × AllTexts (cons v xs)

-- What is matched, and a list of at least one text
abbrev pub IsBlocklistRule : Fields → Type 0
IsBlocklistRule fs =
    IsTextIn ("tool" ∷ "agent" ∷ "did" ∷ []) (get_field "match_type" fs)
    × IsValues (get_field "values" fs)

abbrev pub IsLimit : Format → Option Value → Type 0
IsLimit fmt o = (l : String) × (o ≡ some (number l)) × (fmt.is_positive l ≡ true)

-- A positive limit, and a window if there is one
abbrev pub IsRateLimitRule : Format → Fields → Type 0
IsRateLimitRule fmt fs =
    IsLimit fmt (get_field "limit" fs)
    × ((get_field "window" fs ≡ none)
        ⊎ IsTextIn ("session" ∷ "minute" ∷ "hour" ∷ []) (get_field "window" fs))

abbrev pub operators : List String
operators =
    "eq" ∷ "ne" ∷ "gt" ∷ "gte" ∷ "lt" ∷ "lte" ∷ "contains" ∷ "startswith" ∷ "endswith" ∷ "matches"
    ∷ "in" ∷ "not_in" ∷ []

-- A field, if there is one, is a text, and then the operator, if there is one, is a known one.
abbrev pub IsComparison : Fields → Type 0
IsComparison fs =
    (get_field "field" fs ≡ none)
    ⊎ (IsText (get_field "field" fs)
        × ((get_field "op" fs ≡ none) ⊎ IsTextIn operators (get_field "op" fs)))

-- The first member with the key, if there is one, is a list of conditions; the first `not` is a condition.
unfoldable mutual
  pub IsListAt : String → Fields → Type 0
  IsListAt key end = Unit {0}
  IsListAt key (field k v fs) = (k ≡ key → IsConditionList v) × (k ≢ key → IsListAt key fs)

  pub IsConditionList : Value → Type 0
  IsConditionList (arr xs) = AllConditions xs
  IsConditionList v = ⊥

  pub AllConditions : Items → Type 0
  AllConditions nil = Unit {0}
  AllConditions (cons v xs) = IsCondition v × AllConditions xs

  pub IsCondition : Value → Type 0
  IsCondition (obj fs) = IsListAt "all" fs × (IsListAt "any" fs × (IsNegated fs × IsComparison fs))
  IsCondition v = ⊥

  pub IsNegated : Fields → Type 0
  IsNegated end = Unit {0}
  IsNegated (field k v fs) = (k ≡ "not" → IsCondition v) × (k ≢ "not" → IsNegated fs)

-- At least one member, and conditions of the right form all the way down
abbrev pub IsCustomRule : Fields → Type 0
IsCustomRule fs =
    (fs ≢ end) × (IsListAt "all" fs × (IsListAt "any" fs × (IsNegated fs × IsComparison fs)))

abbrev pub FitsType : Format → String → Fields → Type 0
FitsType fmt rule_type fs =
    ((rule_type ≡ "capability") × IsCapabilityRule fs)
    ⊎ ((rule_type ≡ "blocklist") × IsBlocklistRule fs)
    ⊎ ((rule_type ≡ "rate_limit") × IsRateLimitRule fmt fs)
    ⊎ ((rule_type ≡ "custom") × IsCustomRule fs)
