-- ===== src/Validation/Texts.antt =====
-- Identifiers, and the members of conditions that are texts, numbers or lists of texts.
use mcp_proxy.Prelude.{
  Bool, List, Option, String, [], arith, eq_iff, inl, inr, none, refl, some, true, ◌≡◌, ◌∷◌, ◌⊎◌,
  ◌↔◌, ℕ, ◌+◌, sym, subst, if◌then◌else◌,
}
use Prim.Native.Char.{code as code_point}
use Prim.Native.String.{◌++◌ as ◌++ˢ◌}
use mcp_proxy.Json.{Items, Value, arr, cons, nil, number, str}
use mcp_proxy.Parser.{all_chars, is_letter}
use mcp_proxy.Validation.{
  Format, check_items, check_limit, check_match_type, check_op, check_text, check_values,
  check_window, is_identifier_char, is_in, is_str, is_valid_identifier, is_valid_operator,
}
use mcp_proxy.Validation.Shapes.{
  AllIdentifierChars, AllTexts, IsIdentifier, IsIdentifierChar, IsLetter, IsLimit, IsText, IsTextIn,
  IsValues, OneOf, operators,
}

is_letter_iff : (c : ℕ) → (is_letter c ≡ true) ↔ IsLetter c
unfolding is_letter
is_letter_iff c = (λ h. ground arith, λ h. ground arith)

is_identifier_char_iff : (c : ℕ) → (is_identifier_char c ≡ true) ↔ IsIdentifierChar c
unfolding is_identifier_char is_letter
is_identifier_char_iff c = (λ h. ground arith, λ h. ground arith)

all_iff : (s : String) → (all_chars is_identifier_char s ≡ true) ↔ AllIdentifierChars s
unfolding all_chars
all_iff String.[] = (λ h. tt, λ h. refl)
all_iff (String.◌∷◌ c s) =
    let (rest, back) = all_iff s in
    let (one, one_back) = is_identifier_char_iff (code_point c) in
    (λ h. ground (arith, one, rest), λ (h, hs). ground (arith, one_back h, back hs))

pub is_valid_identifier_iff : (s : String) → (is_valid_identifier s ≡ true) ↔ IsIdentifier s
unfolding is_valid_identifier
is_valid_identifier_iff String.[] = (λ h. ground arith, λ h. absurd h)
is_valid_identifier_iff (String.◌∷◌ c s) =
    let (rest, back) = all_iff s in
    let (one, one_back) = is_letter_iff (code_point c) in
    (λ h. ground (arith, one, rest), λ (h, hs). ground (arith, one_back h, back hs))

is_in_iff : (ts : List String) (s : String) → (is_in ts s ≡ true) ↔ OneOf ts s
unfolding is_in
is_in_iff [] s = (λ h. ground arith, λ h. absurd h)
is_in_iff (t ∷ ts) s =
    let (rest, back) = is_in_iff ts s in
    (λ h. ground (arith, eq_iff t s, rest), λ h. ground (arith, eq_iff t s, back))

pub check_text_iff :
    (kind key : String) (o : Option Value) → (check_text kind key o ≡ none) ↔ IsText o
unfolding check_text is_str
check_text_iff kind key none = (λ h. ground arith, λ (s, e). cc)
check_text_iff kind key (some (str s)) = (λ h. (s, refl), λ h. refl)
check_text_iff kind key (some _) = (λ h. ground arith, λ (s, e). ground arith)

same_text : (s t : String) → some (str s) ≡ some (str t) → s ≡ t
same_text s t e = cc

passes : (b : Bool) (e : String) → (if b then none else some e) ≡ none → b ≡ true
passes b e h = ground arith

listed_iff :
    (ts : List String) (s e : String)
    → ((if is_in ts s then none else some e) ≡ none) ↔ IsTextIn ts (some (str s))
listed_iff ts s e = (
  λ h. (s, refl, (is_in_iff ts s).0 (passes (is_in ts s) e h)),
  λ (t, q, one).
      let found = subst (λ x. is_in ts x ≡ true) (sym (same_text s t q)) ((is_in_iff ts t).1 one) in
      rw found refl,
)

pub check_match_type_iff :
    (o : Option Value) → (check_match_type o ≡ none) ↔ IsTextIn ("tool" ∷ "agent" ∷ "did" ∷ []) o
unfolding check_match_type
check_match_type_iff none = (λ h. ground arith, λ (s, e, _). ground arith)
check_match_type_iff (some (str s)) =
    listed_iff ("tool" ∷ "agent" ∷ "did" ∷ []) s "'match_type' must be one of: tool, agent, did"
check_match_type_iff (some _) = (λ h. ground arith, λ (s, e, _). ground arith)

pub check_window_iff :
    (o : Option Value)
    → (check_window o ≡ none) ↔ ((o ≡ none) ⊎ IsTextIn ("session" ∷ "minute" ∷ "hour" ∷ []) o)
unfolding check_window
check_window_iff none = (λ h. inl refl, λ h. refl)
check_window_iff (some (str s)) =
    let (one, back) =
      listed_iff ("session" ∷ "minute" ∷ "hour" ∷ []) s
        "'window' must be one of: session, minute, hour" in
    (λ h. inr (one h), λ h. elim h [ inl e ↦ cc | inr x ↦ back x ])
check_window_iff (some _) =
    (λ h. ground arith, λ h. elim h [ inl e ↦ cc | inr (s, e, _) ↦ ground arith ])

pub check_op_iff : (o : Option Value) → (check_op o ≡ none) ↔ ((o ≡ none) ⊎ IsTextIn operators o)
unfolding check_op is_valid_operator
check_op_iff none = (λ h. inl refl, λ h. refl)
check_op_iff (some (str s)) =
    let (one, back) = listed_iff operators s ("invalid operator: " ++ˢ s) in
    (λ h. inr (one h), λ h. elim h [ inl e ↦ cc | inr x ↦ back x ])
check_op_iff (some _) =
    (λ h. ground arith, λ h. elim h [ inl e ↦ cc | inr (s, e, _) ↦ ground arith ])

pub check_limit_iff : (fmt : Format) (o : Option Value) → (check_limit fmt o ≡ none) ↔ IsLimit fmt o
unfolding check_limit
check_limit_iff fmt none = (λ h. ground arith, λ (s, e, _). ground arith)
check_limit_iff fmt (some (number l)) =
    (λ h. (l, refl, passes (fmt.is_positive l) _ h), λ (l', e, positive). ground arith)
check_limit_iff fmt (some _) = (λ h. ground arith, λ (s, e, _). ground arith)

same_items : (xs ys : Items) → some (arr xs) ≡ some (arr ys) → xs ≡ ys
same_items xs ys e = cc

items_iff : (fmt : Format) (i : ℕ) (xs : Items) → (check_items fmt i xs ≡ none) ↔ AllTexts xs
unfolding check_items is_str
items_iff fmt i nil = (λ h. tt, λ h. refl)
items_iff fmt i (cons (str s) xs) =
    let (rest, back) = items_iff fmt (i + 1) xs in (λ h. ((s, refl), rest h), λ (one, h). back h)
items_iff fmt i (cons _ xs) = (λ h. ground arith, λ ((s, e), h). ground arith)

pub check_values_iff : (fmt : Format) (o : Option Value) → (check_values fmt o ≡ none) ↔ IsValues o
unfolding check_values
check_values_iff fmt none = (λ h. ground arith, λ (v, xs, e, _). ground arith)
check_values_iff fmt (some (arr nil)) = (λ h. ground arith, λ (v, xs, e, _). ground arith)
check_values_iff fmt (some (arr (cons v xs))) =
    let (all, back) = items_iff fmt 0 (cons v xs) in
    (
      λ h. (v, xs, refl, all h),
      λ (w, ys, e, h). back (subst AllTexts (sym (same_items (cons v xs) (cons w ys) e)) h),
    )
check_values_iff fmt (some _) = (λ h. ground arith, λ (v, xs, e, _). ground arith)
