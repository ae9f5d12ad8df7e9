-- ===== src/Blocklist/Names.antt =====
-- The names that rules get in Rego.
use mcp_proxy.Prelude.{
  Bool, Bool-cases, String, ap, sym, arith, eqb, false, inl, inr, refl, true, ◌≡◌, ◌∙◌,
}
use Prim.Native.Char.{Char, code as code_point}
use mcp_proxy.Parser.{all_chars, is_letter}
use mcp_proxy.Validation.{is_identifier_char, is_valid_identifier}
use mcp_proxy.Blocklist.{underscore, keep_valid, replace_dashes, sanitize_rule_id}

module _ (c : Char) (s : String) where
  dash_step :
      eqb (code_point c) b'-' ≡ true
      → replace_dashes (String.◌∷◌ c s) ≡ String.◌∷◌ underscore (replace_dashes s)
  unfolding replace_dashes
  dash_step h = rw h refl

  other_step :
      eqb (code_point c) b'-' ≡ false
      → replace_dashes (String.◌∷◌ c s) ≡ String.◌∷◌ c (replace_dashes s)
  unfolding replace_dashes
  other_step h = rw h refl

  kept_step :
      is_identifier_char (code_point c) ≡ true
      → eqb (code_point c) b'-' ≡ false
      → keep_valid true (String.◌∷◌ c s) ≡ String.◌∷◌ c (keep_valid true s)
  unfolding keep_valid is_identifier_char is_letter
  kept_step h k = ground arith

  first_step :
      (b : Bool)
      → is_letter (code_point c) ≡ true
      → keep_valid b (String.◌∷◌ c s) ≡ String.◌∷◌ c (keep_valid true s)
  unfolding keep_valid
  first_step b h = rw h refl

  letter-not_dash : is_letter (code_point c) ≡ true → eqb (code_point c) b'-' ≡ false
  unfolding is_letter
  letter-not_dash h = ground arith

  all_chars-head :
      all_chars is_identifier_char (String.◌∷◌ c s) ≡ true
      → (is_identifier_char (code_point c) ≡ true) × (all_chars is_identifier_char s ≡ true)
  unfolding all_chars
  all_chars-head h = ground arith

first-letter :
    (c : Char) (s : String)
    → is_valid_identifier (String.◌∷◌ c s) ≡ true
    → (is_letter (code_point c) ≡ true) × (all_chars is_identifier_char s ≡ true)
unfolding is_valid_identifier
first-letter c s h = ground arith

keep_valid-replace_dashes :
    (s : String)
    → all_chars is_identifier_char s ≡ true
    → keep_valid true (replace_dashes s) ≡ replace_dashes s
unfolding keep_valid replace_dashes
keep_valid-replace_dashes String.[] h = refl
keep_valid-replace_dashes (String.◌∷◌ c s) h =
    let (valid, rest) = all_chars-head c s h in
    let ih = keep_valid-replace_dashes s rest in
    elim (Bool-cases (eqb (code_point c) b'-')) [
      | inl e ↦
          ap (keep_valid true) (dash_step c s e)
          ∙ ap (λ t. String.◌∷◌ underscore t) ih
          ∙ sym (dash_step c s e)
      | inr e ↦
          ap (keep_valid true) (other_step c s e)
          ∙ kept_step c (replace_dashes s) valid e
          ∙ ap (λ t. String.◌∷◌ c t) ih
          ∙ sym (other_step c s e)
    ]

-- What the validator accepts as the ID of a rule or the name of a policy gets, as its name in Rego, the same characters with an underscore for each dash.
pub sanitize_rule_id_lem :
    (id : String) → is_valid_identifier id ≡ true → sanitize_rule_id id ≡ replace_dashes id
unfolding is_valid_identifier sanitize_rule_id keep_valid replace_dashes
sanitize_rule_id_lem String.[] h = refl
sanitize_rule_id_lem (String.◌∷◌ c s) h =
    let (letter, rest) = first-letter c s h in
    let step = other_step c s (letter-not_dash c s letter) in
    ap (keep_valid false) step
    ∙ first_step c (replace_dashes s) false letter
    ∙ ap (λ t. String.◌∷◌ c t) (keep_valid-replace_dashes s rest)
    ∙ sym step
