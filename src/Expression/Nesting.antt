-- ===== src/Expression/Nesting.antt =====
-- Conditions inside conditions.
use mcp_proxy.Prelude.{
  Bool, Option, String, arith, false, if◌then◌else◌, none, refl, some, true, ℕ, ◌+◌, ◌==◌, ◌≡◌, ◌≢◌,
}
use mcp_proxy.Json.{
  Fields, Items, Value, arr, bool, cons, end, field, get_field, nil, null, number, obj, str,
}
use mcp_proxy.Validation.{
  Format, check_field, validate_array, validate_item, validate_items, validate_list,
  validate_negated, validate_not, validate_expression, ◌then_check◌,
}
use mcp_proxy.Validation.{wrap as wrap_error}
use mcp_proxy.Expression.{
  compile, compile_all, compile_any, compile_array, compile_expr, compile_item, compile_items,
  compile_negated, compile_not, or_next,
}
use mcp_proxy.Expression.Values.{Compiled, Printer, err, ok, panicked}
use mcp_proxy.Expression.Panics.{safe, safe-both, safe-compile_leaf, safe-map_compiled, safe-wrap}

-- A case that is taken does not panic.
abbrev SafeCase : Option (Compiled String) → Type 0
SafeCase none = Unit
SafeCase (some c) = safe c ≡ true

safe-or_next :
    (o : Option (Compiled String)) (c : Compiled String)
    → SafeCase o
    → safe c ≡ true
    → safe (or_next o c) ≡ true
unfolding or_next
safe-or_next none c h k = k
safe-or_next (some d) c h k = h

SafeCase-if :
    (b : Bool) (here : Compiled String) (rest : Option (Compiled String))
    → (b ≡ true → safe here ≡ true)
    → (b ≡ false → SafeCase rest)
    → SafeCase (if b then some here else rest)
SafeCase-if true here rest h k = h refl
SafeCase-if false here rest h k = k refl

passed : (a b : Option String) → (a then_check b) ≡ none → (a ≡ none) × (b ≡ none)
passed a b h = ground arith

wrapped : (t : String) (o : Option String) → wrap_error t o ≡ none → o ≡ none
wrapped t o h = ground arith

-- What the validator has checked of an object.
abbrev Checked : Format → Fields → Type 0
Checked fmt fs =
    (validate_list fmt "all" fs ≡ none)
    × (validate_list fmt "any" fs ≡ none)
    × (validate_not fmt fs ≡ none)
    × (check_field (get_field "field" fs) fs ≡ none)

Checked-validate_expression :
    (fmt : Format) (fs : Fields)
    → (validate_list fmt "all" fs
        then_check validate_list fmt "any" fs
        then_check validate_not fmt fs
        then_check check_field (get_field "field" fs) fs)
      ≡ none
    → Checked fmt fs
Checked-validate_expression fmt fs h =
    let (a, rest) = passed _ _ h in
    let (b, rest2) = passed _ _ rest in let (c, d) = passed _ _ rest2 in (a, b, c, d)

module _ (pr : Printer) (fmt : Format) where
  mutual
    unfolding compile_all validate_list safe

    safe-compile_all :
        (n : ℕ) (fs : Fields) → validate_list fmt "all" fs ≡ none → SafeCase (compile_all pr n fs)
    safe-compile_all n end h = tt
    safe-compile_all n (field k v fs) h =
        SafeCase-if (k == "all") _ _
          (λ b. safe-map_compiled _ _ (safe-compile_array "all" n v (rw b at h)))
          (λ b. safe-compile_all n fs (rw b at h))

    safe-compile_any :
        (n : ℕ) (fs : Fields) → validate_list fmt "any" fs ≡ none → SafeCase (compile_any pr n fs)
    safe-compile_any n end h = tt
    safe-compile_any n (field k v fs) h =
        SafeCase-if (k == "any") _ _
          (λ b. safe-map_compiled _ _ (safe-compile_array "any" (n + 1) v (rw b at h)))
          (λ b. safe-compile_any n fs (rw b at h))

    safe-compile_not :
        (n : ℕ) (fs : Fields) → validate_not fmt fs ≡ none → SafeCase (compile_not pr n fs)
    safe-compile_not n end h = tt
    safe-compile_not n (field k v fs) h =
        SafeCase-if (k == "not") _ _
          (λ b. safe-map_compiled _ _ (safe-compile_negated v (rw b at h)))
          (λ b. safe-compile_not n fs (rw b at h))

    safe-compile_array :
        (key : String) (n : ℕ) (v : Value)
        → validate_array fmt key v ≡ none
        → safe (compile_array pr key n v) ≡ true
    safe-compile_array key n (arr xs) h = safe-compile_items key n 0 xs h
    safe-compile_array key n null h = refl
    safe-compile_array key n (bool _) h = refl
    safe-compile_array key n (number _) h = refl
    safe-compile_array key n (str _) h = refl
    safe-compile_array key n (obj _) h = refl

    safe-compile_items :
        (key : String) (n i : ℕ) (xs : Items)
        → validate_items fmt key i xs ≡ none
        → safe (compile_items pr key n i xs) ≡ true
    safe-compile_items key n i nil h = refl
    safe-compile_items key n i (cons v xs) h =
        let (first, rest) = passed _ _ h in
        safe-both _ _ _ (safe-compile_item key n i v first)
          (safe-compile_items key n (i + 1) xs rest)

    safe-compile_item :
        (key : String) (n i : ℕ) (v : Value)
        → validate_item fmt key i v ≡ none
        → safe (compile_item pr key n i v) ≡ true
    safe-compile_item key n i (obj fs) h =
        let (a, b, c, d) = Checked-validate_expression fmt fs (wrapped _ _ h) in
        safe-wrap _ _ (
          safe-or_next _ _ (safe-compile_all n fs a) (
            safe-or_next _ _ (safe-compile_any n fs b)
              (safe-or_next _ _ (safe-compile_not n fs c) (safe-compile_leaf pr n fs d))))
    safe-compile_item key n i (arr xs) h = refl
    safe-compile_item key n i null h = refl
    safe-compile_item key n i (bool _) h = refl
    safe-compile_item key n i (number _) h = refl
    safe-compile_item key n i (str _) h = refl

    safe-compile_negated :
        (v : Value) → validate_negated fmt v ≡ none → safe (compile_negated pr v) ≡ true
    safe-compile_negated (obj fs) h =
        let (a, b, c, d) = Checked-validate_expression fmt fs (wrapped _ _ h) in
        safe-or_next _ _ (safe-compile_all 0 fs a) (
          safe-or_next _ _ (safe-compile_any 0 fs b)
            (safe-or_next _ _ (safe-compile_not 0 fs c) (safe-compile_leaf pr 0 fs d)))
    safe-compile_negated (arr xs) h = refl
    safe-compile_negated null h = refl
    safe-compile_negated (bool _) h = refl
    safe-compile_negated (number _) h = refl
    safe-compile_negated (str _) h = refl

pub safe-ne_panicked : (c : Compiled String) → safe c ≡ true → c ≢ panicked
unfolding safe
safe-ne_panicked (ok _) h e = cc
safe-ne_panicked (err _) h e = cc
safe-ne_panicked panicked h e = cc

-- A condition that the validator accepts, however deeply nested, compiles to a text or to an error, and never panics.
pub compile_total :
    (pr : Printer) (fmt : Format) (expr : Fields)
    → validate_expression fmt expr ≡ none
    → compile pr expr ≢ panicked
unfolding compile compile_expr validate_expression safe
compile_total pr fmt expr h e =
    let (a, b, c, d) = Checked-validate_expression fmt expr h in
    let fine = safe-or_next _ _ (safe-compile_all pr fmt 1 expr a) (
      safe-or_next _ _ (safe-compile_any pr fmt 1 expr b)
        (safe-or_next _ _ (safe-compile_not pr fmt 1 expr c) (safe-compile_leaf pr 1 expr d))) in
    safe-ne_panicked _ fine e
