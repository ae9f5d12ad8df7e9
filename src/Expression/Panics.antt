-- ===== src/Expression/Panics.antt =====
-- A condition that has passed the validator compiles without a panic.
use mcp_proxy.Prelude.{
  Bool, Option, String, arith, false, if◌then◌else◌, none, refl, some, true, ℕ, ◌+◌, ◌==◌, ◌≡◌,
}
use Prim.Native.String.{◌++◌ as ◌++ˢ◌}
use mcp_proxy.Json.{
  Fields, Items, Value, arr, bool, cons, end, field, get_field, nil, null, number, obj, str,
}
use mcp_proxy.Validation.{check_field}
use mcp_proxy.Expression.Leaves.{
  compile_direct, compile_field, compile_field_equals, compile_field_in, compile_field_matches,
  compile_leaf, compile_operator, in_lines, match_line, match_lines, when_there, with_operator,
}
use mcp_proxy.Expression.Values.{
  Compiled, Printer, both, err, map_compiled, membership, ok, panicked, string_items,
  to_string_slice, wrap,
}

-- No panic.
unfoldable pub safe {ℓ} : {A : Type ℓ} → Compiled A → Bool
safe panicked = false
safe (ok _) = true
safe (err _) = true

pub safe-map_compiled :
    {A B : Type 0} (f : A → B) (c : Compiled A) → safe c ≡ true → safe (map_compiled f c) ≡ true
unfolding safe map_compiled
safe-map_compiled f c h = ground arith

pub safe-wrap : {A : Type 0} (t : String) (c : Compiled A) → safe c ≡ true → safe (wrap t c) ≡ true
unfolding safe wrap
safe-wrap t c h = ground arith

pub safe-both :
    {A B C : Type 0} (f : A → B → C) (c : Compiled A) (d : Compiled B)
    → safe c ≡ true
    → safe d ≡ true
    → safe (both f c d) ≡ true
unfolding safe both
safe-both f c d h k = ground arith

safe-if :
    (b : Bool) (c d : Compiled String)
    → safe c ≡ true
    → safe d ≡ true
    → safe (if b then c else d) ≡ true
safe-if true c d h k = h
safe-if false c d h k = k

module _ (pr : Printer) where
  safe-string_items : (i : ℕ) (xs : Items) → safe (string_items pr i xs) ≡ true
  unfolding safe string_items
  safe-string_items i nil = refl
  safe-string_items i (cons (str s) xs) = safe-map_compiled _ _ (safe-string_items (i + 1) xs)
  safe-string_items i (cons null xs) = refl
  safe-string_items i (cons (bool _) xs) = refl
  safe-string_items i (cons (number _) xs) = refl
  safe-string_items i (cons (obj _) xs) = refl
  safe-string_items i (cons (arr _) xs) = refl

  safe-membership : (start path : String) (v : Value) → safe (membership pr start path v) ≡ true
  unfolding membership to_string_slice safe map_compiled
  safe-membership start path (arr xs) = safe-map_compiled _ _ (safe-string_items 0 xs)
  safe-membership start path null = refl
  safe-membership start path (bool _) = refl
  safe-membership start path (number _) = refl
  safe-membership start path (obj _) = refl
  safe-membership start path (str _) = refl

  safe-compile_direct : (n : ℕ) (expr fs : Fields) → safe (compile_direct pr n expr fs) ≡ true
  unfolding safe compile_direct
  safe-compile_direct n expr end = refl
  safe-compile_direct n expr (field k v fs) = ground (arith, safe-compile_direct n expr fs)

  safe-in_lines : (n : ℕ) (fs : Fields) → safe (in_lines pr n fs) ≡ true
  unfolding safe in_lines
  safe-in_lines n end = refl
  safe-in_lines n (field k v fs) = safe-both _ _ _ (safe-membership _ _ v) (safe-in_lines n fs)

  safe-match_line : (n : ℕ) (path : String) (v : Value) → safe (match_line pr n path v) ≡ true
  unfolding safe match_line
  safe-match_line n path v = ground arith

  safe-match_lines : (n : ℕ) (fs : Fields) → safe (match_lines pr n fs) ≡ true
  unfolding safe match_lines
  safe-match_lines n end = refl
  safe-match_lines n (field k v fs) =
      safe-both _ _ _ (safe-match_line n k v) (safe-match_lines n fs)

  safe-compile_field_equals : (n : ℕ) (v : Value) → safe (compile_field_equals pr n v) ≡ true
  unfolding safe compile_field_equals
  safe-compile_field_equals n v = ground arith

  safe-compile_field_in : (n : ℕ) (v : Value) → safe (compile_field_in pr n v) ≡ true
  unfolding compile_field_in safe
  safe-compile_field_in n (obj fs) = safe-map_compiled _ _ (safe-in_lines n fs)
  safe-compile_field_in n null = refl
  safe-compile_field_in n (bool _) = refl
  safe-compile_field_in n (number _) = refl
  safe-compile_field_in n (arr _) = refl
  safe-compile_field_in n (str _) = refl

  safe-compile_field_matches : (n : ℕ) (v : Value) → safe (compile_field_matches pr n v) ≡ true
  unfolding compile_field_matches safe
  safe-compile_field_matches n (obj fs) = safe-map_compiled _ _ (safe-match_lines n fs)
  safe-compile_field_matches n null = refl
  safe-compile_field_matches n (bool _) = refl
  safe-compile_field_matches n (number _) = refl
  safe-compile_field_matches n (arr _) = refl
  safe-compile_field_matches n (str _) = refl

  safe-compile_operator :
      (start path op : String) (v : Value) → safe (compile_operator pr start path op v) ≡ true
  unfolding compile_operator safe
  safe-compile_operator start path op v = safe-if (op == "eq") _ _ refl (
      safe-if (op == "ne") _ _ refl (
        safe-if (op == "gt") _ _ refl (
          safe-if (op == "gte") _ _ refl (
            safe-if (op == "lt") _ _ refl (
              safe-if (op == "lte") _ _ refl (
                safe-if (op == "contains") _ _ refl (
                  safe-if (op == "startswith") _ _ refl (
                    safe-if (op == "endswith") _ _ refl (
                      safe-if (op == "matches") _ _ refl (
                        safe-if (op == "in") _ _ (safe-membership start path v) (
                          safe-if (op == "not_in") _ _ (safe-membership (start ++ˢ "not ") path v)
                            refl)))))))))))

  safe-with_operator :
      (n : ℕ) (path : String) (o : Option Value) (fs : Fields)
      → safe (with_operator pr n path o fs) ≡ true
  unfolding with_operator safe
  safe-with_operator n path (some (str op)) fs = safe-compile_operator _ _ op _
  safe-with_operator n path none fs = refl
  safe-with_operator n path (some null) fs = refl
  safe-with_operator n path (some (bool _)) fs = refl
  safe-with_operator n path (some (number _)) fs = refl
  safe-with_operator n path (some (obj _)) fs = refl
  safe-with_operator n path (some (arr _)) fs = refl

  safe-compile_field :
      (n : ℕ) (v : Value) (fs : Fields)
      → check_field (some v) fs ≡ none
      → safe (compile_field pr n v fs) ≡ true
  unfolding compile_field check_field
  safe-compile_field n (str path) fs h = safe-with_operator n path (get_field "op" fs) fs
  safe-compile_field n null fs h = cc
  safe-compile_field n (bool _) fs h = cc
  safe-compile_field n (number _) fs h = cc
  safe-compile_field n (obj _) fs h = cc
  safe-compile_field n (arr _) fs h = cc

  safe-when_there :
      (o : Option Value) (taken : Value → Compiled String) (next : Compiled String)
      → ((v : Value) → o ≡ some v → safe (taken v) ≡ true)
      → safe next ≡ true
      → safe (when_there o taken next) ≡ true
  unfolding when_there
  safe-when_there none taken next h k = k
  safe-when_there (some v) taken next h k = h v refl

  pub safe-compile_leaf :
      (n : ℕ) (fs : Fields)
      → check_field (get_field "field" fs) fs ≡ none
      → safe (compile_leaf pr n fs) ≡ true
  unfolding compile_leaf
  safe-compile_leaf n fs h =
      safe-when_there (get_field "tool_in" fs) _ _ (λ v e. safe-membership _ _ v)
        (safe-when_there (get_field "agent_in" fs) _ _ (λ v e. safe-membership _ _ v)
          (safe-when_there (get_field "field_equals" fs) _ _ (λ v e. safe-compile_field_equals n v)
            (safe-when_there (get_field "field_in" fs) _ _ (λ v e. safe-compile_field_in n v)
              (safe-when_there (get_field "field_matches" fs) _ _
                (λ v e. safe-compile_field_matches n v)
                (safe-when_there (get_field "field" fs) _ _
                  (λ v e. safe-compile_field n v fs (rw e at h)) (safe-compile_direct n fs fs))))))
