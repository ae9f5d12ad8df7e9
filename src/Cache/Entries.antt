-- ===== src/Cache/Entries.antt =====
-- Eviction only takes entries away, and leaves the settings of the cache alone.
use mcp_proxy.Prelude.Maps.{erase-Distinct, length-erase_le, lookup-erase}
use mcp_proxy.Prelude.{
  Bool-cases, Dict, Distinct, String, [], arith, false, inl, inr, leb, length, lookup, ltb, none,
  refl, true, ℕ, ◌+◌, ◌/◌, ◌∷◌, ◌≡◌, ◌≤◌, ◌⊎◌,
}
use mcp_proxy.Cache.{
  DecisionCache, Entry, cleanup, drop_expired, drop_some, evict, evict_oldest, make_room,
  set_decision, store, with_room,
}
use mcp_proxy.Decision.{PolicyDecision}

-- `d` has no entry that `c` has not.
pub record Shrinks (c d : DecisionCache) : Type 0 where
  pub settings : (d.l2_ttl ≡ c.l2_ttl) × (d.max_entries ≡ c.max_entries) × (d.enabled ≡ c.enabled)
  pub distinct : Distinct c.l2_cache → Distinct d.l2_cache
  pub fewer : length d.l2_cache ≤ length c.l2_cache
  -- an entry is as it was, or gone
  pub entries :
      (k : String) → (lookup k d.l2_cache ≡ lookup k c.l2_cache) ⊎ (lookup k d.l2_cache ≡ none)

pub Shrinks-refl : (c : DecisionCache) → Shrinks c c
Shrinks-refl c = record {
  settings = (refl, refl, refl);
  distinct = λ h. h;
  fewer = omega arith;
  entries = λ k. inl refl;
}

pub Shrinks-trans : {a b c : DecisionCache} → Shrinks a b → Shrinks b c → Shrinks a c
Shrinks-trans {a} {b} {c} s t = record {
  settings = (cc, cc, cc);
  distinct = λ h. t.distinct (s.distinct h);
  fewer = omega arith;
  entries = λ k. ground (arith, s.entries k, t.entries k);
}

pub Shrinks-evict : (key : String) (c : DecisionCache) → Shrinks c (evict key c)
unfolding evict
Shrinks-evict key c = record {
  settings = (refl, refl, refl);
  distinct = erase-Distinct key c.l2_cache;
  fewer = length-erase_le key c.l2_cache;
  entries = λ k. ground (arith, lookup-erase key k c.l2_cache);
}

pub Shrinks-drop_expired :
    (now : ℕ) (es : Dict Entry) (c : DecisionCache) → Shrinks c (drop_expired now es c)
unfolding drop_expired
Shrinks-drop_expired now [] c = Shrinks-refl c
Shrinks-drop_expired now ((key, e) ∷ es) c = elim (Bool-cases (ltb e.expires_at now)) [
  | inl h ↦ rw h (Shrinks-trans (Shrinks-evict key c) (Shrinks-drop_expired now es (evict key c)))
  | inr h ↦ rw h (Shrinks-drop_expired now es c)
]

pub Shrinks-drop_some :
    (to_remove removed : ℕ) (es : Dict Entry) (c : DecisionCache)
    → Shrinks c (drop_some to_remove removed es c)
unfolding drop_some
Shrinks-drop_some to_remove removed [] c = Shrinks-refl c
Shrinks-drop_some to_remove removed ((key, e) ∷ es) c =
    elim (Bool-cases (leb to_remove (removed + 1))) [
      | inl h ↦ rw h (Shrinks-evict key c)
      | inr h ↦ rw h (
          Shrinks-trans (Shrinks-evict key c)
            (Shrinks-drop_some to_remove (removed + 1) es (evict key c)))
    ]

pub Shrinks-make_room : (c : DecisionCache) → Shrinks c (make_room c)
unfolding make_room
Shrinks-make_room c = elim (Bool-cases (leb c.max_entries (length c.l2_cache))) [
  | inl h ↦ rw h (Shrinks-drop_some (c.max_entries / 10) 0 c.l2_cache c)
  | inr h ↦ rw h (Shrinks-refl c)
]

pub Shrinks-evict_oldest : (now : ℕ) (c : DecisionCache) → Shrinks c (evict_oldest now c)
unfolding evict_oldest
Shrinks-evict_oldest now c =
    Shrinks-trans (Shrinks-drop_expired now c.l2_cache c)
      (Shrinks-make_room (drop_expired now c.l2_cache c))

pub Shrinks-cleanup : (now : ℕ) (c : DecisionCache) → Shrinks c (cleanup now c)
unfolding cleanup
Shrinks-cleanup now c = Shrinks-drop_expired now c.l2_cache c

pub Shrinks-with_room : (now : ℕ) (c : DecisionCache) → Shrinks c (with_room now c)
unfolding with_room
Shrinks-with_room now c = elim (Bool-cases (leb c.max_entries (length c.l2_cache))) [
  | inl full ↦ rw full (Shrinks-evict_oldest now c)
  | inr room ↦ rw room (Shrinks-refl c)
]

pub set_decision-on :
    (key : String) (d : PolicyDecision) (now : ℕ) (c : DecisionCache)
    → c.enabled ≡ true
    → set_decision key d now c ≡ store key d now (with_room now c)
unfolding set_decision
set_decision-on key d now c on = ground arith

pub set_decision-off :
    (key : String) (d : PolicyDecision) (now : ℕ) (c : DecisionCache)
    → c.enabled ≡ false
    → set_decision key d now c ≡ c
unfolding set_decision
set_decision-off key d now c off = ground arith
