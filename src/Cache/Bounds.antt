-- ===== src/Cache/Bounds.antt =====
-- The cache never holds more than `max_entries` entries.
use mcp_proxy.Prelude.Maps.{insert-Distinct, length-erase_le, length-erase_present}
use mcp_proxy.Prelude.{
  Bool-cases, Dict, Distinct, String, [], ap, arith, eq_refl, inl, inr, insert, leb, leb→le, length,
  lookup, refl, some, suc, ℕ, ◌+◌, ◌/◌, ◌<◌, ◌∷◌, ◌≡◌, ◌≤◌,
}
use mcp_proxy.Cache.{
  CacheConfig, DecisionCache, Entry, drop_some, evict, evict_oldest, make_room, new_decision_cache,
  set_decision, store, with_room,
}
use mcp_proxy.Cache.Entries.{
  Shrinks, Shrinks-drop_expired, Shrinks-drop_some, Shrinks-evict_oldest, Shrinks-with_room,
  set_decision-off, set_decision-on,
}
use mcp_proxy.Decision.{PolicyDecision}

pub record IsBounded (c : DecisionCache) : Type 0 where
  pub distinct : Distinct c.l2_cache
  pub positive : 0 < c.max_entries
  pub within : length c.l2_cache ≤ c.max_entries

pub new_decision_cache-IsBounded : (cfg : CacheConfig) → IsBounded (new_decision_cache cfg)
unfolding new_decision_cache
new_decision_cache-IsBounded cfg = record {
  distinct = tt;
  positive = ground arith;
  within = omega arith;
}

pub Shrinks-IsBounded : {c d : DecisionCache} → Shrinks c d → IsBounded c → IsBounded d
Shrinks-IsBounded {c} {d} s b = record {
  distinct = s.distinct b.distinct;
  positive = omega (arith, s.settings.1);
  within = omega (arith, s.settings.1);
}

shorter :
    (key : String) (w : Entry) (es : Dict Entry) (c : DecisionCache)
    → c.l2_cache ≡ (key, w) ∷ es
    → Distinct c.l2_cache
    → lookup key c.l2_cache ≡ some w
    → length (evict key c).l2_cache < suc (length es)
unfolding evict
shorter key w es c e d there =
    omega (arith, length-erase_present key w c.l2_cache d there, ap length e)

-- The first round of the loop takes an entry that is there.
drop_some-shorter :
    (to_remove : ℕ) (es : Dict Entry) (c : DecisionCache)
    → c.l2_cache ≡ es
    → Distinct c.l2_cache
    → 0 < length es
    → length (drop_some to_remove 0 es c).l2_cache < length es
unfolding drop_some lookup
drop_some-shorter to_remove [] c e d h = absurd (omega arith)
drop_some-shorter to_remove ((key, w) ∷ es) c e d h =
    let there : lookup key c.l2_cache ≡ some w = rw (e, lookup, eq_refl key) in
    let less : length (evict key c).l2_cache < suc (length es) = shorter key w es c e d there in
    elim (Bool-cases (leb to_remove 1)) [
      | inl t ↦ rw t less
      | inr t ↦ rw t (omega (arith, less, (Shrinks-drop_some to_remove 1 es (evict key c)).fewer))
    ]

make_room-fits : (c : DecisionCache) → IsBounded c → length (make_room c).l2_cache < c.max_entries
unfolding make_room
make_room-fits c b = elim (Bool-cases (leb c.max_entries (length c.l2_cache))) [
  | inl h ↦ rw h (
      omega (
        arith,
        drop_some-shorter (c.max_entries / 10) c.l2_cache c refl b.distinct
            (omega (arith, leb→le _ _ h, b.positive)),
        b.within,
      ))
  | inr h ↦ rw h (ground arith)
]

pub evict_oldest-fits :
    (now : ℕ) (c : DecisionCache)
    → IsBounded c
    → length (evict_oldest now c).l2_cache < c.max_entries
unfolding evict_oldest
evict_oldest-fits now c b =
    let s = Shrinks-drop_expired now c.l2_cache c in
    omega (arith, make_room-fits _ (Shrinks-IsBounded s b), s.settings.1)

with_room-fits :
    (now : ℕ) (c : DecisionCache)
    → IsBounded c
    → length (with_room now c).l2_cache < (with_room now c).max_entries
unfolding with_room
with_room-fits now c b = elim (Bool-cases (leb c.max_entries (length c.l2_cache))) [
  | inr room ↦ rw room (ground arith)
  | inl full ↦
      rw full (omega (arith, evict_oldest-fits now c b, (Shrinks-evict_oldest now c).settings.1))
]

store-IsBounded :
    (key : String) (d : PolicyDecision) (now : ℕ) (c : DecisionCache)
    → IsBounded c
    → length c.l2_cache < c.max_entries
    → IsBounded (store key d now c)
unfolding store insert
store-IsBounded key d now c b room = record {
  distinct =
      insert-Distinct key (record { decision = d; expires_at = now + c.l2_ttl }) c.l2_cache
        b.distinct;
  positive = b.positive;
  within = omega (arith, length-erase_le key c.l2_cache);
}

-- A cache whose entries have distinct keys and are at most `max_entries`, which is positive, is such a cache after a decision has been stored.
pub set_decision-IsBounded :
    (key : String) (d : PolicyDecision) (now : ℕ) (c : DecisionCache)
    → IsBounded c
    → IsBounded (set_decision key d now c)
set_decision-IsBounded key d now c b = elim (Bool-cases c.enabled) [
  | inr off ↦ rw (set_decision-off key d now c off) b
  | inl on ↦ rw (set_decision-on key d now c on) (
      store-IsBounded key d now (with_room now c) (Shrinks-IsBounded (Shrinks-with_room now c) b)
        (with_room-fits now c b))
]
