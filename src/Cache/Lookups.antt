-- ===== src/Cache/Lookups.antt =====
-- What `get` finds after the other operations of the cache.
use mcp_proxy.Prelude.Maps.{lookup-erase, lookup-insert}
use mcp_proxy.Prelude.{
  Bool-cases, Dict, Distinct, Option, Option-cases, String, [], arith, eq_iff, eq_refl,
  if◌then◌else◌, inl, inr, lookup, ltb, none, refl, some, true, ℕ, ◌+◌, ◌<◌, ◌==◌, ◌∙◌, ◌∷◌, ◌≡◌,
  ◌≢◌, ◌⊎◌,
}
use mcp_proxy.Cache.{
  DecisionCache, Entry, cleanup, drop_expired, evict, get, invalidate, set_decision, store,
  with_room,
}
use mcp_proxy.Cache.Entries.{Shrinks-with_room, set_decision-off, set_decision-on}
use mcp_proxy.Decision.{PolicyDecision}

-- A hit is the decision of an entry that is stored under the key and has not expired, and the cache is on.
pub get_hit :
    (key tier : String) (now : ℕ) (d : PolicyDecision) (c : DecisionCache)
    → (get key now c).1 ≡ some (d, tier)
    → (e : Entry) × (lookup key c.l2_cache ≡ some e)
      × (e.decision ≡ d)
      × (now < e.expires_at)
      × (c.enabled ≡ true)
unfolding get
get_hit key tier now d c h = elim (Option-cases (lookup key c.l2_cache)) [
  | inl e ↦ absurd (ground arith)
  | inr (e, at) ↦ (e, at, ground arith, ground arith, ground arith)
]

-- `get` counts a hit or a miss and changes nothing else.
pub get_entries :
    (key : String) (now : ℕ) (c : DecisionCache)
    → ((get key now c).0.l2_cache ≡ c.l2_cache)
      × ((get key now c).0.l2_ttl ≡ c.l2_ttl)
      × ((get key now c).0.max_entries ≡ c.max_entries)
      × ((get key now c).0.enabled ≡ c.enabled)
unfolding get
get_entries key now c = ground arith

abbrev entry_for : PolicyDecision → ℕ → DecisionCache → Entry
entry_for d now c = record { decision = d; expires_at = now + c.l2_ttl }

lookup-store :
    (key : String) (d : PolicyDecision) (now : ℕ) (c : DecisionCache)
    → lookup key (store key d now c).l2_cache ≡ some (entry_for d now c)
unfolding store
lookup-store key d now c =
    ground (arith, lookup-insert key key (entry_for d now c) c.l2_cache, eq_refl key)

lookup-store_other :
    (key j : String) (d : PolicyDecision) (now : ℕ) (c : DecisionCache)
    → key ≢ j
    → lookup j (store key d now c).l2_cache ≡ lookup j c.l2_cache
unfolding store
lookup-store_other key j d now c ne =
    ground (arith, lookup-insert key j (entry_for d now c) c.l2_cache, eq_iff key j)

-- Storing leaves the settings alone.
pub settings-set_decision :
    (key : String) (d : PolicyDecision) (now : ℕ) (c : DecisionCache)
    → ((set_decision key d now c).enabled ≡ c.enabled)
      × ((set_decision key d now c).l2_ttl ≡ c.l2_ttl)
unfolding set_decision store
settings-set_decision key d now c = ground (arith, (Shrinks-with_room now c).settings)

lookup-set_decision :
    (key : String) (d : PolicyDecision) (now : ℕ) (c : DecisionCache)
    → c.enabled ≡ true
    → lookup key (set_decision key d now c).l2_cache ≡ some (entry_for d now c)
lookup-set_decision key d now c on = ground (
  arith,
  set_decision-on key d now c on,
  lookup-store key d now (with_room now c),
  (Shrinks-with_room now c).settings,
)

-- With the cache on, a stored decision is found until the TTL is over, and not from then on.
pub get-set_decision :
    (key : String) (d : PolicyDecision) (now later : ℕ) (c : DecisionCache)
    → c.enabled ≡ true
    → (get key later (set_decision key d now c)).1
      ≡ (if ltb later (now + c.l2_ttl) then some (d, "L2") else none)
unfolding get
get-set_decision key d now later c on =
    ground (arith, lookup-set_decision key d now c on, settings-set_decision key d now c)

-- When a decision is stored, another key keeps its entry or loses it to eviction; it never gets a new one.
pub lookup-set_other :
    (key j : String) (d : PolicyDecision) (now : ℕ) (c : DecisionCache)
    → key ≢ j
    → (lookup j (set_decision key d now c).l2_cache ≡ lookup j c.l2_cache)
      ⊎ (lookup j (set_decision key d now c).l2_cache ≡ none)
lookup-set_other key j d now c ne = elim (Bool-cases c.enabled) [
  | inr off ↦ rw (set_decision-off key d now c off) (inl refl)
  | inl on ↦ ground (
    arith,
    set_decision-on key d now c on,
    lookup-store_other key j d now (with_room now c) ne,
    (Shrinks-with_room now c).entries j,
  )
]

-- What a lookup finds after storing is the stored decision, or was there before.
pub set_decision_entries :
    (key j : String) (d : PolicyDecision) (now : ℕ) (c : DecisionCache) (x : Entry)
    → lookup j (set_decision key d now c).l2_cache ≡ some x
    → (key ≡ j) × (x.decision ≡ d) ⊎ (lookup j c.l2_cache ≡ some x)
set_decision_entries key j d now c x h = elim (Bool-cases c.enabled) [
  | inr off ↦ inr (rw (set_decision-off key d now c off) at h)
  | inl on ↦ elim (Bool-cases (key == j)) [
    | inl same ↦
        let q : key ≡ j = (eq_iff key j).0 same in
        inl (q, ground (arith, lookup-set_decision key d now c on, q))
    | inr other ↦
        inr (ground (arith, lookup-set_other key j d now c (λ q. ground (arith, eq_iff key j))))
  ]
]

-- After `invalidate` every key misses.
pub get-invalidate :
    (key : String) (now : ℕ) (c : DecisionCache) → (get key now (invalidate c)).1 ≡ none
unfolding get invalidate lookup
get-invalidate key now c = ground arith

abbrev pub unexpired : ℕ → Option Entry → Option Entry
unexpired now none = none
unexpired now (some e) = if ltb e.expires_at now then none else some e

-- What is left of the entry `old` after a round over the entries `es`.
abbrev after_expiry : ℕ → Option Entry → Option Entry → Option Entry
after_expiry now none old = old
after_expiry now (some e) old = unexpired now (some e)

Pending : Dict Entry → DecisionCache → Type 0
Pending es c = (j : String) (e : Entry) → lookup j es ≡ some e → lookup j c.l2_cache ≡ some e

Pending-rest :
    (key : String) (e : Entry) (es : Dict Entry) (c : DecisionCache)
    → lookup key es ≡ none
    → Pending ((key, e) ∷ es) c
    → Pending es c × Pending es (evict key c)
unfolding Pending lookup evict
Pending-rest key e es c d p = (
  λ j w h. p j w (ground (arith, eq_iff key j)),
  λ j w h. ground (arith, p j w, lookup-erase key j c.l2_cache, eq_iff key j),
)

lookup-drop_expired :
    (now : ℕ) (es : Dict Entry) (k : String) (c : DecisionCache)
    → Distinct es
    → Pending es c
    → lookup k (drop_expired now es c).l2_cache
      ≡ after_expiry now (lookup k es) (lookup k c.l2_cache)
unfolding drop_expired lookup Pending evict
lookup-drop_expired now [] k c d p = refl
lookup-drop_expired now ((key, e) ∷ es) k c d p =
    let (kept, left) = Pending-rest key e es c d.0 p in
    elim (Bool-cases (ltb e.expires_at now)) [
      | inl old ↦
          rw (drop_expired, old)
            (lookup-drop_expired now es k (evict key c) d.1 left
              ∙ ground (arith, lookup-erase key k c.l2_cache, eq_iff key k))
      | inr fresh ↦
          rw (drop_expired, fresh)
            (lookup-drop_expired now es k c d.1 kept
              ∙ ground (arith, p key e (rw (eq_refl key)), eq_iff key k))
    ]

-- In a cache with distinct keys, `cleanup` removes the expired entries and no others.
pub lookup-cleanup_cache :
    (now : ℕ) (k : String) (c : DecisionCache)
    → Distinct c.l2_cache
    → lookup k (cleanup now c).l2_cache ≡ unexpired now (lookup k c.l2_cache)
unfolding cleanup Pending
lookup-cleanup_cache now k c d =
    lookup-drop_expired now c.l2_cache k c d (λ j e h. h) ∙ ground arith
