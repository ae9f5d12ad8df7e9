-- ===== src/Cache.antt =====
-- internal/policy/cache.go: the cache of policy decisions. `range` over the map visits the
-- entries in the order of the list, which Go leaves open; one clock reading serves one call.
pub mod Entries
pub mod Bounds
pub mod Lookups
pub mod Tests
use mcp_proxy.Prelude.{
  Bool, Dict, List, Option, String, [], eqb, erase, if◌then◌else◌, insert, leb, length, lookup, ltb,
  none, not, some, ℕ, ◌+◌, ◌/◌, ◌∷◌,
}
use Prim.Native.String.{compare as compare_text, slice, ◌++◌ as ◌++ˢ◌}
use Prim.Native.Nat.{Ordering}
use mcp_proxy.Decision.{PolicyDecision, PolicyInput}

pub record Entry : Type 0 where
  pub decision : PolicyDecision
  pub expires_at : ℕ

pub record DecisionCache : Type 0 where
  pub l2_cache : Dict Entry
  pub l2_ttl : ℕ
  pub max_entries : ℕ
  pub enabled : Bool
  pub l1_hits : ℕ
  pub l2_hits : ℕ
  pub misses : ℕ
  pub evicted : ℕ

pub record CacheConfig : Type 0 where
  pub enabled : Bool
  pub ttl : ℕ
  pub max_entries : ℕ

-- 5 * time.Minute
abbrev pub default_ttl : ℕ
default_ttl = 300000000000

unfoldable pub new_decision_cache : CacheConfig → DecisionCache
new_decision_cache cfg = record {
  l2_cache = [];
  l2_ttl = if eqb cfg.ttl 0 then default_ttl else cfg.ttl;
  max_entries = if eqb cfg.max_entries 0 then 10000 else cfg.max_entries;
  enabled = cfg.enabled;
  l1_hits = 0;
  l2_hits = 0;
  misses = 0;
  evicted = 0;
}

unfoldable pub miss : DecisionCache → DecisionCache × Option (PolicyDecision × String)
miss c = (record c { misses = c.misses + 1 }, none)

-- An entry counts until its expiry time.
unfoldable pub answer :
    ℕ → Option Entry → DecisionCache → DecisionCache × Option (PolicyDecision × String)
unfolding miss
answer now none c = miss c
answer now (some e) c =
    if ltb now e.expires_at
    then (record c { l2_hits = c.l2_hits + 1 }, some (e.decision, "L2"))
    else miss c

unfoldable pub get : String → ℕ → DecisionCache → DecisionCache × Option (PolicyDecision × String)
unfolding answer
get key now c = if not c.enabled then (c, none) else answer now (lookup key c.l2_cache) c

-- delete(c.l2Cache, key); c.evicted++
unfoldable pub evict : String → DecisionCache → DecisionCache
evict key c = record c { l2_cache = erase key c.l2_cache; evicted = c.evicted + 1 }

-- The loop that removes expired entries, over the entries that `range` visits.
unfoldable pub drop_expired : ℕ → Dict Entry → DecisionCache → DecisionCache
unfolding evict
drop_expired now [] c = c
drop_expired now ((key, e) ∷ es) c =
    drop_expired now es (if ltb e.expires_at now then evict key c else c)

-- The loop that removes entries until `to_remove` of them are gone.
unfoldable pub drop_some : ℕ → ℕ → Dict Entry → DecisionCache → DecisionCache
unfolding evict
drop_some to_remove removed [] c = c
drop_some to_remove removed ((key, e) ∷ es) c =
    let rest = drop_some to_remove (removed + 1) es (evict key c) in
    if leb to_remove (removed + 1) then evict key c else rest

unfoldable pub cleanup : ℕ → DecisionCache → DecisionCache
unfolding drop_expired
cleanup now c = drop_expired now c.l2_cache c

unfoldable pub make_room : DecisionCache → DecisionCache
unfolding drop_some
make_room c =
    if leb c.max_entries (length c.l2_cache)
    then drop_some (c.max_entries / 10) 0 c.l2_cache c
    else c

unfoldable pub evict_oldest : ℕ → DecisionCache → DecisionCache
unfolding drop_expired make_room
evict_oldest now c = make_room (drop_expired now c.l2_cache c)

unfoldable pub store : String → PolicyDecision → ℕ → DecisionCache → DecisionCache
store key decision now c = record c {
  l2_cache = insert key (record { decision = decision; expires_at = now + c.l2_ttl }) c.l2_cache;
}

-- Evict if at capacity.
unfoldable pub with_room : ℕ → DecisionCache → DecisionCache
with_room now c = if leb c.max_entries (length c.l2_cache) then evict_oldest now c else c

unfoldable pub set_decision : String → PolicyDecision → ℕ → DecisionCache → DecisionCache
unfolding store with_room
set_decision key decision now c =
    if not c.enabled then c else store key decision now (with_room now c)

unfoldable pub invalidate : DecisionCache → DecisionCache
invalidate c = if not c.enabled then c else record c { l2_cache = [] }

-- sort.Strings, which orders by bytes, as the order of code points does
unfoldable pub insert_sorted : String → List String → List String
insert_sorted s [] = s ∷ []
insert_sorted s (t ∷ ts) =
    let rest = insert_sorted s ts in
    elim (compare_text s t) [ Ordering.gt ↦ t ∷ rest | _ ↦ s ∷ t ∷ ts ]

unfoldable pub sort_strings : List String → List String
unfolding insert_sorted
sort_strings [] = []
sort_strings (s ∷ ss) = insert_sorted s (sort_strings ss)

-- strings.Join
unfoldable pub join : List String → String → String
join [] sep = ""
join (s ∷ []) sep = s
join (s ∷ t ∷ ss) sep = s ++ˢ sep ++ˢ join (t ∷ ss) sep

-- ComputeKey, given the hexadecimal SHA-256 of the standard library.
unfoldable pub compute_key : (String → String) → PolicyInput → String
compute_key hash_string input =
    input.agent.id
    ++ˢ ":"
    ++ˢ input.request.tool
    ++ˢ ":"
    ++ˢ slice (hash_string (join (sort_strings input.agent.capabilities) ",")) 0 8
