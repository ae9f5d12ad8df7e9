-- ===== src/Cache/Tests.antt =====
-- A cache with one entry, and the theorems at it.
use mathlib.Core.Bool.{false≢true}
use mcp_proxy.Prelude.{eq_iff, true, some, [], ◌≡◌, ◌≢◌, refl, Distinct, String}
use mcp_proxy.Decision.{PolicyDecision}
use mcp_proxy.Cache.{DecisionCache, CacheConfig, new_decision_cache, set_decision, get}
use mcp_proxy.Cache.Bounds.{IsBounded, new_decision_cache-IsBounded, set_decision-IsBounded}
use mcp_proxy.Cache.Lookups.{get-set_decision}

abbrev config : CacheConfig
config = record { enabled = true; ttl = 50; max_entries = 1 }

abbrev empty : DecisionCache
empty = new_decision_cache config

abbrev allowing : PolicyDecision
allowing = record { allow = true; violations = []; matched_rule = "r"; obligations = [] }

-- The decision for key `a`, made at time 10.
abbrev full : DecisionCache
full = set_decision "a" allowing 10 empty

full-IsBounded : IsBounded full
full-IsBounded = set_decision-IsBounded "a" allowing 10 empty (new_decision_cache-IsBounded config)

full-Distinct : Distinct full.l2_cache
full-Distinct = full-IsBounded.distinct

set_decision-IsBounded_example : IsBounded (set_decision "b" allowing 20 full)
set_decision-IsBounded_example = set_decision-IsBounded "b" allowing 20 full full-IsBounded

get-set_decision_example : (get "a" 59 full).1 ≡ some (allowing, "L2")
unfolding new_decision_cache
get-set_decision_example = get-set_decision "a" allowing 10 59 empty refl

empty_on : empty.enabled ≡ true
unfolding new_decision_cache
empty_on = refl

full_hit : (get "a" 59 full).1 ≡ some (allowing, "L2")
unfolding new_decision_cache
full_hit = get-set_decision "a" allowing 10 59 empty empty_on

other : ◌≢◌ {A = String} "b" "a"
other e = false≢true ((eq_iff "b" "a").1 e)
