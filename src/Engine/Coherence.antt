-- ===== src/Engine/Coherence.antt =====
-- The cache is transparent for policies that depend on nothing but the cache key.
use mcp_proxy.Prelude.{
  Bool, List, Option, Option-cases, String, [], ap, arith, if◌then◌else◌, inl, inr, lookup, map,
  none, not, refl, some, sym, true, ℕ, ◌∙◌, ◌∷◌, ◌≡◌,
}
use mcp_proxy.Engine.{
  Engine, EngineConfig, Opa, Result, after_lookup, err, evaluate, evaluate_policy, evaluated,
  new_engine, ok,
}
use mcp_proxy.Decision.{EvaluationResult, PolicyDecision, PolicyInput}
use mcp_proxy.Cache.{DecisionCache, Entry, compute_key, get, new_decision_cache}
use mcp_proxy.Cache.Lookups.{get_entries, get_hit, set_decision_entries}

-- The decision in a result.
abbrev pub decision_in : Result EvaluationResult → Result PolicyDecision
decision_in (ok r) = ok r.decision
decision_in (err x) = err x

-- One request: the input, the time, and how long it takes.
pub record Query : Type 0 where
  pub input : PolicyInput
  pub now : ℕ
  pub elapsed : ℕ

-- The policy answers alike for inputs with the same cache key.
abbrev pub DependsOnKey : (O : Opa) → O.Query → Type 0
DependsOnKey O q =
    (i j : PolicyInput)
    → compute_key O.hash_string i ≡ compute_key O.hash_string j
    → evaluate_policy O q i ≡ evaluate_policy O q j

if_not-true {ℓ} : {A : Type ℓ} {b : Bool} → b ≡ true → (x y : A) → (if not b then x else y) ≡ y
if_not-true e x y = rw e

module _ {O : Opa} where
  -- Every entry holds what the policy answers for the inputs of its key.
  pub record IsCoherent (e : Engine O) : Type 0 where
    pub entries :
        (i : PolicyInput) (x : Entry)
        → lookup (compute_key O.hash_string i) e.cache.l2_cache ≡ some x
        → evaluate_policy O e.query i ≡ ok x.decision

  pub new_engine-IsCoherent : (cfg : EngineConfig) → IsCoherent (new_engine {O = O} cfg)
  unfolding new_engine new_decision_cache lookup
  new_engine-IsCoherent cfg = record { entries = λ i x h. cc }

  decision-evaluated :
      (input : PolicyInput) (now elapsed : ℕ) (e : Engine O) (r : Result PolicyDecision)
      → decision_in (evaluated input now elapsed e r).1 ≡ r
  unfolding evaluated
  decision-evaluated input now elapsed e (ok d) = refl
  decision-evaluated input now elapsed e (err x) = refl

  evaluated-IsCoherent :
      (input : PolicyInput) (now elapsed : ℕ) (e : Engine O) (r : Result PolicyDecision)
      → evaluate_policy O e.query input ≡ r
      → DependsOnKey O e.query
      → IsCoherent e
      → IsCoherent (evaluated input now elapsed e r).0
  unfolding evaluated
  evaluated-IsCoherent input now elapsed e (err x) here key coherent = record {
    entries = coherent.entries;
  }
  evaluated-IsCoherent input now elapsed e (ok d) here key coherent = record {
    entries = λ i x h.
        elim (set_decision_entries (compute_key O.hash_string input) (compute_key O.hash_string i) d
          now e.cache x h) [
            | inl (same, q) ↦ key i input (sym same) ∙ here ∙ ap ok (sym q)
            | inr old ↦ coherent.entries i x old
          ];
  }

  pub miss_eq :
      (input : PolicyInput) (now elapsed : ℕ) (e : Engine O)
      (found : DecisionCache × Option (PolicyDecision × String))
      → found.1 ≡ none
      → after_lookup input now elapsed e found
        ≡ evaluated input now elapsed
            (record e { cache = found.0 })
            (evaluate_policy O e.query input)
  unfolding after_lookup
  miss_eq input now elapsed e (c, none) h = refl
  miss_eq input now elapsed e (c, some a) h = cc

  pub hit_eq :
      (input : PolicyInput) (now elapsed : ℕ) (e : Engine O) (d : PolicyDecision) (tier : String)
      (found : DecisionCache × Option (PolicyDecision × String))
      → found.1 ≡ some (d, tier)
      → ((after_lookup input now elapsed e found).0 ≡ record e { cache = found.0 })
        × (decision_in (after_lookup input now elapsed e found).1 ≡ ok d)
  unfolding after_lookup
  hit_eq input now elapsed e d tier (c, none) h = cc
  hit_eq input now elapsed e d tier (c, some (x, y)) h = (refl, ground arith)

  cached-IsCoherent :
      (e : Engine O) (c : DecisionCache)
      → c.l2_cache ≡ e.cache.l2_cache
      → IsCoherent e
      → IsCoherent (record e { cache = c })
  cached-IsCoherent e c same coherent = record {
    entries = λ i x h. coherent.entries i x (rw same at h);
  }

  module _ (input : PolicyInput) (now elapsed : ℕ) (e : Engine O) where
    abbrev pub looked_up : DecisionCache × Option (PolicyDecision × String)
    looked_up = get (compute_key O.hash_string input) now e.cache

    pub settings-evaluate :
        ((evaluate input now elapsed e).0.query ≡ e.query)
        × ((evaluate input now elapsed e).0.enabled ≡ e.enabled)
    unfolding evaluate
    settings-evaluate = ground arith

    pub evaluate_on :
        e.enabled ≡ true → evaluate input now elapsed e ≡ after_lookup input now elapsed e looked_up
    unfolding evaluate
    evaluate_on on = if_not-true on _ _

    pub evaluate_miss :
        e.enabled ≡ true
        → looked_up.1 ≡ none
        → decision_in (evaluate input now elapsed e).1 ≡ evaluate_policy O e.query input
    evaluate_miss on missed =
        rw (evaluate_on on, miss_eq input now elapsed e looked_up missed)
          (decision-evaluated input now elapsed (record e { cache = looked_up.0 }) _)

    -- An enabled engine whose cache entries are all what the policy answers for their keys answers what the policy answers, from the cache or not.
    pub evaluate_fresh :
        e.enabled ≡ true
        → IsCoherent e
        → decision_in (evaluate input now elapsed e).1 ≡ evaluate_policy O e.query input
    evaluate_fresh on coherent = elim (Option-cases looked_up.1) [
      | inl missed ↦ evaluate_miss on missed
      | inr ((d, tier), hit) ↦
          let (x, at, same, _, _) =
            get_hit (compute_key O.hash_string input) tier now d e.cache hit in
          rw (evaluate_on on) (
            (hit_eq input now elapsed e d tier looked_up hit).1
            ∙ ap ok (sym same)
            ∙ sym (coherent.entries input x at))
    ]

    looked_up-IsCoherent : IsCoherent e → IsCoherent (record e { cache = looked_up.0 })
    looked_up-IsCoherent coherent =
        cached-IsCoherent e looked_up.0
          (get_entries (compute_key O.hash_string input) now e.cache).0 coherent

    -- If the policy depends on nothing but the cache key, an enabled engine's entries are still what the policy answers for their keys after an evaluation.
    pub evaluate-IsCoherent :
        e.enabled ≡ true
        → DependsOnKey O e.query
        → IsCoherent e
        → IsCoherent (evaluate input now elapsed e).0
    evaluate-IsCoherent on key coherent = elim (Option-cases looked_up.1) [
      | inl missed ↦
          rw (evaluate_on on, miss_eq input now elapsed e looked_up missed)
            (evaluated-IsCoherent input now elapsed (record e { cache = looked_up.0 }) _ refl key
              (looked_up-IsCoherent coherent))
      | inr ((d, tier), hit) ↦
          rw (evaluate_on on, (hit_eq input now elapsed e d tier looked_up hit).0)
            (looked_up-IsCoherent coherent)
    ]

  -- The answers to a sequence of requests.
  pub answers : List Query → Engine O → List (Result PolicyDecision)
  answers [] e = []
  answers (r ∷ rs) e =
      let (e', x) = evaluate r.input r.now r.elapsed e in decision_in x ∷ answers rs e'

  -- If the policy depends on nothing but the cache key, and the entries are what it answers for their keys, then an enabled engine answers every sequence of requests, at whatever times, as the policy alone would.
  pub answers_fresh :
      (rs : List Query) (e : Engine O)
      → e.enabled ≡ true
      → DependsOnKey O e.query
      → IsCoherent e
      → answers rs e ≡ map (λ r. evaluate_policy O e.query r.input) rs
  unfolding answers
  answers_fresh [] e on key coherent = refl
  answers_fresh (r ∷ rs) e on key coherent =
      let (same, still) = settings-evaluate r.input r.now r.elapsed e in
      let ih =
        answers_fresh rs (evaluate r.input r.now r.elapsed e).0 (still ∙ on) (rw same key)
          (evaluate-IsCoherent r.input r.now r.elapsed e on key coherent) in
      cc (evaluate_fresh r.input r.now r.elapsed e on coherent, rw same at ih)
