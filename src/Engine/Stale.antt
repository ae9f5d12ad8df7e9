-- ===== src/Engine/Stale.antt =====
-- What the cache does when the policy depends on more than the key, or when it changes.
use mcp_proxy.Prelude.{Dict, String, arith, lt→ltb, none, refl, some, true, ℕ, ◌+◌, ◌<◌, ◌∙◌, ◌≡◌}
use mcp_proxy.Cache.{compute_key, get, invalidate, set_decision}
use mcp_proxy.Cache.Lookups.{get-invalidate, get-set_decision, get_entries}
use mcp_proxy.Decision.{
  EnvironmentContext, IdentityContext, PolicyDecision, PolicyInput, SessionContext,
}
use mcp_proxy.Engine.{
  Engine, Opa, evaluate, evaluate_policy, evaluated, load_policies, ok, set_policy_data,
}
use mcp_proxy.Engine.Coherence.{
  decision_in, evaluate_miss, evaluate_on, hit_eq, looked_up, miss_eq, settings-evaluate,
}
use mcp_proxy.Json.{Fields, Value}

-- The cache key reads the agent's ID and capabilities and the tool, and nothing else.
pub compute_key_ignores :
    (hash : String → String) (i : PolicyInput) (method intent : String) (arguments : Fields)
    (session : SessionContext) (identity : IdentityContext) (context : EnvironmentContext)
    → compute_key hash (record i {
      request = record i.request { method = method; intent = intent; arguments = arguments };
      session = session;
      identity = identity;
      context = context;
    })
      ≡ compute_key hash i
unfolding compute_key
compute_key_ignores hash i method intent arguments session identity context = refl

module _ {O : Opa} where
  load_policies_keeps :
      (modules : Dict String) (e : Engine O)
      → ((load_policies modules e).0.enabled ≡ e.enabled)
        × ((load_policies modules e).0.cache ≡ e.cache)
  unfolding load_policies
  load_policies_keeps modules e = ground arith

  set_policy_data_keeps :
      (values : Dict Value) (e : Engine O)
      → ((set_policy_data values e).0.enabled ≡ e.enabled)
        × ((set_policy_data values e).0.cache ≡ invalidate e.cache)
  unfolding set_policy_data
  set_policy_data_keeps values e = ground arith

  hit_answers :
      (j : PolicyInput) (later elapsed : ℕ) (d : PolicyDecision) (e : Engine O)
      → e.enabled ≡ true
      → (get (compute_key O.hash_string j) later e.cache).1 ≡ some (d, "L2")
      → decision_in (evaluate j later elapsed e).1 ≡ ok d
  hit_answers j later elapsed d e on hit =
      rw (evaluate_on j later elapsed e on) (hit_eq j later elapsed e d "L2" _ hit).1

  evaluate_caches :
      (i : PolicyInput) (now elapsed : ℕ) (d : PolicyDecision) (e : Engine O)
      → e.enabled ≡ true
      → (get (compute_key O.hash_string i) now e.cache).1 ≡ none
      → evaluate_policy O e.query i ≡ ok d
      → (evaluate i now elapsed e).0.cache
        ≡ set_decision
            (compute_key O.hash_string i)
            d
            now
            (get (compute_key O.hash_string i) now e.cache).0
  unfolding evaluated
  evaluate_caches i now elapsed d e on missed fresh = rw (
    evaluate_on i now elapsed e on,
    miss_eq i now elapsed e (looked_up i now elapsed e) missed,
    fresh,
  )

  -- `i` has been evaluated at `now` to `d`, as a miss; `j` has the same key and comes before the
  -- entry expires.
  pub record Repeated (i j : PolicyInput) (now later : ℕ) (d : PolicyDecision) (e : Engine O)
      : Type 0 where
    pub on : e.enabled ≡ true
    pub caching : e.cache.enabled ≡ true
    pub missed : (get (compute_key O.hash_string i) now e.cache).1 ≡ none
    pub fresh : evaluate_policy O e.query i ≡ ok d
    pub same_key : compute_key O.hash_string j ≡ compute_key O.hash_string i
    pub soon : later < now + e.cache.l2_ttl

  module _ (i j : PolicyInput) (now later elapsed elapsed' : ℕ) (d : PolicyDecision) (e : Engine O)
      (rep : Repeated i j now later d e) where
    still_cached :
        (get (compute_key O.hash_string j) later (evaluate i now elapsed e).0.cache).1
        ≡ some (d, "L2")
    still_cached =
        let (_, ttl, _, caching) = get_entries (compute_key O.hash_string i) now e.cache in
        rw (rep.same_key, evaluate_caches i now elapsed d e rep.on rep.missed rep.fresh)
          (get-set_decision (compute_key O.hash_string i) d now later _ (caching ∙ rep.caching)
            ∙ rw (ttl, lt→ltb later (now + e.cache.l2_ttl) rep.soon))

    -- In an enabled engine with its cache on, after a miss that the policy decided as `d`, an input with the same cache key is answered `d` until the entry expires, whatever the policy says of that input.
    pub evaluate_stale :
        decision_in (evaluate j later elapsed' (evaluate i now elapsed e).0).1 ≡ ok d
    evaluate_stale =
        hit_answers j later elapsed' d (evaluate i now elapsed e).0
          ((settings-evaluate i now elapsed e).1 ∙ rep.on) still_cached

    -- In an enabled engine with its cache on, after a miss that the policy decided as `d`, an input with the same cache key is answered `d` until the entry expires, also when other policies have been loaded in between.
    pub evaluate-load_policies :
        (modules : Dict String)
        → decision_in
            (evaluate j later elapsed' (load_policies modules (evaluate i now elapsed e).0).0).1
          ≡ ok d
    evaluate-load_policies modules =
        hit_answers j later elapsed' d (load_policies modules (evaluate i now elapsed e).0).0
          ((load_policies_keeps modules _).0 ∙ (settings-evaluate i now elapsed e).1 ∙ rep.on)
          (rw (load_policies_keeps modules (evaluate i now elapsed e).0).1 still_cached)

  -- After new policy data an enabled engine's next answer is not from the cache: it is the policy's own, over the query in force after the call.
  pub evaluate-set_policy_data :
      (values : Dict Value) (i : PolicyInput) (now elapsed : ℕ) (e : Engine O)
      → e.enabled ≡ true
      → decision_in (evaluate i now elapsed (set_policy_data values e).0).1
        ≡ evaluate_policy O (set_policy_data values e).0.query i
  evaluate-set_policy_data values i now elapsed e on =
      let (still, emptied) = set_policy_data_keeps values e in
      evaluate_miss i now elapsed (set_policy_data values e).0 (still ∙ on)
        (rw emptied (get-invalidate (compute_key O.hash_string i) now e.cache))
