-- ===== src/Engine/Tests.antt =====
-- An engine over a policy that denies whatever it is asked, and the theorems at it.
use mcp_proxy.Prelude.{true, false, some, [], ◌∷◌, ◌≡◌, refl, lookup, List, Bool, map, arith}
use mcp_proxy.Json.{Fields, bool, field, end, obj, str, get_field}
use mcp_proxy.Decision.{PolicyDecision, PolicyInput, new_input, with_agent, with_request}
use mcp_proxy.Cache.{new_decision_cache, compute_key, get}
use mcp_proxy.Engine.{
  Opa, Engine, EngineConfig, ok, new_engine, evaluate, evaluate_policy, parse_decision,
}
use mcp_proxy.Engine.Coherence.{
  IsCoherent, DependsOnKey, Query, answers, answers_fresh, decision_in, new_engine-IsCoherent,
}
use mcp_proxy.Engine.Parse.{parse_decision-allow}
use mcp_proxy.Engine.Stale.{Repeated, evaluate_stale}

-- `{"allow": b}`
abbrev verdict : Bool → Fields
verdict b = field "allow" (bool b) end

-- A query is a fixed verdict: the policies compile to the one that denies.
abbrev opa : Opa
opa = record {
  Query = Bool;
  zero_query = true;
  prepare = λ modules values. some false;
  struct_to_map = λ input. some (obj end);
  eval = λ query document. some (obj (verdict query) ∷ []);
  hash_string = λ s. s;
}

abbrev engine_config : EngineConfig
engine_config = record {
  mode = "enforce";
  enabled = true;
  cache_config = record { enabled = true; ttl = 50; max_entries = 4 };
}

-- The query of a new engine allows.
abbrev engine : Engine opa
engine = new_engine {O = opa} engine_config

abbrev first_call : PolicyInput
first_call =
    with_request "tools/call" "read_file" (field "path" (str "/tmp/a") end)
      (with_agent "agent" "Agent" ("read" ∷ []) (new_input 5))

abbrev second_call : PolicyInput
second_call =
    with_request "tools/call" "read_file" (field "path" (str "/etc/passwd") end)
      (with_agent "agent" "Agent" ("read" ∷ []) (new_input 6))

abbrev allowing : PolicyDecision
allowing = record { allow = true; violations = []; matched_rule = ""; obligations = [] }

engine_on : engine.enabled ≡ true
unfolding new_engine
engine_on = refl

engine-DependsOnKey : DependsOnKey opa engine.query
unfolding evaluate_policy
engine-DependsOnKey i j e = refl

engine-IsCoherent : IsCoherent engine
engine-IsCoherent = new_engine-IsCoherent {O = opa} engine_config

abbrev requests : List Query
requests =
    record { input = first_call; now = 5; elapsed = 2 }
    ∷ record { input = second_call; now = 6; elapsed = 2 }
    ∷ []

answers_fresh_example :
    answers requests engine ≡ map (λ r. evaluate_policy opa engine.query r.input) requests
answers_fresh_example =
    answers_fresh requests engine engine_on engine-DependsOnKey engine-IsCoherent

parse_decision-allow_example :
    (fs : Fields) × (obj (verdict true) ≡ obj fs) × (get_field "allow" fs ≡ some (bool true))
unfolding parse_decision get_field
parse_decision-allow_example = parse_decision-allow (obj (verdict true)) allowing refl refl

engine-Repeated : Repeated first_call second_call 5 9 allowing engine
unfolding new_engine evaluate_policy get compute_key new_decision_cache lookup get_field new_input
    with_agent with_request
engine-Repeated = record {
  on = refl;
  caching = refl;
  missed = refl;
  fresh = refl;
  same_key = refl;
  soon = ground arith;
}

evaluate_stale_example :
    decision_in (evaluate second_call 9 3 (evaluate first_call 5 2 engine).0).1 ≡ ok allowing
evaluate_stale_example =
    evaluate_stale first_call second_call 5 9 2 3 allowing engine engine-Repeated
