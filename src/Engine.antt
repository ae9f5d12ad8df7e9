-- ===== src/Engine.antt =====
-- internal/policy/engine.go: the policy engine around OPA and the decision cache.
--
-- OPA (package rego), the JSON round trip of `structToMap` and SHA-256 are the parameters `Opa`.
-- A call that fails there is `none`. Durations are nanoseconds; `elapsed` is what `time.Since`
-- reads for one call.
pub mod Parse
pub mod Coherence
pub mod Stale
pub mod Tests
use mcp_proxy.Prelude.{
  Bool, Dict, List, Option, String, [], eqb, false, if◌then◌else◌, insert, none, not, some, true, ℕ,
  ◌*◌, ◌+◌, ◌/◌, ◌==◌, ◌∷◌,
}
use mcp_proxy.Json.{
  Fields, Items, Value, as_arr, as_bool, as_obj, as_str, cons, end, field, get_field, nil, obj, str,
}
use mcp_proxy.Decision.{EvaluationResult, PolicyDecision, PolicyInput, PolicyObligation}
use mcp_proxy.Cache.{
  CacheConfig, DecisionCache, compute_key, get, invalidate, new_decision_cache, set_decision,
}

pub record Opa : Type 1 where
  -- rego.PreparedEvalQuery, and its zero value
  pub Query : Type 0
  pub zero_query : Query
  -- PrepareForEval of the modules over the data
  pub prepare : Dict String → Dict Value → Option Query
  -- the input document, by json.Marshal and json.Unmarshal
  pub struct_to_map : PolicyInput → Option Value
  -- Eval: the values of the result set's first expressions
  pub eval : Query → Value → Option (List Value)
  pub hash_string : String → String

pub data EngineError : Type 0 where
  compile_failed convert_failed evaluation_error unexpected_type : EngineError

pub data Result {ℓ} (A : Type ℓ) : Type ℓ where
  ok : A → Result A
  err : EngineError → Result A

infixl 5 ◌>>=◌
abbrev pub ◌>>=◌ {ℓ κ} : {A : Type ℓ} {B : Type κ} → Result A → (A → Result B) → Result B
ok a >>= f = f a
err e >>= f = err e

abbrev pub or_fail {ℓ} : {A : Type ℓ} → Option A → EngineError → Result A
or_fail none e = err e
or_fail (some a) e = ok a

-- parseDecision. A field that is missing or of another type keeps Go's zero value.
unfoldable pub strings_of : Items → List String
strings_of nil = []
strings_of (cons (str s) xs) = s ∷ strings_of xs
strings_of (cons _ xs) = strings_of xs

unfoldable pub params_of : Fields → Dict String
params_of end = []
params_of (field k (str s) fs) = insert k s (params_of fs)
params_of (field k _ fs) = params_of fs

unfoldable pub or_default {ℓ} : {A : Type ℓ} → Option A → A → A
or_default none d = d
or_default (some a) d = a

unfoldable pub obligation_of : Fields → PolicyObligation
unfolding params_of or_default
obligation_of fs = record {
  action = or_default (as_str (get_field "action" fs)) "";
  params = params_of (or_default (as_obj (get_field "params" fs)) end);
}

unfoldable pub obligations_of : Items → List PolicyObligation
unfolding obligation_of
obligations_of nil = []
obligations_of (cons (obj fs) xs) = obligation_of fs ∷ obligations_of xs
obligations_of (cons _ xs) = obligations_of xs

unfoldable pub decision_of : Fields → PolicyDecision
unfolding strings_of obligations_of or_default
decision_of fs = record {
  allow = or_default (as_bool (get_field "allow" fs)) false;
  violations = strings_of (or_default (as_arr (get_field "violations" fs)) nil);
  matched_rule = or_default (as_str (get_field "matched_rule" fs)) "";
  obligations = obligations_of (or_default (as_arr (get_field "obligations" fs)) nil);
}

unfoldable pub parse_decision : Value → Result PolicyDecision
unfolding decision_of
parse_decision (obj fs) = ok (decision_of fs)
parse_decision _ = err unexpected_type

abbrev pub no_result : PolicyDecision
no_result = record {
  allow = false;
  violations = "No policy decision returned" ∷ [];
  matched_rule = "no_result";
  obligations = [];
}

abbrev pub policy_disabled : PolicyDecision
policy_disabled = record {
  allow = true;
  violations = [];
  matched_rule = "policy_disabled";
  obligations = [];
}

unfoldable pub first_decision : List Value → Result PolicyDecision
unfolding parse_decision
first_decision [] = ok no_result
first_decision (v ∷ _) = parse_decision v

-- updateAvgEvalTime: an exponential moving average with weight 10 of 100
unfoldable pub moving_average : ℕ → ℕ → ℕ
moving_average avg d = if eqb avg 0 then d else (avg * 90 + d * 10) / 100

module _ (O : Opa) where
  pub record Engine : Type 0 where
    pub query : O.Query
    pub modules : Dict String
    pub policy_data : Dict Value
    pub cache : DecisionCache
    pub mode : String
    pub enabled : Bool
    pub evaluations : ℕ
    pub eval_errors : ℕ
    pub avg_eval_time_ns : ℕ

pub record EngineConfig : Type 0 where
  pub mode : String
  pub enabled : Bool
  pub cache_config : CacheConfig

unfoldable pub evaluate_policy : (O : Opa) → O.Query → PolicyInput → Result PolicyDecision
unfolding first_decision
evaluate_policy O query input = do
  document ← or_fail (O.struct_to_map input) convert_failed
  results ← or_fail (O.eval query document) evaluation_error
  first_decision results

-- Audit mode allows whatever was evaluated.
unfoldable pub allowed : String → Result EvaluationResult → Result (Bool × EvaluationResult)
allowed mode (err x) = err x
allowed mode (ok r) = if mode == "audit" then ok (true, r) else ok (r.decision.allow, r)

unfoldable pub is_loaded : Dict String → Bool
is_loaded [] = false
is_loaded (_ ∷ _) = true

module _ {O : Opa} where
  unfoldable pub new_engine : EngineConfig → Engine O
  new_engine cfg = record {
    query = O.zero_query;
    modules = [];
    policy_data = [];
    cache = new_decision_cache cfg.cache_config;
    mode = if cfg.mode == "" then "enforce" else cfg.mode;
    enabled = cfg.enabled;
    evaluations = 0;
    eval_errors = 0;
    avg_eval_time_ns = 0;
  }

  -- The prepared query is replaced only if the policies compile.
  unfoldable pub compiled : Option O.Query → Engine O → Engine O × Result (Unit {0})
  compiled none e = (e, err compile_failed)
  compiled (some q) e = (record e { query = q }, ok tt)

  unfoldable pub compile_with_data : Engine O → Engine O × Result (Unit {0})
  unfolding compiled
  compile_with_data e = compiled (O.prepare e.modules e.policy_data) e

  unfoldable pub load_policies : Dict String → Engine O → Engine O × Result (Unit {0})
  unfolding compile_with_data
  load_policies modules e = compile_with_data (record e { modules = modules })

  unfoldable pub recompile_loaded : Dict String → Engine O → Engine O × Result (Unit {0})
  unfolding compile_with_data
  recompile_loaded [] e = (e, ok tt)
  recompile_loaded (_ ∷ _) e = compile_with_data e

  unfoldable pub set_policy_data : Dict Value → Engine O → Engine O × Result (Unit {0})
  unfolding recompile_loaded
  set_policy_data values e =
      recompile_loaded e.modules (record e { policy_data = values; cache = invalidate e.cache })

  unfoldable pub result_of : Engine O → PolicyInput → ℕ → PolicyDecision → EvaluationResult
  result_of e input elapsed decision = record {
    decision = decision;
    input = input;
    eval_time = elapsed;
    cache_hit = false;
    cache_tier = "";
    policy_mode = e.mode;
  }

  unfoldable pub evaluated :
      PolicyInput → ℕ → ℕ → Engine O → Result PolicyDecision → Engine O × Result EvaluationResult
  unfolding result_of
  evaluated input now elapsed e (err x) = (record e { eval_errors = e.eval_errors + 1 }, err x)
  evaluated input now elapsed e (ok decision) = (
    record e {
      evaluations = e.evaluations + 1;
      avg_eval_time_ns = moving_average e.avg_eval_time_ns elapsed;
      cache = set_decision (compute_key O.hash_string input) decision now e.cache;
    },
    ok (result_of e input elapsed decision),
  )

  unfoldable pub after_lookup :
      PolicyInput
      → ℕ
      → ℕ
      → Engine O
      → DecisionCache × Option (PolicyDecision × String)
      → Engine O × Result EvaluationResult
  unfolding evaluated
  after_lookup input now elapsed e (c, none) =
      evaluated input now elapsed (record e { cache = c }) (evaluate_policy O e.query input)
  after_lookup input now elapsed e (c, some (decision, tier)) = (
    record e { cache = c },
    ok (record (result_of e input elapsed decision) { cache_hit = true; cache_tier = tier }),
  )

  unfoldable pub evaluate : PolicyInput → ℕ → ℕ → Engine O → Engine O × Result EvaluationResult
  unfolding after_lookup
  evaluate input now elapsed e =
      if not e.enabled
      then (e, ok (result_of e input elapsed policy_disabled))
      else after_lookup input now elapsed e (get (compute_key O.hash_string input) now e.cache)

  unfoldable pub is_allowed :
      PolicyInput → ℕ → ℕ → Engine O → Engine O × Result (Bool × EvaluationResult)
  unfolding allowed
  is_allowed input now elapsed e =
      let (e', r) = evaluate input now elapsed e in (e', allowed e.mode r)

  unfoldable pub is_ready : Engine O → Bool
  unfolding is_loaded
  is_ready e = if not e.enabled then true else is_loaded e.modules
