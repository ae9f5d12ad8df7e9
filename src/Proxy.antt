-- ===== src/Proxy.antt =====
-- cmd/proxy/main.go: the policy evaluator that the command gives to the router, the policy engine.
--
-- The world of the router's callbacks holds the engine, and whatever else the other callbacks use.
-- The texts of the engine's errors are the parameter `describe`; no code of the router reads them.
pub mod Policy
pub mod Tests
use mcp_proxy.Prelude.{String, [], if◌then◌else◌, ℕ, ◌==◌, not}
use mcp_proxy.Session.{Session}
use mcp_proxy.Protocol.{RequestContext}
use mcp_proxy.Decision.{
  EvaluationResult, PolicyInput, new_input, with_agent, with_environment, with_request,
  with_session,
}
use mcp_proxy.Engine.{Engine, EngineError, Opa, Result, err, evaluate, ok}
use mcp_proxy.Parser.{Outcome, done, failed}
use mcp_proxy.Handlers.{PolicyDecision}

-- What the evaluator reads of the configuration.
pub record Config : Type 0 where
  pub environment : String
  pub address : String
  pub agent_id : String
  pub agent_model : String
  pub agent_publisher : String

unfoldable pub with_model : Config → PolicyInput → PolicyInput
with_model cfg input =
    if not (cfg.agent_id == "")
    then record input {
      agent = record input.agent { model = cfg.agent_model; publisher = cfg.agent_publisher };
    }
    else input

unfoldable pub policy_input : Config → ℕ → Session → RequestContext → PolicyInput
unfolding with_model new_input with_agent with_request with_session with_environment
policy_input cfg now sess ctx = with_model cfg (
    with_environment sess.source_ip cfg.environment cfg.address (
      with_session sess.id sess.request_count sess.created_at (
        with_request ctx.method ctx.tool ctx.arguments
          (with_agent sess.agent_id sess.agent_id sess.capabilities (new_input now)))))

unfoldable pub router_decision :
    (EngineError → String) → Result EvaluationResult → Outcome PolicyDecision
router_decision describe (err e) = failed (describe e)
router_decision describe (ok r) = done (record {
  allow = r.decision.allow;
  violations = r.decision.violations;
  matched_rule = r.decision.matched_rule;
  policy_mode = r.policy_mode;
})

pub record World (O : Opa) (V : Type 0) : Type 0 where
  pub engine : Engine O
  pub outside : V

-- The policy evaluator, at a time `now`, with an evaluation that takes `elapsed`.
unfoldable pub policy_evaluator :
    {O : Opa} {V : Type 0}
    → Config
    → (EngineError → String)
    → ℕ
    → ℕ
    → Session
    → RequestContext
    → World O V
    → Outcome PolicyDecision × World O V
unfolding router_decision policy_input
policy_evaluator cfg describe now elapsed sess ctx w =
    let (engine', result) = evaluate (policy_input cfg now sess ctx) now elapsed w.engine in
    (router_decision describe result, record w { engine = engine' })
