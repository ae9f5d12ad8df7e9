-- ===== src/Proxy/Policy.antt =====
-- The router and the policy engine together.
use mcp_proxy.Prelude.{
  subst, eq_iff, Bool, String, Option, some, none, true, false, if◌then◌else◌, ℕ, ◌≡◌, ◌+◌, refl,
  ap, sym, ◌∙◌, arith,
}
use mcp_proxy.Session.{Session}
use mcp_proxy.Protocol.{RequestContext, full_enforce}
use mcp_proxy.Decision.{EvaluationResult, PolicyInput}
use mcp_proxy.Decision.{PolicyDecision as EngineDecision}
use mcp_proxy.Engine.{
  Engine, EngineError, Opa, Result, err, evaluate, ok, after_lookup, evaluated, evaluate_policy,
}
use mcp_proxy.Engine.Coherence.{evaluate_on, looked_up, IsCoherent, decision_in, evaluate_fresh}
use mcp_proxy.Cache.{DecisionCache}
use mcp_proxy.Handlers.{Router, Draws, State}
use mcp_proxy.Router.{route}
use mcp_proxy.Router.Enforcement.{Accepted, sends, permits, one_if, sends-route}
use mcp_proxy.Proxy.{Config, World, policy_input, policy_evaluator, router_decision}

-- Whether the policy itself allows: an error does not.
abbrev pub allows : Result EngineDecision → Bool
allows (ok d) = d.allow
allows (err e) = false

abbrev HasMode : String → Result EvaluationResult → Type 0
HasMode mode (ok r) = r.policy_mode ≡ mode
HasMode mode (err e) = Unit {0}

module _ {O : Opa} where
  evaluated-HasMode :
      (input : PolicyInput) (now elapsed : ℕ) (e : Engine O) (r : Result EngineDecision)
      → HasMode e.mode (evaluated input now elapsed e r).1
  unfolding evaluated
  evaluated-HasMode input now elapsed e (ok d) = refl
  evaluated-HasMode input now elapsed e (err x) = tt

  after_lookup-HasMode :
      (input : PolicyInput) (now elapsed : ℕ) (e : Engine O)
      (found : DecisionCache × Option (EngineDecision × String))
      → HasMode e.mode (after_lookup input now elapsed e found).1
  unfolding after_lookup
  after_lookup-HasMode input now elapsed e (c, none) =
      evaluated-HasMode input now elapsed (record e { cache = c }) (evaluate_policy O e.query input)
  after_lookup-HasMode input now elapsed e (c, some (d, tier)) = refl

  evaluate-HasMode :
      (input : PolicyInput) (now elapsed : ℕ) (e : Engine O)
      → e.enabled ≡ true
      → HasMode e.mode (evaluate input now elapsed e).1
  evaluate-HasMode input now elapsed e on =
      subst (λ x. HasMode e.mode x.1) (sym (evaluate_on input now elapsed e on))
        (after_lookup-HasMode input now elapsed e (looked_up input now elapsed e))

permits-router_decision :
    (describe : EngineError → String) (r : Result EvaluationResult)
    → HasMode "enforce" r
    → permits (router_decision describe r) ≡ allows (decision_in r)
unfolding router_decision
permits-router_decision describe (err e) h = refl
permits-router_decision describe (ok r) h = ground (arith, eq_iff r.policy_mode "enforce")

module _ {O : Opa} {V : Type 0} where
  permits-policy_evaluator :
      (cfg : Config) (describe : EngineError → String) (now elapsed : ℕ) (sess : Session)
      (ctx : RequestContext) (w : World O V)
      → w.engine.enabled ≡ true
      → w.engine.mode ≡ "enforce"
      → IsCoherent w.engine
      → permits (policy_evaluator cfg describe now elapsed sess ctx w).0
        ≡ allows (evaluate_policy O w.engine.query (policy_input cfg now sess ctx))
  unfolding policy_evaluator
  permits-policy_evaluator cfg describe now elapsed sess ctx w on enforcing coherent =
      let input = policy_input cfg now sess ctx in
      permits-router_decision describe (evaluate input now elapsed w.engine).1 (
        subst (λ m. HasMode m (evaluate input now elapsed w.engine).1) enforcing
          (evaluate-HasMode input now elapsed w.engine on))
      ∙ ap allows (evaluate_fresh input now elapsed w.engine on coherent)

  -- In the proxy, with the engine enabled and in the mode `enforce`, and with cache entries that are all what the policy answers for their keys: a valid message for an enforced method goes upstream, once if there is a sender, if the policy itself allows the message's input, and not at all if it denies it or fails.
  pub sends-route_policy :
      (r : Router (World O V)) (draws : Draws) (sess : Session) (message : String)
      (ctx : RequestContext) (cfg : Config) (describe : EngineError → String) (now elapsed : ℕ)
      (s : State (World O V))
      → Accepted r.codec draws message ctx
      → ctx.config.handler ≡ full_enforce
      → r.policy_evaluator ≡ some (policy_evaluator cfg describe now elapsed)
      → s.world.engine.enabled ≡ true
      → s.world.engine.mode ≡ "enforce"
      → IsCoherent s.world.engine
      → sends (route r draws sess message s).1.trace
        ≡ sends s.trace
          + (if allows (evaluate_policy O s.world.engine.query (policy_input cfg now sess ctx))
              then one_if r.upstream_sender
              else 0)
  sends-route_policy r draws sess message ctx cfg describe now elapsed s a enforced evaluator on
        mode coherent =
      sends-route r draws sess message ctx (policy_evaluator cfg describe now elapsed) s a enforced
        evaluator
      ∙ ap (λ b. sends s.trace + (if b then one_if r.upstream_sender else 0))
          (permits-policy_evaluator cfg describe now elapsed sess ctx s.world on mode coherent)
