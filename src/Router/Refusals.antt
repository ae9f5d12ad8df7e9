-- ===== src/Router/Refusals.antt =====
-- What an enforced message that the policy refuses, or on which the policy fails, is answered.
use mcp_proxy.Prelude.Int.{negsuc}
use mcp_proxy.Prelude.{
  List, [], arith, Option, String, ap, false, none, refl, some, true, ◌==◌, ◌∙◌, ◌∷◌, ◌≡◌,
}
use mcp_proxy.Router.{audit_with, handle_and_audit, route}
use mcp_proxy.Protocol.{
  error_response, error_with_data, no_data, policy_violation, RequestContext, Response,
  full_enforce, internal_error, policy_violation_response,
}
use mcp_proxy.Parser.{Outcome, done, failed}
use mcp_proxy.Session.{Session}
use mcp_proxy.Handlers.{
  Draws, PolicyDecision, Router, State, answer, decide, enforce_with, evaluate_policy, evaluated,
  handle, marshalled,
}
use mcp_proxy.Router.Enforcement.{permits, Accepted, handle-full_enforce, route-Accepted}

-- The state once the policy has been evaluated and nothing else was done.
abbrev pub after_evaluation :
    {W : Type 0}
    → (Session → RequestContext → W → Outcome PolicyDecision × W)
    → Session
    → RequestContext
    → State W
    → State W
after_evaluation f sess ctx s = record {
  world = (f sess ctx s.world).1;
  trace = evaluated ctx ∷ s.trace;
}

abbrev headline : List String → String
headline [] = "Policy violation"
headline (v ∷ _) = v

-- The JSON-RPC error for a message that the policy refuses, written out.
abbrev pub refusal : Draws → Session → RequestContext → Outcome PolicyDecision → Response
refusal draws sess ctx (failed e) = record {
  jsonrpc = "2.0";
  id = ctx.request.id;
  result = none;
  error =
      some (record {
        code = negsuc 32602;
        message = "Policy evaluation failed";
        error_data = no_data;
      });
}
refusal draws sess ctx (done d) = record {
  jsonrpc = "2.0";
  id = ctx.request.id;
  result = none;
  error = some (record {
    code = negsuc 32000;
    message = headline d.violations;
    error_data = policy_violation (record {
      request_id = ctx.request_id;
      agent_id = sess.agent_id;
      tool = ctx.tool;
      required_capability = "";
      agent_capabilities = sess.capabilities;
      violations = d.violations;
      policy_mode = d.policy_mode;
      timestamp = draws.timestamp;
    });
  });
}

abbrev pub decision_in : Outcome PolicyDecision → Option PolicyDecision
decision_in (failed e) = none
decision_in (done d) = some d

module _ {W : Type 0} (r : Router W) (draws : Draws) (sess : Session) (message : String) where
  enforce_after :
      (ctx : RequestContext) (f : Session → RequestContext → W → Outcome PolicyDecision × W)
      (outcome : Outcome PolicyDecision) (s : State W)
      → (f sess ctx s.world).0 ≡ outcome
      → enforce_with (some f) r draws sess ctx message s
        ≡ decide r draws sess ctx message outcome (after_evaluation f sess ctx s)
  unfolding enforce_with evaluate_policy
  enforce_after ctx f outcome s e =
      ap (λ o. decide r draws sess ctx message o (after_evaluation f sess ctx s)) e

  decide_denied :
      (ctx : RequestContext) (d : PolicyDecision) (s : State W)
      → d.allow ≡ false
      → (d.policy_mode == "enforce") ≡ true
      → decide r draws sess ctx message (done d) s ≡ (
        answer r
            (policy_violation_response ctx.request.id ctx sess.agent_id sess.capabilities
              d.violations d.policy_mode draws.timestamp)
            (some d),
        s,
      )
  unfolding decide
  decide_denied ctx d s denied enforcing = rw (denied, enforcing)

  decide_failed :
      (ctx : RequestContext) (e : String) (s : State W)
      → decide r draws sess ctx message (failed e) s
        ≡ (answer r (internal_error ctx.request.id "Policy evaluation failed") none, s)
  unfolding decide
  decide_failed ctx e s = refl

  finish :
      (ctx : RequestContext) (f : Session → RequestContext → W → Outcome PolicyDecision × W)
      (response : Response) (decision : Option PolicyDecision) (s after : State W)
      → Accepted r.codec draws message ctx
      → handle ctx.config.handler r draws sess ctx message s ≡ (answer r response decision, after)
      → route r draws sess message s ≡ (
        record { response = marshalled (r.codec.marshal response); error = none },
        (audit_with r.audit_logger draws sess ctx decision
            (marshalled (r.codec.marshal response))
            after).1,
      )
  unfolding handle_and_audit answer
  finish ctx f response decision s after a e =
      route-Accepted r draws sess message ctx s a
      ∙ ap (λ o. ((o.0.0, (audit_with r.audit_logger draws sess ctx o.0.1 o.0.0.response o.1).1))) e

  decide_refused :
      (ctx : RequestContext) (outcome : Outcome PolicyDecision) (s : State W)
      → permits outcome ≡ false
      → decide r draws sess ctx message outcome s
        ≡ (answer r (refusal draws sess ctx outcome) (decision_in outcome), s)
  unfolding policy_violation_response internal_error error_response error_with_data answer
  decide_refused ctx (failed e) s refused = decide_failed ctx e s
  decide_refused ctx (done d) s refused = decide_denied ctx d s (ground arith) (ground arith)

  -- A message for an enforced method that the policy denies in the mode `enforce`, or on which it fails, is answered with a JSON-RPC error that carries the message's ID: for a denial the code -32001, the first violation as its message, or "Policy violation" if there is none, and as its data all violations, the mode, the request's ID and tool and the agent with its capabilities; for a failure the code -32603 and no data. All that happens is the evaluation and, where there is an audit logger and the method is logged, the audit of the decision, if there is one, and of that very answer.
  pub route_refused :
      (ctx : RequestContext) (f : Session → RequestContext → W → Outcome PolicyDecision × W)
      (s : State W)
      → Accepted r.codec draws message ctx
      → ctx.config.handler ≡ full_enforce
      → r.policy_evaluator ≡ some f
      → permits (f sess ctx s.world).0 ≡ false
      → let outcome = (f sess ctx s.world).0 in
        let bytes = marshalled (r.codec.marshal (refusal draws sess ctx outcome)) in
        route r draws sess message s ≡ (
          record { response = bytes; error = none },
          (audit_with r.audit_logger draws sess ctx
              (decision_in outcome)
              bytes
              (after_evaluation f sess ctx s)).1,
        )
  route_refused ctx f s a enforced evaluator refused = finish ctx f _ _ s _ a (
      handle-full_enforce r draws sess message ctx f s enforced evaluator
      ∙ enforce_after ctx f _ s refl
      ∙ decide_refused ctx _ _ refused)
