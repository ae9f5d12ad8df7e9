-- ===== src/Router/Enforcement.antt =====
-- An enforced message reaches the upstream server only with the policy's permission.
use mcp_proxy.Prelude.{
  refl, ◌≢◌, Bool, Bool-cases, List, Option, String, [], ap, arith, false, if◌then◌else◌, inl, inr,
  none, not, some, suc, ℕ, ◌+◌, ◌==◌, ◌||◌, ◌∙◌, ◌∷◌, ◌≡◌,
}
use mcp_proxy.Router.{
  audit_with, extract_request_details, handle_and_audit, route, route_detailed, route_parsed,
  with_meta,
}
use mcp_proxy.Protocol.{
  HandlerType, passthrough, full_enforce, filter, Request, RequestContext, full_enforce,
  new_request_context_at,
}
use mcp_proxy.Parser.{Codec, Outcome, done, extract_meta, failed, ok, parse}
use mcp_proxy.Session.{Session}
use mcp_proxy.Handlers.{
  handle_passthrough, handle_filter, Draws, Event, PolicyDecision, Router, State, audited, decide,
  enforce_with, evaluate_policy, evaluated, forward, forward_enforced, handle, handle_enforce, sent,
}

-- How often the trace shows a message sent upstream.
abbrev pub sends : List Event → ℕ
sends [] = 0
sends (sent _ ∷ t) = suc (sends t)
sends (evaluated _ ∷ t) = sends t
sends (audited _ _ _ ∷ t) = sends t

-- The message is a valid request, and `ctx` is its context with all details filled in.
pub record Accepted (codec : Codec) (draws : Draws) (message : String) (ctx : RequestContext)
    : Type 0 where
  pub req : Request
  pub detailed : RequestContext
  pub parsed : parse codec draws.pooled message ≡ ok req
  pub details :
      extract_request_details codec req (new_request_context_at draws.hex req draws.start)
      ≡ ok detailed
  pub context : with_meta (extract_meta codec req.params) detailed ≡ ctx

-- What the policy's answer comes to in the router: an error denies.
abbrev pub permits : Outcome PolicyDecision → Bool
permits (failed e) = false
permits (done d) = d.allow || not (d.policy_mode == "enforce")

abbrev pub one_if {ℓ} : {A : Type ℓ} → Option A → ℕ
one_if none = 0
one_if (some a) = 1

module _ {W : Type 0} (r : Router W) (draws : Draws) (sess : Session) (message : String) where
  pub route-Accepted :
      (ctx : RequestContext) (s : State W)
      → Accepted r.codec draws message ctx
      → route r draws sess message s ≡ handle_and_audit r draws sess ctx message s
  unfolding route
  route-Accepted ctx s a = rw (a.parsed, route_parsed, a.details, route_detailed, a.context)

  sends-audit :
      (ctx : RequestContext) (d : Option PolicyDecision) (response : Option String) (s : State W)
      → sends (audit_with r.audit_logger draws sess ctx d response s).1.trace ≡ sends s.trace
  unfolding audit_with
  sends-audit ctx d response s = ground arith

  sends-forward :
      (s : State W)
      → sends (forward r.upstream_sender message s).1.trace
        ≡ sends s.trace + one_if r.upstream_sender
  unfolding forward
  sends-forward s = ground arith

  sends-decide :
      (ctx : RequestContext) (outcome : Outcome PolicyDecision) (s : State W)
      → sends (decide r draws sess ctx message outcome s).1.trace
        ≡ sends s.trace + (if permits outcome then one_if r.upstream_sender else 0)
  unfolding decide forward_enforced
  sends-decide ctx (failed e) s = omega arith
  sends-decide ctx (done d) s = elim (Bool-cases d.allow) [
    | inl allowed ↦ rw (allowed, sends-forward s)
    | inr denied ↦ elim (Bool-cases (d.policy_mode == "enforce")) [
      | inl enforcing ↦ rw (denied, enforcing) (omega arith)
      | inr auditing ↦ rw (denied, auditing, sends-forward s)
    ]
  ]

  sends-handle_and_audit :
      (ctx : RequestContext) (s : State W)
      → sends (handle_and_audit r draws sess ctx message s).1.trace
        ≡ sends (handle ctx.config.handler r draws sess ctx message s).1.trace
  unfolding handle_and_audit
  sends-handle_and_audit ctx s =
      let (outcome, after) = handle ctx.config.handler r draws sess ctx message s in
      sends-audit ctx outcome.1 outcome.0.response after

  sends-enforce_with :
      (ctx : RequestContext) (f : Session → RequestContext → W → Outcome PolicyDecision × W)
      (s : State W)
      → sends (enforce_with (some f) r draws sess ctx message s).1.trace
        ≡ sends s.trace + (if permits (f sess ctx s.world).0 then one_if r.upstream_sender else 0)
  unfolding enforce_with evaluate_policy
  sends-enforce_with ctx f s =
      let (outcome, w) = f sess ctx s.world in
      sends-decide ctx outcome (record { world = w; trace = evaluated ctx ∷ s.trace })

  pub handle-full_enforce :
      (ctx : RequestContext) (f : Session → RequestContext → W → Outcome PolicyDecision × W)
      (s : State W)
      → ctx.config.handler ≡ full_enforce
      → r.policy_evaluator ≡ some f
      → handle ctx.config.handler r draws sess ctx message s
        ≡ enforce_with (some f) r draws sess ctx message s
  unfolding handle handle_enforce
  handle-full_enforce ctx f s enforced evaluator =
      ap (λ h. handle h r draws sess ctx message s) enforced
      ∙ ap (λ e. enforce_with e r draws sess ctx message s) evaluator

  sends-handle_other :
      (ctx : RequestContext) (h : HandlerType) (s : State W)
      → h ≢ full_enforce
      → sends (handle h r draws sess ctx message s).1.trace
        ≡ sends s.trace + one_if r.upstream_sender
  unfolding handle handle_passthrough handle_filter
  sends-handle_other ctx passthrough s other = sends-forward s
  sends-handle_other ctx full_enforce s other = absurd (other refl)
  sends-handle_other ctx filter s other = sends-forward s

  -- Where there is a policy evaluator, a valid message for an enforced method goes upstream, once if there is a sender, if the evaluator allows it or answers with another mode than `enforce`, and not at all if it denies it in that mode or fails.
  pub sends-route :
      (ctx : RequestContext) (f : Session → RequestContext → W → Outcome PolicyDecision × W)
      (s : State W)
      → Accepted r.codec draws message ctx
      → ctx.config.handler ≡ full_enforce
      → r.policy_evaluator ≡ some f
      → sends (route r draws sess message s).1.trace
        ≡ sends s.trace + (if permits (f sess ctx s.world).0 then one_if r.upstream_sender else 0)
  sends-route ctx f s a enforced evaluator =
      ap (λ o. sends o.1.trace) (route-Accepted ctx s a)
      ∙ sends-handle_and_audit ctx s
      ∙ ap (λ o. sends o.1.trace) (handle-full_enforce ctx f s enforced evaluator)
      ∙ sends-enforce_with ctx f s

  -- A valid message for a method that is not enforced goes upstream, once if there is a sender, whatever the policy evaluator would answer.
  pub route_forwards :
      (ctx : RequestContext) (s : State W)
      → Accepted r.codec draws message ctx
      → ctx.config.handler ≢ full_enforce
      → sends (route r draws sess message s).1.trace ≡ sends s.trace + one_if r.upstream_sender
  route_forwards ctx s a other =
      ap (λ o. sends o.1.trace) (route-Accepted ctx s a)
      ∙ sends-handle_and_audit ctx s
      ∙ sends-handle_other ctx ctx.config.handler s other
