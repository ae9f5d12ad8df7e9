-- ===== src/Router/Auditing.antt =====
-- What the audit log is told of a routed message.
use mcp_proxy.Prelude.{
  Bool-cases, List, Option, String, [], ap, arith, if◌then◌else◌, inl, inr, none, refl, some, suc,
  sym, true, ℕ, ◌+◌, ◌==◌, ◌∙◌, ◌∷◌, ◌≡◌, ◌⊎◌,
}
use mcp_proxy.Json.{Value}
use mcp_proxy.Router.{
  audit_with, extract_request_details, handle_and_audit, is_logged, log_audit, reject, route,
  route_detailed, route_parsed, with_meta,
}
use mcp_proxy.Protocol.{
  error_response, error_with_data, no_data, HandlerType, Request, RequestContext, filter,
  full_enforce, new_request_context_at, passthrough,
}
use mcp_proxy.Parser.{
  Outcome, ParseError, Result, done, err, extract_meta, failed, ok, parse, to_response,
}
use mcp_proxy.Session.{Session}
use mcp_proxy.Handlers.{
  Reply, Draws, Event, PolicyDecision, Router, State, audited, decide, enforce_with,
  evaluate_policy, evaluated, forward, forward_enforced, handle, handle_enforce, handle_filter,
  handle_passthrough, marshal_reply, pure, sent,
}
use mcp_proxy.Router.Enforcement.{Accepted, one_if, route-Accepted}

-- How many entries the trace has for the audit log.
abbrev pub audits : List Event → ℕ
audits [] = 0
audits (audited _ _ _ ∷ t) = suc (audits t)
audits (evaluated _ ∷ t) = audits t
audits (sent _ ∷ t) = audits t

-- The bytes of a JSON-RPC error with the code and the text of the parse error.
abbrev pub refused_with : {W : Type 0} → Router W → Option Value → ParseError → Reply
refused_with r id e = marshal_reply (
    r.codec.marshal (record {
      jsonrpc = "2.0";
      id = id;
      result = none;
      error = some (record { code = e.code; message = e.message; error_data = no_data });
    }))

module _ {W : Type 0} (r : Router W) (draws : Draws) (sess : Session) (message : String) where
  audits-forward :
      (s : State W) → audits (forward r.upstream_sender message s).1.trace ≡ audits s.trace
  unfolding forward
  audits-forward s = ground arith

  audits-decide :
      (ctx : RequestContext) (outcome : Outcome PolicyDecision) (s : State W)
      → audits (decide r draws sess ctx message outcome s).1.trace ≡ audits s.trace
  unfolding decide forward_enforced
  audits-decide ctx (failed e) s = refl
  audits-decide ctx (done d) s = elim (Bool-cases d.allow) [
    | inl allowed ↦ rw (allowed, audits-forward s)
    | inr denied ↦ elim (Bool-cases (d.policy_mode == "enforce")) [
      | inl enforcing ↦ rw (denied, enforcing)
      | inr auditing ↦ rw (denied, auditing, audits-forward s)
    ]
  ]

  audits-enforce_with :
      (ctx : RequestContext)
      (e : Option (Session → RequestContext → W → Outcome PolicyDecision × W)) (s : State W)
      → audits (enforce_with e r draws sess ctx message s).1.trace ≡ audits s.trace
  unfolding enforce_with evaluate_policy forward_enforced
  audits-enforce_with ctx none s = audits-forward s
  audits-enforce_with ctx (some f) s =
      let (outcome, w) = f sess ctx s.world in
      audits-decide ctx outcome (record { world = w; trace = evaluated ctx ∷ s.trace })

  audits-handle :
      (ctx : RequestContext) (h : HandlerType) (s : State W)
      → audits (handle h r draws sess ctx message s).1.trace ≡ audits s.trace
  unfolding handle handle_enforce handle_filter handle_passthrough
  audits-handle ctx passthrough s = audits-forward s
  audits-handle ctx full_enforce s = audits-enforce_with ctx r.policy_evaluator s
  audits-handle ctx filter s = audits-forward s

  audits-audit_with :
      (ctx : RequestContext) (d : Option PolicyDecision) (response : Option String) (s : State W)
      → audits (audit_with r.audit_logger draws sess ctx d response s).1.trace
        ≡ audits s.trace + (if is_logged ctx.config.log_level then one_if r.audit_logger else 0)
  unfolding audit_with
  audits-audit_with ctx d response s = ground arith

  -- Whatever handler a valid message has, the audit log gets one entry for it if there is an audit logger and its method is logged, and none else.
  pub audits-route :
      (ctx : RequestContext) (s : State W)
      → Accepted r.codec draws message ctx
      → audits (route r draws sess message s).1.trace
        ≡ audits s.trace + (if is_logged ctx.config.log_level then one_if r.audit_logger else 0)
  unfolding handle_and_audit
  audits-route ctx s a =
      let (outcome, after) = handle ctx.config.handler r draws sess ctx message s in
      ap (λ o. audits o.1.trace) (route-Accepted r draws sess message ctx s a)
      ∙ audits-audit_with ctx outcome.1 outcome.0.response after
      ∙ ap (λ n. n + (if is_logged ctx.config.log_level then one_if r.audit_logger else 0))
          (audits-handle ctx ctx.config.handler s)

  audit_with_last :
      (ctx : RequestContext)
      (f : Session → RequestContext → Option PolicyDecision → Option String → ℕ → W → W)
      (d : Option PolicyDecision) (response : Option String) (s : State W)
      → r.audit_logger ≡ some f
      → is_logged ctx.config.log_level ≡ true
      → (audit_with r.audit_logger draws sess ctx d response s).1.trace
        ≡ audited ctx d response ∷ s.trace
  unfolding audit_with log_audit
  audit_with_last ctx f d response s logger logged =
      ap (λ l. (audit_with l draws sess ctx d response s).1.trace) logger
      ∙ ap (λ b. ((if b then log_audit f draws sess ctx d response else pure tt) s).1.trace) logged

  -- Where there is an audit logger, the last event in the routing of a valid message for a logged method is its audit, with the handler's decision and the very response that the client gets.
  pub route_audited :
      (ctx : RequestContext)
      (f : Session → RequestContext → Option PolicyDecision → Option String → ℕ → W → W)
      (s : State W)
      → Accepted r.codec draws message ctx
      → r.audit_logger ≡ some f
      → is_logged ctx.config.log_level ≡ true
      → (route r draws sess message s).1.trace
        ≡ audited ctx
            (handle ctx.config.handler r draws sess ctx message s).0.1
            (route r draws sess message s).0.response
          ∷ (handle ctx.config.handler r draws sess ctx message s).1.trace
  unfolding handle_and_audit
  route_audited ctx f s a logger logged =
      ap (λ o. o.1.trace) (route-Accepted r draws sess message ctx s a)
      ∙ audit_with_last ctx f _ _ _ logger logged
      ∙ ap
          (λ o.
            audited ctx (handle ctx.config.handler r draws sess ctx message s).0.1 o.0.response
            ∷ (handle ctx.config.handler r draws sess ctx message s).1.trace)
          (sym (route-Accepted r draws sess message ctx s a))

  parse_cases :
      {A : Type 0} (o : Result A) → ((a : A) × (o ≡ ok a)) ⊎ ((e : ParseError) × (o ≡ err e))
  parse_cases (ok a) = inl (a, refl)
  parse_cases (err e) = inr (e, refl)

  rejected_parse :
      (e : ParseError)
      → parse r.codec draws.pooled message ≡ err e
      → (s : State W) → route r draws sess message s ≡ (refused_with r none e, s)
  unfolding route route_parsed reject to_response error_response error_with_data
  rejected_parse e refused s = ap (λ p. route_parsed r draws sess message p s) refused

  rejected_details :
      (e : ParseError) (req : Request)
      → parse r.codec draws.pooled message ≡ ok req
      → extract_request_details r.codec req (new_request_context_at draws.hex req draws.start)
        ≡ err e
      → (s : State W) → route r draws sess message s ≡ (refused_with r req.id e, s)
  unfolding route route_parsed route_detailed reject to_response error_response error_with_data
  rejected_details e req parsed refused s =
      ap (λ p. route_parsed r draws sess message p s) parsed
      ∙ ap (λ d. route_detailed r draws sess message req d s) refused

  -- A message whose request does not parse is answered with the error that the parser gives, without an ID; one whose details do not parse, with the error of the details and the request's ID; in both cases nothing changes and nothing is called. Every other message is handled and audited, in a context with all its details.
  pub route_total :
      (s : State W)
      → ((ctx : RequestContext) × Accepted r.codec draws message ctx
          × (route r draws sess message s ≡ handle_and_audit r draws sess ctx message s))
        ⊎ ((e : ParseError) × (parse r.codec draws.pooled message ≡ err e)
            × (route r draws sess message s ≡ (refused_with r none e, s)))
        ⊎ ((e : ParseError) × (req : Request) × (parse r.codec draws.pooled message ≡ ok req)
            × (extract_request_details r.codec req
                  (new_request_context_at draws.hex req draws.start)
                ≡ err e)
            × (route r draws sess message s ≡ (refused_with r req.id e, s)))
  route_total s = elim (parse_cases (parse r.codec draws.pooled message)) [
    | inr (e, refused) ↦ inr (inl (e, refused, rejected_parse e refused s))
    | inl (req, parsed) ↦
        elim (parse_cases (
          extract_request_details r.codec req (new_request_context_at draws.hex req draws.start))) [
            | inr (e, refused) ↦
                inr (inr (e, req, parsed, refused, rejected_details e req parsed refused s))
            | inl (detailed, details) ↦
                let ctx = with_meta (extract_meta r.codec req.params) detailed in
                let accepted : Accepted r.codec draws message ctx = record {
                  req = req;
                  detailed = detailed;
                  parsed = parsed;
                  details = details;
                  context = refl;
                } in
                inl (ctx, accepted, route-Accepted r draws sess message ctx s accepted)
          ]
  ]
