-- ===== src/Router.antt =====
-- internal/router/router.go: routing of one message, from its bytes to the reply and the audit.
-- Objects go back to the pools after the callbacks have returned.
pub mod Enforcement
pub mod Refusals
pub mod Tests
pub mod Auditing
pub mod Details
-- The token of `_meta`, if there is one.
use mcp_proxy.Prelude.{Bool, Option, String, false, if◌then◌else◌, none, some, true, ℕ, ◌==◌, ◌∷◌}
use mcp_proxy.Json.{Value}
use mcp_proxy.Prelude.Int.{ℤ}
use mcp_proxy.Protocol.{
  error_response, LogLevel, MetaParams, Request, RequestContext, ResourceReadParams, ToolCallParams,
  log_none, new_request_context_at,
}
use mcp_proxy.Parser.{
  Outcome, Codec, ParseError, Result, err, extract_meta, ok, parse, parse_resource_read,
  parse_tool_call, to_response,
}
use mcp_proxy.Session.{Session}
use mcp_proxy.Handlers.{
  Draws, Io, PolicyDecision, Reply, Router, audited, handle, marshal_reply, pure, ◌>>=◌, ◌>>◌,
}

unfoldable pub with_meta : Option MetaParams → RequestContext → RequestContext
with_meta none ctx = ctx
with_meta (some meta) ctx = record ctx { agent_facts_token = meta.agent_facts }

unfoldable pub tool_details : RequestContext → ToolCallParams → RequestContext
unfolding with_meta
tool_details ctx params =
    with_meta params.meta (record ctx { tool = params.name; arguments = params.arguments })

unfoldable pub resource_details : RequestContext → ResourceReadParams → RequestContext
unfolding with_meta
resource_details ctx params = with_meta params.meta (record ctx { resource_uri = params.uri })

unfoldable pub map_ok {ℓ κ} : {A : Type ℓ} {B : Type κ} → (A → B) → Result A → Result B
map_ok f (ok a) = ok (f a)
map_ok f (err e) = err e

unfoldable pub extract_request_details : Codec → Request → RequestContext → Result RequestContext
unfolding map_ok tool_details resource_details
extract_request_details codec req ctx =
    if req.method == "tools/call"
    then map_ok (tool_details ctx) (parse_tool_call codec req.params)
    else if req.method == "resources/read"
    then map_ok (resource_details ctx) (parse_resource_read codec req.params)
    else ok ctx

unfoldable pub is_logged : LogLevel → Bool
is_logged log_none = false
is_logged _ = true

module _ {W : Type 0} where
  unfoldable pub log_audit :
      (Session → RequestContext → Option PolicyDecision → Option String → ℕ → W → W)
      → Draws
      → Session
      → RequestContext
      → Option PolicyDecision
      → Option String
      → Io W (Unit {0})
  log_audit f draws sess ctx decision response s = (
    tt,
    record {
      world = f sess ctx decision response draws.latency s.world;
      trace = audited ctx decision response ∷ s.trace;
    },
  )

  -- The audit logger, if there is one and the method is logged.
  unfoldable pub audit_with :
      Option (Session → RequestContext → Option PolicyDecision → Option String → ℕ → W → W)
      → Draws
      → Session
      → RequestContext
      → Option PolicyDecision
      → Option String
      → Io W (Unit {0})
  unfolding log_audit is_logged
  audit_with none draws sess ctx decision response = pure tt
  audit_with (some f) draws sess ctx decision response =
      if is_logged ctx.config.log_level
      then log_audit f draws sess ctx decision response
      else pure tt

  unfoldable pub handle_and_audit :
      Router W → Draws → Session → RequestContext → String → Io W Reply
  unfolding audit_with
  handle_and_audit r draws sess ctx message = do
    outcome ← handle ctx.config.handler r draws sess ctx message
    audit_with r.audit_logger draws sess ctx outcome.1 outcome.0.response
    pure outcome.0

  unfoldable pub reject : Router W → ParseError → Option Value → Io W Reply
  unfolding marshal_reply
  reject r e id = pure (marshal_reply (r.codec.marshal (to_response e id)))

  unfoldable pub route_detailed :
      Router W → Draws → Session → String → Request → Result RequestContext → Io W Reply
  unfolding handle_and_audit reject with_meta
  route_detailed r draws sess message req (err e) = reject r e req.id
  route_detailed r draws sess message req (ok ctx) =
      handle_and_audit r draws sess (with_meta (extract_meta r.codec req.params) ctx) message

  unfoldable pub route_parsed : Router W → Draws → Session → String → Result Request → Io W Reply
  unfolding route_detailed
  route_parsed r draws sess message (err e) = reject r e none
  route_parsed r draws sess message (ok req) =
      route_detailed r draws sess message req
        (extract_request_details r.codec req (new_request_context_at draws.hex req draws.start))

  unfoldable pub route : Router W → Draws → Session → String → Io W Reply
  unfolding route_parsed
  route r draws sess message =
      route_parsed r draws sess message (parse r.codec draws.pooled message)

-- The request and its context, as far as they were made, and the error.
pub record Validated : Type 0 where
  pub request : Option Request
  pub context : Option RequestContext
  pub error : Option ParseError

unfoldable pub validated_details : Request → RequestContext → Result RequestContext → Validated
validated_details req ctx (err e) = record {
  request = some req;
  context = some ctx;
  error = some e;
}
validated_details req ctx (ok detailed) = record {
  request = some req;
  context = some detailed;
  error = none;
}

unfoldable pub validated_request : Codec → Draws → Result Request → Validated
unfolding validated_details extract_request_details
validated_request codec draws (err e) = record { request = none; context = none; error = some e }
validated_request codec draws (ok req) =
    let ctx = new_request_context_at draws.hex req draws.start in
    validated_details req ctx (extract_request_details codec req ctx)

unfoldable pub parse_and_validate : Codec → Draws → String → Validated
unfolding validated_request
parse_and_validate codec draws message =
    validated_request codec draws (parse codec draws.pooled message)

unfoldable pub build_error_response : Codec → Option Value → ℤ → String → Outcome String
unfolding error_response
build_error_response codec id code message = codec.marshal (error_response id code message)
