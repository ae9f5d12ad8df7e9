-- ===== src/Router/Tests.antt =====
-- A router over a policy that denies, fails or allows, and the theorems at messages sent to it.
use mcp_proxy.Prelude.{
  arith, lookup, ℕ, String, Option, some, none, [], ◌∷◌, ◌≡◌, ◌≢◌, refl, true, false, ◌+◌, ◌⊎◌, ◌↔◌,
}
use mcp_proxy.Json.{number, end}
use mcp_proxy.Protocol.{Request, RequestContext, new_request_context_at, full_enforce, config_for}
use mcp_proxy.Parser.{
  parse_tool_call, err, ok, Codec, Outcome, done, failed, parse, extract_meta, ParseError,
}
use mcp_proxy.Session.{Session, new_session}
use mcp_proxy.Handlers.{
  marshalled, Router, Draws, PolicyDecision, State, Reply, audited, evaluated, handle,
}
use mcp_proxy.Router.{
  handle_and_audit, audit_with, route, extract_request_details, with_meta, is_logged,
}
use mcp_proxy.Router.Enforcement.{Accepted, sends, sends-route, route_forwards}
use mcp_proxy.Router.Refusals.{route_refused}
use mcp_proxy.Router.Auditing.{refused_with, audits, audits-route, route_audited, route_total}
use mcp_proxy.Router.Details.{Accepted-details, config_for-full_enforce}

-- A codec that reads every message as a request for the method named by the message.
abbrev codec : Codec
codec = record {
  unmarshal_request = λ message pooled. done (record pooled {
    jsonrpc = "2.0";
    id = some (number "7");
    method = message;
    params = some "{}";
  });
  unmarshal_tool_call = λ _. done (record { name = "read_file"; arguments = end; meta = none });
  unmarshal_resource_read = λ _. done (record { uri = "file:///etc/passwd"; meta = none });
  unmarshal_object = λ _. done [];
  unmarshal_meta = λ _. failed "no object";
  marshal = λ _. done "answer";
}

abbrev denial : PolicyDecision
denial = record {
  allow = false;
  violations = "capability_missing" ∷ [];
  matched_rule = "default";
  policy_mode = "enforce";
}

-- The world counts the calls.
abbrev policy : Outcome PolicyDecision → Session → RequestContext → ℕ → Outcome PolicyDecision × ℕ
policy answer sess ctx n = (answer, n + 1)

abbrev sender : String → ℕ → Reply × ℕ
sender message n = (record { response = some "result"; error = none }, n + 10)

abbrev logger : Session → RequestContext → Option PolicyDecision → Option String → ℕ → ℕ → ℕ
logger sess ctx decision response latency n = n + 100

abbrev router : Outcome PolicyDecision → Router ℕ
router answer = record {
  codec = codec;
  policy_evaluator = some (policy answer);
  upstream_sender = some sender;
  audit_logger = some logger;
}

abbrev draws : Draws
draws = record {
  pooled = record { jsonrpc = ""; id = none; method = ""; params = none };
  hex = "00ff";
  start = 5;
  latency = 3;
  timestamp = "2025-01-01T00:00:00Z";
}

abbrev client : Session
client = new_session "sess_1" 0

abbrev start : State ℕ
start = record { world = 0; trace = [] }

abbrev request_for : String → Request
request_for method = record {
  jsonrpc = "2.0";
  id = some (number "7");
  method = method;
  params = some "{}";
}

abbrev call_context : RequestContext
call_context = record (new_request_context_at "00ff" (request_for "tools/call") 5) {
  tool = "read_file";
}

abbrev list_context : RequestContext
list_context = new_request_context_at "00ff" (request_for "tools/list") 5

call-Accepted : Accepted codec draws "tools/call" call_context
unfolding parse extract_request_details new_request_context_at extract_meta with_meta
    parse_tool_call lookup
call-Accepted = record {
  req = request_for "tools/call";
  detailed = call_context;
  parsed = refl;
  details = refl;
  context = refl;
}

list-Accepted : Accepted codec draws "tools/list" list_context
unfolding parse extract_request_details new_request_context_at extract_meta with_meta
    parse_tool_call lookup
list-Accepted = record {
  req = request_for "tools/list";
  detailed = list_context;
  parsed = refl;
  details = refl;
  context = refl;
}

call_enforced : call_context.config.handler ≡ full_enforce
unfolding new_request_context_at config_for lookup
call_enforced = refl

sends-route_example :
    sends (route (router (done denial)) draws client "tools/call" start).1.trace ≡ 0
sends-route_example =
    sends-route (router (done denial)) draws client "tools/call" call_context (policy (done denial))
      start call-Accepted call_enforced refl

list_other : list_context.config.handler ≢ full_enforce
unfolding new_request_context_at config_for lookup
list_other e = ground arith

route_forwards_example :
    sends (route (router (done denial)) draws client "tools/list" start).1.trace ≡ 1
route_forwards_example =
    route_forwards (router (done denial)) draws client "tools/list" list_context start list-Accepted
      list_other

route_refused_example : route (router (done denial)) draws client "tools/call" start ≡ (
  record { response = some "answer"; error = none },
  record {
    world = 101;
    trace = audited call_context (some denial) (some "answer") ∷ evaluated call_context ∷ [];
  },
)
unfolding audit_with marshalled new_request_context_at config_for lookup
route_refused_example =
    route_refused (router (done denial)) draws client "tools/call" call_context
      (policy (done denial)) start call-Accepted call_enforced refl refl

audits-route_example :
    audits (route (router (done denial)) draws client "tools/call" start).1.trace ≡ 1
unfolding is_logged new_request_context_at config_for lookup
audits-route_example =
    audits-route (router (done denial)) draws client "tools/call" call_context start call-Accepted

call_logged : is_logged call_context.config.log_level ≡ true
unfolding is_logged new_request_context_at config_for lookup
call_logged = refl

route_audited_example :
    (route (router (done denial)) draws client "tools/call" start).1.trace
    ≡ audited call_context
        (handle call_context.config.handler
          (router (done denial))
          draws
          client
          call_context
          "tools/call"
          start).0.1
        (route (router (done denial)) draws client "tools/call" start).0.response
      ∷ (handle call_context.config.handler
          (router (done denial))
          draws
          client
          call_context
          "tools/call"
          start).1.trace
route_audited_example =
    route_audited (router (done denial)) draws client "tools/call" call_context logger start
      call-Accepted refl call_logged

route_total_example :
    ((ctx : RequestContext) × Accepted codec draws "" ctx
      × (route (router (done denial)) draws client "" start
          ≡ handle_and_audit (router (done denial)) draws client ctx "" start))
    ⊎ ((e : ParseError) × (parse codec draws.pooled "" ≡ err e)
        × (route (router (done denial)) draws client "" start
            ≡ (refused_with (router (done denial)) none e, start)))
    ⊎ ((e : ParseError) × (req : Request) × (parse codec draws.pooled "" ≡ ok req)
        × (extract_request_details codec req (new_request_context_at draws.hex req draws.start)
            ≡ err e)
        × (route (router (done denial)) draws client "" start
            ≡ (refused_with (router (done denial)) req.id e, start)))
route_total_example = route_total (router (done denial)) draws client "" start

Accepted-details_example :
    (call_context.config ≡ config_for call_context.method)
    × ((call_context.method ≡ "tools/call" → call_context.tool ≢ "")
        × (call_context.method ≡ "resources/read" → call_context.resource_uri ≢ ""))
Accepted-details_example = Accepted-details codec draws "tools/call" call_context call-Accepted

abbrev subscribe : String
subscribe = "resources/subscribe"

config_for-full_enforce_example : ((config_for subscribe).handler ≡ full_enforce) ↔ (
    (subscribe ≡ "tools/call")
    ⊎ (subscribe ≡ "resources/read")
    ⊎ (subscribe ≡ "resources/subscribe"))
config_for-full_enforce_example = config_for-full_enforce subscribe
