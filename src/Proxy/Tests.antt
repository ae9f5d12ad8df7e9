-- ===== src/Proxy/Tests.antt =====
-- A proxy whose policy denies, and the theorem at a tool call.
use mcp_proxy.Prelude.{Bool, ℕ, String, some, none, [], ◌∷◌, ◌≡◌, refl, true, false, lookup, ◌+◌}
use mcp_proxy.Json.{get_field, bool, field, end, obj, number}
use mcp_proxy.Protocol.{RequestContext, new_request_context_at, full_enforce, config_for}
use mcp_proxy.Parser.{Codec, done, failed, parse, parse_tool_call, extract_meta}
use mcp_proxy.Session.{new_session}
use mcp_proxy.Handlers.{Router, Draws, State, Reply}
use mcp_proxy.Router.{route, extract_request_details, with_meta}
use mcp_proxy.Router.Enforcement.{Accepted, sends}
use mcp_proxy.Engine.{Opa, Engine, EngineConfig, new_engine, EngineError, evaluate_policy}
use mcp_proxy.Engine.Coherence.{new_engine-IsCoherent}
use mcp_proxy.Proxy.{Config, World, policy_evaluator}
use mcp_proxy.Proxy.Policy.{sends-route_policy}

abbrev opa : Opa
opa = record {
  Query = Bool;
  zero_query = false;
  prepare = λ modules values. some false;
  struct_to_map = λ input. some (obj end);
  eval = λ query document. some (obj (field "allow" (bool query) end) ∷ []);
  hash_string = λ s. s;
}

abbrev engine_config : EngineConfig
engine_config = record {
  mode = "enforce";
  enabled = true;
  cache_config = record { enabled = true; ttl = 50; max_entries = 4 };
}

abbrev engine : Engine opa
engine = new_engine {O = opa} engine_config

abbrev app_config : Config
app_config = record {
  environment = "test";
  address = "0.0.0.0";
  agent_id = "";
  agent_model = "";
  agent_publisher = "";
}

abbrev describe : EngineError → String
describe e = "policy error"

abbrev codec : Codec
codec = record {
  unmarshal_request = λ message pooled. done (record pooled {
    jsonrpc = "2.0";
    id = some (number "7");
    method = message;
    params = some "{}";
  });
  unmarshal_tool_call = λ _. done (record { name = "delete_file"; arguments = end; meta = none });
  unmarshal_resource_read = λ _. failed "no params";
  unmarshal_object = λ _. failed "no object";
  unmarshal_meta = λ _. failed "no object";
  marshal = λ _. done "answer";
}

-- The world outside the engine counts the messages sent.
abbrev sender : String → World opa ℕ → Reply × World opa ℕ
sender message w =
    (record { response = some "result"; error = none }, record w { outside = w.outside + 1 })

abbrev router : Router (World opa ℕ)
router = record {
  codec = codec;
  policy_evaluator = some (policy_evaluator app_config describe 5 2);
  upstream_sender = some sender;
  audit_logger = none;
}

abbrev draws : Draws
draws = record {
  pooled = record { jsonrpc = ""; id = none; method = ""; params = none };
  hex = "00ff";
  start = 5;
  latency = 3;
  timestamp = "2025-01-01T00:00:00Z";
}

abbrev start : State (World opa ℕ)
start = record { world = record { engine = engine; outside = 0 }; trace = [] }

abbrev call_context : RequestContext
call_context =
    record (new_request_context_at "00ff"
      (record {
        jsonrpc = "2.0";
        id = some (number "7");
        method = "tools/call";
        params = some "{}";
      })
      5) { tool = "delete_file" }

call-Accepted : Accepted codec draws "tools/call" call_context
unfolding parse extract_request_details new_request_context_at extract_meta with_meta
    parse_tool_call
call-Accepted = record {
  req = record {
    jsonrpc = "2.0";
    id = some (number "7");
    method = "tools/call";
    params = some "{}";
  };
  detailed = call_context;
  parsed = refl;
  details = refl;
  context = refl;
}

call_enforced : call_context.config.handler ≡ full_enforce
unfolding new_request_context_at config_for lookup
call_enforced = refl

engine_on : engine.enabled ≡ true
unfolding new_engine
engine_on = refl

engine_mode : engine.mode ≡ "enforce"
unfolding new_engine
engine_mode = refl

sends-route_policy_example :
    sends (route router draws (new_session "sess_1" 0) "tools/call" start).1.trace ≡ 0
unfolding evaluate_policy new_engine get_field
sends-route_policy_example =
    sends-route_policy router draws (new_session "sess_1" 0) "tools/call" call_context app_config
      describe 5 2 start call-Accepted call_enforced refl engine_on engine_mode
      (new_engine-IsCoherent {O = opa} engine_config)
