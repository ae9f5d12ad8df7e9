-- ===== src/Protocol.antt =====
-- internal/router/types.go and response.go: JSON-RPC requests and responses, the registry of MCP
-- methods, and the request context. An absent `id` or `params` is none.
use mcp_proxy.Prelude.Int.{negsuc, ℤ}
use mcp_proxy.Prelude.{Dict, List, Option, String, [], lookup, none, some, ℕ, ◌∷◌}
use Prim.Native.String.{◌++◌ as ◌++ˢ◌}
use mcp_proxy.Json.{Fields, Value, end}

abbrev pub code_parse_error : ℤ
code_parse_error = negsuc 32699

abbrev pub code_invalid_request : ℤ
code_invalid_request = negsuc 32599

abbrev pub code_method_not_found : ℤ
code_method_not_found = negsuc 32600

abbrev pub code_invalid_params : ℤ
code_invalid_params = negsuc 32601

abbrev pub code_internal_error : ℤ
code_internal_error = negsuc 32602

abbrev pub code_policy_violation : ℤ
code_policy_violation = negsuc 32000

abbrev pub code_identity_error : ℤ
code_identity_error = negsuc 32001

abbrev pub code_rate_limited : ℤ
code_rate_limited = negsuc 32002

abbrev pub code_upstream_error : ℤ
code_upstream_error = negsuc 32003

pub record Request : Type 0 where
  pub jsonrpc : String
  pub id : Option Value
  pub method : String
  pub params : Option String

pub record PolicyViolationData : Type 0 where
  pub request_id : String
  pub agent_id : String
  pub tool : String
  pub required_capability : String
  pub agent_capabilities : List String
  pub violations : List String
  pub policy_mode : String
  pub timestamp : String

-- What the `data` member of an error may hold.
pub data ErrorData : Type 0 where
  no_data : ErrorData
  policy_violation : PolicyViolationData → ErrorData
  identity : String → ErrorData
  rate : String → ℤ → ℤ → ErrorData

pub record ErrorObject : Type 0 where
  pub code : ℤ
  pub message : String
  pub error_data : ErrorData

pub record Response : Type 0 where
  pub jsonrpc : String
  pub id : Option Value
  pub result : Option Value
  pub error : Option ErrorObject

pub record MetaParams : Type 0 where
  pub agent_facts : String

pub record ToolCallParams : Type 0 where
  pub name : String
  pub arguments : Fields
  pub meta : Option MetaParams

pub record ResourceReadParams : Type 0 where
  pub uri : String
  pub meta : Option MetaParams

pub data HandlerType : Type 0 where
  passthrough full_enforce filter : HandlerType

pub data LogLevel : Type 0 where
  log_none log_metadata log_full : LogLevel

pub record MethodConfig : Type 0 where
  pub handler : HandlerType
  pub log_level : LogLevel
  pub description : String

abbrev pub method_config : HandlerType → LogLevel → String → MethodConfig
method_config handler log_level description = record {
  handler = handler;
  log_level = log_level;
  description = description;
}

unfoldable pub method_registry : Dict MethodConfig
method_registry =
    ("tools/call", method_config full_enforce log_full "Invoke a tool")
    ∷ ("tools/list", method_config filter log_metadata "List available tools")
    ∷ ("resources/read", method_config full_enforce log_full "Read a resource")
    ∷ ("resources/list", method_config filter log_metadata "List available resources")
    ∷ ("resources/subscribe", method_config full_enforce log_full "Subscribe to resource updates")
    ∷ ("prompts/get", method_config passthrough log_metadata "Get a prompt template")
    ∷ ("prompts/list", method_config passthrough log_metadata "List available prompts")
    ∷ ("initialize", method_config passthrough log_metadata "Initialize MCP session")
    ∷ ("ping", method_config passthrough log_none "Health check ping")
    ∷ (
      "notifications/initialized",
      method_config passthrough log_none "Client initialization complete",
    )
    ∷ ("notifications/cancelled", method_config passthrough log_metadata "Request cancelled")
    ∷ []

abbrev pub unknown_method : MethodConfig
unknown_method = method_config passthrough log_metadata "Unknown method"

config_or : Option MethodConfig → MethodConfig
config_or none = unknown_method
config_or (some cfg) = cfg

-- The configuration of a method, by default that of an unknown one.
unfoldable pub config_for : String → MethodConfig
unfolding method_registry config_or
config_for method = config_or (lookup method method_registry)

pub record RequestContext : Type 0 where
  pub request : Request
  pub request_id : String
  pub method : String
  pub tool : String
  pub resource_uri : String
  pub arguments : Fields
  pub config : MethodConfig
  pub received_at : ℕ
  pub agent_facts_token : String

-- NewRequestContextAt; every field of the pooled object is set. `hex` is what `randomHex` draws.
unfoldable pub new_request_context_at : String → Request → ℕ → RequestContext
new_request_context_at hex req received_at = record {
  request = req;
  request_id = "req_" ++ˢ hex;
  method = req.method;
  tool = "";
  resource_uri = "";
  arguments = end;
  config = config_for req.method;
  received_at = received_at;
  agent_facts_token = "";
}

-- The response builder.
unfoldable pub success : Option Value → Option Value → Response
success id result = record { jsonrpc = "2.0"; id = id; result = result; error = none }

unfoldable pub error_with_data : Option Value → ℤ → String → ErrorData → Response
error_with_data id code message details = record {
  jsonrpc = "2.0";
  id = id;
  result = none;
  error = some (record { code = code; message = message; error_data = details });
}

unfoldable pub error_response : Option Value → ℤ → String → Response
unfolding error_with_data
error_response id code message = error_with_data id code message no_data

unfoldable pub parse_error : String → Response
unfolding error_response
parse_error message = error_response none code_parse_error message

unfoldable pub invalid_request : Option Value → String → Response
unfolding error_response
invalid_request id message = error_response id code_invalid_request message

unfoldable pub invalid_params : Option Value → String → Response
unfolding error_response
invalid_params id message = error_response id code_invalid_params message

unfoldable pub internal_error : Option Value → String → Response
unfolding error_response
internal_error id message = error_response id code_internal_error message

unfoldable pub method_not_found : Option Value → String → Response
unfolding error_response
method_not_found id method =
    error_response id code_method_not_found ("Method not found: " ++ˢ method)

unfoldable pub upstream_error : Option Value → String → Response
unfolding error_response
upstream_error id message = error_response id code_upstream_error message

unfoldable pub identity_error : Option Value → String → String → Response
unfolding error_with_data
identity_error id error_code message =
    error_with_data id code_identity_error message (identity error_code)

unfoldable pub rate_limited : Option Value → String → ℤ → ℤ → Response
unfolding error_with_data
rate_limited id agent_id limit current =
    error_with_data id code_rate_limited "Rate limit exceeded" (rate agent_id limit current)

first_violation : List String → String
first_violation [] = "Policy violation"
first_violation (v ∷ _) = v

-- PolicyViolation, with the formatted time.
unfoldable pub policy_violation_response :
    Option Value → RequestContext → String → List String → List String → String → String → Response
unfolding error_with_data first_violation
policy_violation_response id ctx agent_id capabilities violations policy_mode timestamp =
    error_with_data id code_policy_violation (first_violation violations) (
      policy_violation (record {
        request_id = ctx.request_id;
        agent_id = agent_id;
        tool = ctx.tool;
        required_capability = "";
        agent_capabilities = capabilities;
        violations = violations;
        policy_mode = policy_mode;
        timestamp = timestamp;
      }))
