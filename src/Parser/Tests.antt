-- ===== src/Parser/Tests.antt =====
-- The parser's theorems at requests.
use mcp_proxy.Prelude.{refl, true, none, some, ◌≡◌, ◌↔◌}
use mcp_proxy.Protocol.{Request}
use mcp_proxy.Json.{number}
use mcp_proxy.Parser.{Codec, done, failed, ok, validate_request, matches_method}
use mcp_proxy.Parser.Accepts.{IsAccepted, validate_request_iff}

abbrev ping : Request
ping = record { jsonrpc = "2.0"; id = some (number "1"); method = "ping"; params = none }

-- What an earlier user of the pool may have left behind.
abbrev used : Request
used = record { jsonrpc = "2.0"; id = some (number "9"); method = "tools/call"; params = some "{}" }

abbrev clean : Request
clean = record { jsonrpc = ""; id = none; method = ""; params = none }

-- A codec that sets the version and the method, and leaves the other members as they are.
abbrev codec : Codec
codec = record {
  unmarshal_request = λ message pooled. done (record pooled { jsonrpc = "2.0"; method = message });
  unmarshal_tool_call = λ _. failed "no params";
  unmarshal_resource_read = λ _. failed "no params";
  unmarshal_object = λ _. failed "no object";
  unmarshal_meta = λ _. failed "no object";
  marshal = λ _. done "answer";
}

validate_request_iff_example : (validate_request ping ≡ ok ping) ↔ IsAccepted ping
validate_request_iff_example = validate_request_iff ping

ping_matches : matches_method "ping" ≡ true
unfolding matches_method
ping_matches = refl
