-- ===== src/Parser.antt =====
-- internal/router/parser.go: parsing and validation of JSON-RPC messages.
--
-- Decoding is the library goccy/go-json: the parameters `Codec`. A decoder is given the object
-- that it fills, or fails with a text.
pub mod Accepts
pub mod Tests
pub mod Reserved
use Prim.Native.Char.{code as code_point}
use mcp_proxy.Prelude.Int.{ℤ}
use mcp_proxy.Prelude.{
  Bool, Dict, Option, String, [], eqb, false, if◌then◌else◌, leb, lookup, ltb, none, not, some,
  true, ℕ, ◌&&◌, ◌+◌, ◌==◌, ◌||◌, ◌∷◌,
}
use Prim.Native.String.{◌++◌ as ◌++ˢ◌}
use text.Mathlib.Text.{starts_with}
use mcp_proxy.Json.{Value}
use mcp_proxy.Protocol.{
  MetaParams, Request, ResourceReadParams, Response, ToolCallParams, code_invalid_params,
  code_invalid_request, code_parse_error, error_response,
}

pub data Outcome {ℓ} (A : Type ℓ) : Type ℓ where
  done : A → Outcome A
  failed : String → Outcome A

pub record Codec : Type 0 where
  -- json.Unmarshal into the given request: a member that is absent leaves its field as it is
  pub unmarshal_request : String → Request → Outcome Request
  pub unmarshal_tool_call : String → Outcome ToolCallParams
  pub unmarshal_resource_read : String → Outcome ResourceReadParams
  -- into a map of raw members
  pub unmarshal_object : String → Outcome (Dict String)
  pub unmarshal_meta : String → Outcome MetaParams
  pub marshal : Response → Outcome String

pub record ParseError : Type 0 where
  pub code : ℤ
  pub message : String

pub data Result {ℓ} (A : Type ℓ) : Type ℓ where
  ok : A → Result A
  err : ParseError → Result A

abbrev pub fail {ℓ} : {A : Type ℓ} → ℤ → String → Result A
fail code message = err (record { code = code; message = message })

-- GetRequest: whatever object the pool hands out is cleared.
unfoldable pub get_request : Request → Request
get_request pooled = record pooled { jsonrpc = ""; id = none; method = ""; params = none }

abbrev pub max_method_length : ℕ
max_method_length = 256

unfoldable pub is_letter : ℕ → Bool
is_letter c = leb b'a' c && leb c b'z' || leb b'A' c && leb c b'Z'

-- [a-zA-Z0-9_/]
unfoldable pub is_method_char : ℕ → Bool
unfolding is_letter
is_method_char c = is_letter c || leb b'0' c && leb c b'9' || eqb c b'_' || eqb c b'/'

unfoldable pub all_chars : (ℕ → Bool) → String → Bool
all_chars p String.[] = true
all_chars p (String.◌∷◌ c s) = p (code_point c) && all_chars p s

-- The regular expression ^[a-zA-Z][a-zA-Z0-9_/]*$
unfoldable pub matches_method : String → Bool
unfolding is_letter is_method_char all_chars
matches_method String.[] = false
matches_method (String.◌∷◌ c s) = is_letter (code_point c) && all_chars is_method_char s

-- The bytes of a character in UTF-8.
unfoldable pub utf8_width : ℕ → ℕ
utf8_width c = if ltb c 128 then 1 else if ltb c 2048 then 2 else if ltb c 65536 then 3 else 4

unfoldable pub byte_length : String → ℕ
unfolding utf8_width
byte_length String.[] = 0
byte_length (String.◌∷◌ c s) = utf8_width (code_point c) + byte_length s

unfoldable pub validate_request : Request → Result Request
unfolding matches_method byte_length
validate_request req =
    if not (req.jsonrpc == "2.0")
    then fail code_invalid_request
        ("Invalid JSON-RPC version: expected '2.0', got '" ++ˢ req.jsonrpc ++ˢ "'")
    else if req.method == ""
    then fail code_invalid_request "Missing 'method' field"
    else if ltb max_method_length (byte_length req.method)
    then fail code_invalid_request "Method name too long"
    else if not (matches_method req.method)
    then fail code_invalid_request "Invalid method name format"
    else if starts_with req.method "rpc."
    then fail code_invalid_request "Method names starting with 'rpc.' are reserved"
    else ok req

validate_decoded : Outcome Request → Result Request
unfolding validate_request
validate_decoded (failed e) = fail code_parse_error ("Invalid JSON: " ++ˢ e)
validate_decoded (done req) = validate_request req

-- Parse, with the object that the pool hands out.
unfoldable pub parse : Codec → Request → String → Result Request
unfolding validate_decoded get_request
parse codec pooled message =
    if message == ""
    then fail code_parse_error "Empty message"
    else validate_decoded (codec.unmarshal_request message (get_request pooled))

unfoldable pub check_tool_call : Outcome ToolCallParams → Result ToolCallParams
check_tool_call (failed e) = fail code_invalid_params ("Invalid tools/call params: " ++ˢ e)
check_tool_call (done params) =
    if params.name == ""
    then fail code_invalid_params "Missing 'name' in tools/call params"
    else ok params

unfoldable pub parse_tool_call : Codec → Option String → Result ToolCallParams
unfolding check_tool_call
parse_tool_call codec none = fail code_invalid_params "Missing 'params' for tools/call"
parse_tool_call codec (some params) = check_tool_call (codec.unmarshal_tool_call params)

unfoldable pub check_resource_read : Outcome ResourceReadParams → Result ResourceReadParams
check_resource_read (failed e) = fail code_invalid_params ("Invalid resources/read params: " ++ˢ e)
check_resource_read (done params) =
    if params.uri == ""
    then fail code_invalid_params "Missing 'uri' in resources/read params"
    else ok params

unfoldable pub parse_resource_read : Codec → Option String → Result ResourceReadParams
unfolding check_resource_read
parse_resource_read codec none = fail code_invalid_params "Missing 'params' for resources/read"
parse_resource_read codec (some params) = check_resource_read (codec.unmarshal_resource_read params)

-- The errors of ExtractMeta are dropped by its caller: they are none, as is an absent `_meta`.
meta_or_none : Outcome MetaParams → Option MetaParams
meta_or_none (failed e) = none
meta_or_none (done meta) = some meta

meta_member : Codec → Option String → Option MetaParams
unfolding meta_or_none
meta_member codec none = none
meta_member codec (some raw) = meta_or_none (codec.unmarshal_meta raw)

meta_of : Codec → Outcome (Dict String) → Option MetaParams
unfolding meta_member
meta_of codec (failed e) = none
meta_of codec (done raw) = meta_member codec (lookup "_meta" raw)

unfoldable pub extract_meta : Codec → Option String → Option MetaParams
unfolding meta_of
extract_meta codec none = none
extract_meta codec (some params) = meta_of codec (codec.unmarshal_object params)

unfoldable pub is_notification : Request → Bool
is_notification req = elim req.id [ none ↦ true | some _ ↦ false ]

unfoldable pub is_request : Request → Bool
is_request req = elim req.id [ none ↦ false | some _ ↦ true ]

-- FromParseError, ToResponse
unfoldable pub to_response : ParseError → Option Value → Response
unfolding error_response
to_response e id = error_response id e.code e.message
