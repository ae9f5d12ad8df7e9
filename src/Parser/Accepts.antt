-- ===== src/Parser/Accepts.antt =====
-- What `parse` accepts, and what its errors are.
use mcp_proxy.Prelude.{String, arith, eq_iff, refl, true, ◌↔◌, ◌≡◌, ◌≢◌, ◌≤◌}
use mcp_proxy.Parser.Reserved.{matches_method-not_reserved}
use mcp_proxy.Parser.{
  Codec, byte_length, matches_method, max_method_length, ok, parse, validate_request,
}
use mcp_proxy.Protocol.{Request}

-- A request that passed: version 2.0 and a method of at most 256 bytes that matches the pattern.
pub record IsAccepted (req : Request) : Type 0 where
  pub version : req.jsonrpc ≡ "2.0"
  pub named : req.method ≢ ""
  pub short : byte_length req.method ≤ max_method_length
  pub pattern_ok : matches_method req.method ≡ true

pub validate_request-IsAccepted :
    (req out : Request) → validate_request req ≡ ok out → IsAccepted out × (out ≡ req)
unfolding validate_request
validate_request-IsAccepted req out h =
    ground (arith, eq_iff req.jsonrpc "2.0", eq_iff req.method "")

-- The result of parsing a message does not depend on the object that the pool hands out.
pub parse_pooled :
    (codec : Codec) (pooled other : Request) (message : String)
    → parse codec pooled message ≡ parse codec other message
unfolding parse
parse_pooled codec pooled other message = refl

accepted_lem : (req : Request) → IsAccepted req → validate_request req ≡ ok req
unfolding validate_request
accepted_lem req a =
    let reserved = matches_method-not_reserved req.method a.pattern_ok in
    let version = a.version in
    let named = a.named in
    let short = a.short in
    let pattern_ok = a.pattern_ok in ground (arith, eq_iff req.jsonrpc "2.0", eq_iff req.method "")

-- A request is valid exactly if its version is 2.0 and its method has at least one and at most 256 bytes and matches the pattern; the request is then returned as it is.
pub validate_request_iff : (req : Request) → (validate_request req ≡ ok req) ↔ IsAccepted req
validate_request_iff req = (λ h. (validate_request-IsAccepted req req h).0, accepted_lem req)
