-- ===== src/Sse.antt =====
-- internal/transport/sse/handler.go: the event stream and the posted messages.
--
-- The library's HTTP appears as a reply: status, headers, and the error written as the body. The
-- body of a request is what ReadAll gives of its first MiB, none if that fails. The handler may do
-- anything to a world `W` but leaves the session as it is.
pub mod Posting
pub mod Refusing
pub mod Framing
pub mod Tests
use mcp_proxy.Prelude.{
  Bool, Dict, List, Option, String, [], eqb, false, if◌then◌else◌, none, not, some, true, ℕ, ◌++◌,
  ◌==◌, ◌∷◌, set, get_elem?,
}
use Prim.Native.String.{◌++◌ as ◌++ˢ◌}
use mcp_proxy.Config.Types.{AgentConfig, SecurityConfig}
use mcp_proxy.Session.{Session, increment_request_count, send_message, set_agent, set_client_info}
use mcp_proxy.Manager.{Manager, create, delete, deref, err, get, modify, ok}

pub data Answer : Type 0 where
  replied : Option String → Answer
  failed : Answer

abbrev pub MessageHandler : Type 0 → Type 0
MessageHandler W = Session → String → W → Answer × W

pub record Handler (W : Type 0) : Type 0 where
  pub agent_cfg : AgentConfig
  pub security_cfg : SecurityConfig
  pub message_handler : Option (MessageHandler W)

-- An error is its JSON-RPC code and its message.
pub record Reply : Type 0 where
  pub status : ℕ
  pub headers : Dict String
  pub error : Option (String × String)

-- The manager, which the connections share, and the world.
pub record State (W : Type 0) : Type 0 where
  pub manager : Manager
  pub world : W

-- NewHandler
unfoldable pub new_handler : {W : Type 0} → AgentConfig → Handler W
new_handler cfg = record {
  agent_cfg = cfg;
  security_cfg = record { cors_allowed_origins = []; enable_security_headers = true };
  message_handler = none;
}

unfoldable pub new_handler_with_security : {W : Type 0} → AgentConfig → SecurityConfig → Handler W
new_handler_with_security cfg security = record {
  agent_cfg = cfg;
  security_cfg = security;
  message_handler = none;
}

-- setSecurityHeaders
unfoldable pub security_headers : SecurityConfig → Dict String
security_headers cfg =
    if not cfg.enable_security_headers
    then []
    else ("X-Content-Type-Options", "nosniff")
      ∷ ("X-Frame-Options", "DENY")
      ∷ ("Referrer-Policy", "strict-origin-when-cross-origin")
      ∷ ("Permissions-Policy", "geolocation=(), microphone=(), camera=()")
      ∷ []

unfoldable pub has_wildcard : List String → Bool
has_wildcard [] = false
has_wildcard (allowed ∷ origins) = if allowed == "*" then true else has_wildcard origins

-- `equal_fold` is strings.EqualFold.
unfoldable pub matching_origin : (String → String → Bool) → String → List String → Dict String
matching_origin equal_fold origin [] = []
matching_origin equal_fold origin (allowed ∷ origins) =
    if equal_fold origin allowed
    then ("Access-Control-Allow-Origin", origin) ∷ ("Vary", "Origin") ∷ []
    else matching_origin equal_fold origin origins

-- setCORSHeaders
unfoldable pub cors_headers : (String → String → Bool) → SecurityConfig → String → Dict String
unfolding has_wildcard matching_origin
cors_headers equal_fold cfg origin =
    if has_wildcard cfg.cors_allowed_origins
    then ("Access-Control-Allow-Origin", "*") ∷ []
    else matching_origin equal_fold origin cfg.cors_allowed_origins

-- sendError
unfoldable pub error_reply : SecurityConfig → ℕ → String → String → Reply
unfolding security_headers
error_reply cfg status code message = record {
  status = status;
  headers = security_headers cfg ++ ("Content-Type", "application/json") ∷ [];
  error = some (code, message);
}

abbrev pub accepted : Reply
accepted = record { status = 202; headers = []; error = none }

module _ {W : Type 0} where
  -- The response on the session's channel; a failure is only logged.
  unfoldable pub queue : Bool → ℕ → Option String → State W → State W
  unfolding modify send_message
  queue pick a none s = s
  queue pick a (some response) s = record s {
    manager = modify a (λ sess. (send_message pick response sess).0) s.manager;
  }

  unfoldable pub after_handler : Handler W → Bool → ℕ → Answer × W → State W → State W × Reply
  unfolding queue error_reply
  after_handler h pick a (failed, w) s =
      (record s { world = w }, error_reply h.security_cfg 500 "-32603" "Internal server error")
  after_handler h pick a (replied response, w) s =
      (queue pick a response (record s { world = w }), accepted)

  -- What is done for a session, and a body that is valid JSON.
  unfoldable pub process : Handler W → Bool → ℕ → String → Session → State W → State W × Reply
  unfolding after_handler queue
  process h pick a body sess s = elim h.message_handler [
    | none ↦ (queue pick a (some body) s, accepted)
    | some f ↦ after_handler h pick a (f sess body s.world) s
  ]

  -- The request is counted at time `now`. An address of the manager always has its session.
  unfoldable pub count_and_process : Handler W → Bool → ℕ → ℕ → String → State W → State W × Reply
  unfolding process modify increment_request_count
  count_and_process h pick now a body s =
      let counted = record s {
        manager = modify a (λ sess. (increment_request_count now sess).0) s.manager;
      } in
      elim (deref counted.manager a) [
        | none ↦ (counted, accepted)
        | some sess ↦ process h pick a body sess counted
      ]

  unfoldable pub with_body :
      Handler W → (String → Bool) → Bool → ℕ → ℕ → Option String → State W → State W × Reply
  unfolding count_and_process error_reply
  with_body h valid pick now a none s =
      (s, error_reply h.security_cfg 400 "-32700" "Failed to read request body")
  with_body h valid pick now a (some body) s =
      if not (valid body)
      then (s, error_reply h.security_cfg 400 "-32700" "Invalid JSON")
      else count_and_process h pick now a body s

  -- HandleMessage. `pick` is the choice of the select in SendMessage.
  unfoldable pub handle_message :
      Handler W → (String → Bool) → Bool → ℕ → String → Option String → State W → State W × Reply
  unfolding with_body error_reply get
  handle_message h valid pick now session_id body s =
      let (m, found) = get session_id s.manager in
      if session_id == ""
      then (s, error_reply h.security_cfg 400 "-32600" "Missing sessionId parameter")
      else elim found [
        | none ↦ (
          record s { manager = m },
          error_reply h.security_cfg 404 "-32600" "Session not found or expired",
        )
        | some a ↦ with_body h valid pick now a body (record s { manager = m })
      ]

-- sendEvent: what is written.
unfoldable pub send_event : String → String → String
send_event event body =
    (if event == "" then "" else "event: " ++ˢ event ++ˢ "\n")
    ++ˢ (if body == "" then "" else "data: " ++ˢ body ++ˢ "\n")
    ++ˢ "\n"

-- One connection, after its session has been made.
pub record Stream : Type 0 where
  pub session : ℕ
  pub id : String
  pub output : String
  pub is_open : Bool

introduce : AgentConfig → String → String → Session → Session
unfolding set_agent set_client_info
introduce cfg remote_addr user_agent s =
    set_client_info remote_addr user_agent (set_agent cfg.id cfg.name cfg.capabilities s)

-- The headers of the stream, in the order in which they are set.
unfoldable pub stream_headers : (String → String → Bool) → SecurityConfig → String → Dict String
unfolding security_headers cors_headers
stream_headers equal_fold cfg origin =
    (("Content-Type", "text/event-stream")
      ∷ ("Cache-Control", "no-cache, no-store, must-revalidate")
      ∷ ("Connection", "keep-alive")
      ∷ ("X-Accel-Buffering", "no")
      ∷ [])
    ++ security_headers cfg
    ++ cors_headers equal_fold cfg origin

-- HandleSSE up to its loop; none is the answer 503. The writer can be flushed.
unfoldable pub open_stream :
    {W : Type 0} → Handler W → String → ℕ → String → String → Manager → Manager × Option Stream
unfolding create modify introduce send_event
open_stream h uuid now remote_addr user_agent m =
    let (m', created) = create uuid now m in
    elim created [
      | err _ ↦ (m', none)
      | ok a ↦
          let id = "sess_" ++ˢ uuid in
          (
            modify a (introduce h.agent_cfg remote_addr user_agent) m',
            some (record {
              session = a;
              id = id;
              output = send_event "endpoint" ("/message?sessionId=" ++ˢ id);
              is_open = true;
            }),
          )
    ]

-- The cases of the select in the loop of HandleSSE.
pub data Wake : Type 0 where
  client_gone session_done message heartbeat : Wake

take_message : List String → Option (String × List String)
take_message [] = none
take_message (msg ∷ rest) = some (msg, rest)

write_event : String → String → Stream → Stream
unfolding send_event
write_event event body st = record st { output = st.output ++ˢ send_event event body }

send_next : Option (String × List String) → Session → Stream → Manager → Option (Stream × Manager)
unfolding write_event
send_next none sess st m = none
send_next (some (msg, rest)) sess st m = some (
  write_event "message" msg st,
  record m { heap = set m.heap st.session (record sess { message_chan = rest }) },
)

on_wake : Wake → Session → Stream → Manager → Option (Stream × Manager)
unfolding delete take_message send_next write_event
on_wake client_gone sess st m = some (record st { is_open = false }, delete st.id m)
on_wake session_done sess st m = if sess.done then some (record st { is_open = false }, m) else none
on_wake message sess st m = send_next (take_message sess.message_chan) sess st m
on_wake heartbeat sess st m = some (write_event "ping" "" st, m)

-- One round of the loop, for a case that is ready: none if it is not, or the stream has ended.
unfoldable pub stream_step : Wake → Stream → Manager → Option (Stream × Manager)
unfolding on_wake
stream_step w st m =
    if st.is_open
    then elim (deref m st.session) [ none ↦ none | some sess ↦ on_wake w sess st m ]
    else none
