-- ===== src/Session.antt =====
-- internal/session/types.go: one client session. Times are nanoseconds on one clock, `[]byte`
-- messages are texts, and a mutation returns the new session. The fields are read and written
-- under the session's lock, so each operation is one step.
pub mod Channel
use mcp_proxy.Prelude.{
  ℕ, ◌+◌, ◌-◌, String, Bool, true, false, ◌&&◌, List, [], ◌∷◌, ◌++◌, ltb, if◌then◌else◌, length,
}

pub record Session : Type 0 where
  pub id : String
  pub created_at : ℕ
  pub last_activity_at : ℕ
  pub request_count : ℕ
  pub agent_id : String
  pub agent_name : String
  pub capabilities : List String
  pub identity_verified : Bool
  pub did : String
  pub source_ip : String
  pub user_agent : String
  -- the messages waiting in `MessageChan`, oldest first
  pub message_chan : List String
  -- whether the channel `Done` has been closed
  pub done : Bool

-- make(chan []byte, 100)
abbrev pub message_buffer : ℕ
message_buffer = 100

-- NewSession at time `now`
unfoldable pub new_session : String → ℕ → Session
new_session id now = record {
  id = id;
  created_at = now;
  last_activity_at = now;
  request_count = 0;
  agent_id = "";
  agent_name = "";
  capabilities = [];
  identity_verified = false;
  did = "";
  source_ip = "";
  user_agent = "";
  message_chan = [];
  done = false;
}

unfoldable pub increment_request_count : ℕ → Session → Session × ℕ
increment_request_count now s =
    (record s { request_count = s.request_count + 1; last_activity_at = now }, s.request_count + 1)

unfoldable pub get_request_count : Session → ℕ
get_request_count s = s.request_count

unfoldable pub set_agent : String → String → List String → Session → Session
set_agent agent_id agent_name capabilities s = record s {
  agent_id = agent_id;
  agent_name = agent_name;
  capabilities = capabilities;
}

unfoldable pub set_identity : Bool → String → Session → Session
set_identity verified did s = record s { identity_verified = verified; did = did }

unfoldable pub set_client_info : String → String → Session → Session
set_client_info source_ip user_agent s = record s { source_ip = source_ip; user_agent = user_agent }

unfoldable pub close : Session → Session
close s = if s.done then s else record s { done = true }

unfoldable pub is_closed : Session → Bool
is_closed s = s.done

enqueue : String → Session → Session × Bool
enqueue msg s = (record s { message_chan = s.message_chan ++ msg ∷ [] }, true)

-- Go's `select` takes any ready case when several are ready. `take_send` is that choice, between
-- the closed `Done` and the room in `MessageChan`.
unfoldable pub send_message : Bool → String → Session → Session × Bool
unfolding enqueue
send_message take_send msg s =
    if s.done
    then (if ltb (length s.message_chan) message_buffer && take_send
        then enqueue msg s
        else (s, false))
    else (if ltb (length s.message_chan) message_buffer then enqueue msg s else (s, false))

-- time.Since(s.CreatedAt) at time `now`
unfoldable pub age : ℕ → Session → ℕ
age now s = now - s.created_at

unfoldable pub idle_time : ℕ → Session → ℕ
idle_time now s = now - s.last_activity_at
