-- ===== src/Sse/Tests.antt =====
-- One open session and a handler that answers, and the theorems at them.
use mcp_proxy.Prelude.{
  suc, Bool, List, Option, String, [], false, if◌then◌else◌, none, refl, some, true, ℕ, ◌++◌, ◌==◌,
  ◌≡◌, ◌∷◌, arith, inl, ◌⊎◌,
}
use Prim.Native.String.{◌++◌ as ◌++ˢ◌}
use mcp_proxy.Session.{Session, new_session}
use mcp_proxy.Manager.{Manager, create, default_manager_config, deref, get, new_manager}
use mcp_proxy.Sse.{
  Answer, Handler, MessageHandler, State, accepted, handle_message, new_handler, replied,
  send_event, error_reply,
}
use mcp_proxy.Sse.Posting.{answered_session, handle_message-answered}
use mcp_proxy.Sse.Refusing.{handle_message-Refused}
use mcp_proxy.Sse.Framing.{IsPlain, read_stream-send_event, then_read}
use mcp_proxy.Upstream.{Client, Decoder, connect, handle_event, keyed, new_client}
use mcp_proxy.Upstream.Events.{read_stream}

-- Counts its calls.
abbrev answering : MessageHandler ℕ
answering s body w = (replied (some "ok"), suc w)

abbrev handler : Handler ℕ
handler = record {
  agent_cfg = record {
    id = "";
    name = "";
    capabilities = [];
    model = "";
    publisher = "";
    tags = [];
  };
  security_cfg = record { cors_allowed_origins = []; enable_security_headers = true };
  message_handler = some answering;
}

abbrev manager : Manager
manager = (create "1" 5 (new_manager default_manager_config)).0

abbrev state : State ℕ
state = record { manager = manager; world = 0 }

abbrev session : Session
session = new_session "sess_1" 5

abbrev valid : String → Bool
valid s = s == "[1]"

handle_message-answered_example :
    ((handle_message handler valid true 9 "sess_1" (some "[1]") state).1 ≡ accepted)
    × ((handle_message handler valid true 9 "sess_1" (some "[1]") state).0.world ≡ 1)
    × (deref (handle_message handler valid true 9 "sess_1" (some "[1]") state).0.manager 0
        ≡ some (answered_session 9 "ok" session))
unfolding get mcp_proxy.Session.is_closed mcp_proxy.Prelude.lookup create new_manager
    default_manager_config mcp_proxy.Prelude.insert new_session
handle_message-answered_example =
    handle_message-answered handler answering valid true 9 0 "sess_1" "[1]" "ok" session state 1
      refl refl refl refl refl (omega arith) refl refl

handle_message-Refused_example :
    ((handle_message handler valid true 9 "sess_1" (some "[") state).0.world ≡ 0)
    × (((handle_message handler valid true 9 "sess_1" (some "[") state).0.manager ≡ manager)
        ⊎ ((handle_message handler valid true 9 "sess_1" (some "[") state).0.manager
            ≡ (get "sess_1" manager).0))
unfolding handle_message mcp_proxy.Prelude.lookup create new_manager default_manager_config
    mcp_proxy.Prelude.insert new_session
handle_message-Refused_example =
    handle_message-Refused handler valid true 9 "sess_1" (some "[") state (inl refl)

abbrev client : Client
client = (connect (some 200) (new_client "http://up")).1

abbrev decoder : Decoder
decoder s = keyed s

message-IsPlain : IsPlain "message"
unfolding mcp_proxy.Sse.Framing.one_line mcp_proxy.Upstream.Events.trim_left
    mcp_proxy.Upstream.Events.trim_right
message-IsPlain = record { in_line = refl; filled = refl; left = refl; right = refl }

one-IsPlain : IsPlain "[1]"
unfolding mcp_proxy.Sse.Framing.one_line mcp_proxy.Upstream.Events.trim_left
    mcp_proxy.Upstream.Events.trim_right
one-IsPlain = record { in_line = refl; filled = refl; left = refl; right = refl }

read_stream-send_event_example :
    read_stream decoder (send_event "message" "[1]" ++ˢ "\n") client
    ≡ then_read decoder "\n" (handle_event decoder "message" "[1]" client)
read_stream-send_event_example =
    read_stream-send_event decoder "message" "[1]" "\n" client message-IsPlain one-IsPlain
