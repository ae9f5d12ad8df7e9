-- ===== src/Session/Channel.antt =====
-- The buffered channel of a session: its bound, its order, and what closing changes.
use mcp_proxy.Prelude.{
  ℕ, ◌≤◌, ◌<◌, String, ◌≡◌, ◌⊎◌, Bool, true, false, [], ◌∷◌, ◌++◌, arith, ltb, length,
  length-append,
}
use mcp_proxy.Session.{Session, message_buffer, new_session, close, is_closed, send_message}

abbrev pub IsBuffered : Session → Type 0
IsBuffered s = length s.message_chan ≤ message_buffer

pub new_session-IsBuffered : (id : String) (now : ℕ) → IsBuffered (new_session id now)
unfolding new_session
new_session-IsBuffered id now = omega arith

-- Whatever `select` picks, sending keeps a channel within its buffer, and either reports success and has appended the message behind the earlier ones, or reports failure and has changed nothing.
pub send_message_lem :
    (pick : Bool) (msg : String) (s : Session)
    → IsBuffered s
    → IsBuffered (send_message pick msg s).0
      × (((send_message pick msg s).1 ≡ true)
            × ((send_message pick msg s).0 ≡ record s { message_chan = s.message_chan ++ msg ∷ [] })
          ⊎ ((send_message pick msg s).1 ≡ false) × ((send_message pick msg s).0 ≡ s))
unfolding send_message
send_message_lem pick msg s h = ground (arith, length-append s.message_chan (msg ∷ []))

-- On an open session a message is taken exactly when the buffer has room.
pub send_message-open :
    (pick : Bool) (msg : String) (s : Session)
    → is_closed s ≡ false
    → (send_message pick msg s).1 ≡ ltb (length s.message_chan) message_buffer
unfolding send_message is_closed
send_message-open pick msg s h = ground arith

-- On a closed session with room in the buffer the outcome is the choice of `select`.
pub send_message-closed :
    (pick : Bool) (msg : String) (s : Session)
    → length s.message_chan < message_buffer
    → (send_message pick msg (close s)).1 ≡ pick
unfolding send_message close
send_message-closed pick msg s h = ground arith
