-- ===== src/Sse/Posting.antt =====
-- What a posted message does.
use mcp_proxy.Prelude.{
  Bool, String, [], ap, arith, false, length, refl, some, true, ℕ, ◌+◌, ◌++◌, ◌<◌, ◌==◌, ◌≡◌, ◌∙◌,
  ◌∷◌, lt→ltb,
}
use mcp_proxy.Session.{Session, increment_request_count, is_closed, message_buffer, send_message}
use mcp_proxy.Manager.{Manager, deref, get, modify}
use mcp_proxy.Manager.Invariant.{deref-modify_self}
use mcp_proxy.Sse.{
  Handler, MessageHandler, State, accepted, after_handler, count_and_process, handle_message,
  process, queue, replied, with_body,
}

-- The session after a request at time `now` and its answer.
abbrev pub answered_session : ℕ → String → Session → Session
answered_session now response s = record s {
  request_count = s.request_count + 1;
  last_activity_at = now;
  message_chan = s.message_chan ++ response ∷ [];
}

abbrev pub counted_session : ℕ → Session → Session
counted_session now s = record s { request_count = s.request_count + 1; last_activity_at = now }

send_message-room :
    (pick : Bool) (response : String) (now : ℕ) (s : Session)
    → is_closed s ≡ false
    → length s.message_chan < message_buffer
    → (send_message pick response (counted_session now s)).0 ≡ answered_session now response s
unfolding send_message is_closed
send_message-room pick response now s live room =
    ground (arith, lt→ltb (length s.message_chan) message_buffer room)

-- The manager after the request has been counted.
counted : ℕ → ℕ → Manager → Manager
counted now a = modify a (λ x. (increment_request_count now x).0)

module _ {W : Type 0} where
  to_body :
      (h : Handler W) (valid : String → Bool) (pick : Bool) (now a : ℕ) (id body : String)
      (s : State W)
      → (id == "") ≡ false
      → get id s.manager ≡ (s.manager, some a)
      → valid body ≡ true
      → handle_message h valid pick now id (some body) s ≡ count_and_process h pick now a body s
  unfolding handle_message with_body
  to_body h valid pick now a id body s named found ok =
      rw (handle_message, named, found, with_body, ok)
        (ap (λ m. count_and_process h pick now a body (record s { manager = m }))
          (ap (λ p. p.0) found))

  to_process :
      (h : Handler W) (pick : Bool) (now a : ℕ) (body : String) (sess : Session) (s : State W)
      → deref s.manager a ≡ some sess
      → count_and_process h pick now a body s
        ≡ process h pick a body
            (counted_session now sess)
            (record s { manager = counted now a s.manager })
  unfolding count_and_process counted increment_request_count
  to_process h pick now a body sess s there =
      rw
        (
          count_and_process,
          deref-modify_self (λ x. (increment_request_count now x).0) s.manager a sess there,
        )
        refl

  to_queue :
      (h : Handler W) (f : MessageHandler W) (pick : Bool) (a : ℕ) (body response : String)
      (sess : Session) (s : State W) (w : W)
      → h.message_handler ≡ some f
      → f sess body s.world ≡ (replied (some response), w)
      → process h pick a body sess s
        ≡ (queue pick a (some response) (record s { world = w }), accepted)
  unfolding process after_handler
  to_queue h f pick a body response sess s w hf answer = rw (process, hf, answer) refl

  deref-queue :
      (pick : Bool) (now a : ℕ) (response : String) (sess : Session) (s : State W)
      → deref s.manager a ≡ some sess
      → is_closed sess ≡ false
      → length sess.message_chan < message_buffer
      → deref
          (queue pick a (some response) (record s { manager = counted now a s.manager })).manager
          a
        ≡ some (answered_session now response sess)
  unfolding queue counted increment_request_count
  deref-queue pick now a response sess s there live room =
      deref-modify_self (λ x. (send_message pick response x).0) (counted now a s.manager) a
        (counted_session now sess)
        (deref-modify_self (λ x. (increment_request_count now x).0) s.manager a sess there)
      ∙ ap some (send_message-room pick response now sess live room)

  -- A message posted for a session that is open and whose channel has room, with a valid body, when the handler answers it: the reply is 202, the request is counted, and the answer is the last message on the session's channel.
  pub handle_message-answered :
      (h : Handler W) (f : MessageHandler W) (valid : String → Bool) (pick : Bool) (now a : ℕ)
      (id body response : String) (sess : Session) (s : State W) (w : W)
      → h.message_handler ≡ some f
      → (id == "") ≡ false
      → get id s.manager ≡ (s.manager, some a)
      → deref s.manager a ≡ some sess
      → is_closed sess ≡ false
      → length sess.message_chan < message_buffer
      → valid body ≡ true
      → f (counted_session now sess) body s.world ≡ (replied (some response), w)
      → ((handle_message h valid pick now id (some body) s).1 ≡ accepted)
        × ((handle_message h valid pick now id (some body) s).0.world ≡ w)
        × (deref (handle_message h valid pick now id (some body) s).0.manager a
            ≡ some (answered_session now response sess))
  unfolding queue
  handle_message-answered h f valid pick now a id body response sess s w hf named found there live
        room ok answer =
      let all =
        to_body h valid pick now a id body s named found ok
        ∙ to_process h pick now a body sess s there
        ∙ to_queue h f pick a body response (counted_session now sess)
            (record s { manager = counted now a s.manager }) w hf answer in
      (
        ap (λ p. p.1) all,
        ap (λ p. p.0.world) all,
        ap (λ p. deref p.0.manager a) all
            ∙ deref-queue pick now a response sess (record s { world = w }) there live room,
      )
