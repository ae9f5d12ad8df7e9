-- ===== src/Sse/Refusing.antt =====
-- Posts that are refused.
use mcp_proxy.Prelude.{
  subst, Bool, Bool-cases, Option, Option-cases, String, ap, arith, false, inl, inr, none, refl,
  some, ℕ, ◌==◌, ◌≡◌, ◌∙◌, ◌⊎◌,
}
use mcp_proxy.Session.{Session, increment_request_count}
use mcp_proxy.Manager.{deref, get, modify}
use mcp_proxy.Sse.{
  error_reply, Answer, Handler, Reply, State, after_handler, count_and_process, failed,
  handle_message, process, replied, with_body,
}

-- A status for a request that is at fault.
abbrev pub Refused : Reply → Type 0
Refused r = (r.status ≡ 400) ⊎ (r.status ≡ 404)

module _ {W : Type 0} where
  handled-status :
      (h : Handler W) (pick : Bool) (a : ℕ) (r : Answer × W) (s : State W)
      → ((after_handler h pick a r s).1.status ≡ 202)
        ⊎ ((after_handler h pick a r s).1.status ≡ 500)
  unfolding after_handler error_reply
  handled-status h pick a (replied r, w) s = inl refl
  handled-status h pick a (failed, w) s = inr refl

  process-status :
      (h : Handler W) (pick : Bool) (a : ℕ) (body : String) (sess : Session) (s : State W)
      → ((process h pick a body sess s).1.status ≡ 202)
        ⊎ ((process h pick a body sess s).1.status ≡ 500)
  unfolding process after_handler error_reply
  process-status h pick a body sess s = elim (Option-cases h.message_handler) [
    | inl without ↦ inl (rw (process, without) refl)
    | inr (f, with) ↦ rw (process, with) (handled-status h pick a (f sess body s.world) s)
  ]

  count_and_process-status :
      (h : Handler W) (pick : Bool) (now a : ℕ) (body : String) (s : State W)
      → ((count_and_process h pick now a body s).1.status ≡ 202)
        ⊎ ((count_and_process h pick now a body s).1.status ≡ 500)
  unfolding count_and_process
  count_and_process-status h pick now a body s =
      elim (Option-cases (deref (modify a (λ x. (increment_request_count now x).0) s.manager) a)) [
        | inl gone ↦ inl (rw (count_and_process, gone) refl)
        | inr (sess, there) ↦
            rw (count_and_process, there)
              (process-status h pick a body sess (record s {
                manager = modify a (λ x. (increment_request_count now x).0) s.manager;
              }))
      ]

  with_body-Refused :
      (h : Handler W) (valid : String → Bool) (pick : Bool) (now a : ℕ) (body : Option String)
      (s : State W)
      → Refused (with_body h valid pick now a body s).1
      → (with_body h valid pick now a body s).0 ≡ s
  unfolding with_body
  with_body-Refused h valid pick now a none s refused = refl
  with_body-Refused h valid pick now a (some body) s refused = elim (Bool-cases (valid body)) [
    | inl ok ↦ ground (arith, count_and_process-status h pick now a body s)
    | inr bad ↦ rw (with_body, bad) refl
  ]

  reached :
      (h : Handler W) (valid : String → Bool) (pick : Bool) (now : ℕ) (id : String) (a : ℕ)
      (body : Option String) (s : State W)
      → (id == "") ≡ false
      → (get id s.manager).1 ≡ some a
      → handle_message h valid pick now id body s
        ≡ with_body h valid pick now a body (record s { manager = (get id s.manager).0 })
  unfolding handle_message
  reached h valid pick now id a body s named found = rw (handle_message, named, found) refl

  -- A post that is refused with 400 or 404 does not reach the handler: the world is as it was, and the sessions are as they were or as the look-up of the session has left them.
  pub handle_message-Refused :
      (h : Handler W) (valid : String → Bool) (pick : Bool) (now : ℕ) (id : String)
      (body : Option String) (s : State W)
      → Refused (handle_message h valid pick now id body s).1
      → ((handle_message h valid pick now id body s).0.world ≡ s.world)
        × (((handle_message h valid pick now id body s).0.manager ≡ s.manager)
            ⊎ ((handle_message h valid pick now id body s).0.manager ≡ (get id s.manager).0))
  unfolding handle_message
  handle_message-Refused h valid pick now id body s refused = elim (Bool-cases (id == "")) [
    | inl unnamed ↦ rw (handle_message, unnamed) (refl, inl refl)
    | inr named ↦ elim (Option-cases (get id s.manager).1) [
      | inl absent ↦ rw (handle_message, named, absent) (refl, inr refl)
      | inr (a, found) ↦
          let same =
            with_body-Refused h valid pick now a body (record s { manager = (get id s.manager).0 })
              (subst (λ p. Refused p.1) (reached h valid pick now id a body s named found)
                refused) in
          (
            ap (λ p. p.0.world) (reached h valid pick now id a body s named found)
                ∙ ap (λ x. x.world) same,
            inr (
                ap (λ p. p.0.manager) (reached h valid pick now id a body s named found)
                ∙ ap (λ x. x.manager) same),
          )
    ]
  ]
