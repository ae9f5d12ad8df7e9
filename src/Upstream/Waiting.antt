-- ===== src/Upstream/Waiting.antt =====
-- Calls under way with different IDs have their entry or their answer.
use mcp_proxy.Prelude.{
  Bool-cases, Dict, Distinct, Option-cases, String, [], ap, inl, inr, length, lookup, refl, some,
  subst, sym, ℕ, ◌++◌, ◌==◌, ◌≡◌, ◌∙◌, ◌∷◌, ◌⊎◌,
}
use mathlib.Core.Option.{some-injective}
use mcp_proxy.Prelude.Maps.{lookup-erase, lookup-insert}
use mcp_proxy.Upstream.Matching.{
  Reach-IsMatched, connect_keeps, disconnect_keeps, event_cases, failed_all,
  handle_disconnect_cases,
}
use mcp_proxy.Upstream.Steps.{
  IsMatched, Reach, Step, cut, connected, ended, evented, here, lost, next, registered,
}
use mcp_proxy.Upstream.{
  Client, Decoder, ParsedId, connect, deliver, handle_disconnect, handle_event, handle_message,
  invalid_json, keyed, new_channel, new_client, received, register, release, set_endpoint,
  unhashable,
}
use mcp_proxy.Upstream.Answers.{
  Answered, append-Answered, fail_all-Answered, failed-Answered, lookup_other, offer-Answered,
}

-- Every call that is under way has its entry, or its answer.
pub record IsWaiting (c : Client) (calls : Dict ℕ) : Type 0 where
  pub distinct : Distinct calls
  pub waiting_for :
      (id : String) (a : ℕ)
      → lookup id calls ≡ some a
      → (lookup id c.pending ≡ some a) ⊎ Answered c.channels a

module _ (request_id : Decoder) where
  -- Runs in which no two calls under way have the same ID.
  pub data Careful (url : String) : Client → Dict ℕ → Type 0 where
    start : Careful url (new_client url) []
    then_step :
        {c d : Client} {calls calls' : Dict ℕ}
        → Careful url c calls
        → Step request_id c calls d calls'
        → Distinct calls'
        → Careful url d calls'

  pub Careful→Reach :
      {url : String} {c : Client} {calls : Dict ℕ}
      → Careful url c calls
      → Reach request_id url c calls
  Careful→Reach start = here
  Careful→Reach (then_step r s u) = next (Careful→Reach r) s

  pub register-IsWaiting :
      (id : String) (c : Client) (calls : Dict ℕ)
      → Distinct ((id, length c.channels) ∷ calls)
      → IsWaiting c calls
      → IsWaiting (register id c) ((id, length c.channels) ∷ calls)
  unfolding register lookup
  register-IsWaiting id c calls u w = record {
    distinct = u;
    waiting_for = λ j a h. elim (Bool-cases (id == j)) [
      | inl same ↦ inl (lookup-insert id j (length c.channels) c.pending ∙ rw same (rw same at h))
      | inr other ↦ elim (w.waiting_for j a (rw other at h)) [
        | inl there ↦ inl (lookup-insert id j (length c.channels) c.pending ∙ rw other there)
        | inr answer ↦ inr (append-Answered (new_channel id) a c.channels answer)
      ]
    ];
  }

  -- A step that keeps the calls, the entries and the answers.
  pub kept_calls :
      (c d : Client) (calls : Dict ℕ)
      → c.pending ≡ d.pending
      → ((a : ℕ) → Answered c.channels a → Answered d.channels a)
      → IsWaiting c calls
      → IsWaiting d calls
  kept_calls c d calls e keep w = record {
    distinct = w.distinct;
    waiting_for = λ id a h. elim (w.waiting_for id a h) [
      | inl there ↦ inl (ap (lookup id) (sym e) ∙ there)
      | inr answer ↦ inr (keep a answer)
    ];
  }

  pub deliver-IsWaiting :
      (id bytes : String) (c : Client) (calls : Dict ℕ)
      → IsWaiting c calls
      → IsWaiting (deliver id bytes c) calls
  unfolding deliver
  deliver-IsWaiting id bytes c calls w = elim (Option-cases (lookup id c.pending)) [
    | inl absent ↦ rw (deliver, absent) w
    | inr (a, there) ↦
        rw (deliver, there)
          (kept_calls c _ calls refl (λ b. offer-Answered (received bytes) a b c.channels) w)
  ]

  pub message-IsWaiting :
      (id : ParsedId) (bytes : String) (c d : Client) (calls : Dict ℕ)
      → handle_message id bytes c ≡ some d
      → IsWaiting c calls
      → IsWaiting d calls
  unfolding handle_message
  message-IsWaiting invalid_json bytes c d calls e w =
      subst (λ x. IsWaiting x calls) (some-injective c d e) w
  message-IsWaiting unhashable bytes c d calls e w = cc
  message-IsWaiting (keyed id) bytes c d calls e w =
      subst (λ x. IsWaiting x calls) (some-injective _ d e) (deliver-IsWaiting id bytes c calls w)

  pub event-IsWaiting :
      (event bytes : String) (c d : Client) (calls : Dict ℕ)
      → handle_event request_id event bytes c ≡ some d
      → IsWaiting c calls
      → IsWaiting d calls
  unfolding set_endpoint
  event-IsWaiting event bytes c d calls e w = elim (event_cases request_id event bytes c d e) [
    | inl endpoint ↦
        subst (λ x. IsWaiting x calls) endpoint
          (kept_calls c (set_endpoint bytes c) calls refl (λ a answer. answer) w)
    | inr (inl message) ↦ message-IsWaiting (request_id bytes) bytes c d calls message w
    | inr (inr ignored) ↦ subst (λ x. IsWaiting x calls) ignored w
  ]

  -- Every call has its answer after a disconnect.
  pub lost-IsWaiting :
      (c : Client) (calls : Dict ℕ)
      → IsMatched request_id c calls
      → IsWaiting c calls
      → IsWaiting (handle_disconnect c) calls
  unfolding failed_all
  lost-IsWaiting c calls m w = elim (handle_disconnect_cases request_id c) [
    | inl off ↦ subst (λ x. IsWaiting x calls) off w
    | inr on ↦
        subst (λ x. IsWaiting x calls) on
          (record {
            distinct = w.distinct;
            waiting_for = λ id a h. elim (w.waiting_for id a h) [
              | inl there ↦
                  inr (failed-Answered c.pending id a c.channels there (m.pending_own id a there))
              | inr answer ↦ inr (fail_all-Answered c.pending a c.channels answer)
            ];
          })
  ]

  pub release-IsWaiting :
      (c : Client) (before : Dict ℕ) (id : String) (a : ℕ) (after : Dict ℕ)
      → Distinct (before ++ after)
      → IsWaiting c (before ++ (id, a) ∷ after)
      → IsWaiting (release id c) (before ++ after)
  unfolding release
  release-IsWaiting c before id a after u w = record {
    distinct = u;
    waiting_for = λ j b h.
        let (there, other) = lookup_other before id a after j b w.distinct h in
        elim (w.waiting_for j b there) [
          | inl entry ↦ inl (lookup-erase id j c.pending ∙ rw other entry)
          | inr answer ↦ inr answer
        ];
  }

  pub Step-IsWaiting :
      {c d : Client} {calls calls' : Dict ℕ}
      → Step request_id c calls d calls'
      → Distinct calls'
      → IsMatched request_id c calls
      → IsWaiting c calls
      → IsWaiting d calls'
  Step-IsWaiting {c} {calls = calls} (registered id) u m w = register-IsWaiting id c calls u w
  Step-IsWaiting {c} {calls = calls} (evented event bytes d e) u m w =
      event-IsWaiting event bytes c d calls e w
  Step-IsWaiting {c} {calls = calls} lost u m w = lost-IsWaiting c calls m w
  Step-IsWaiting {c} {calls = calls} (cut d e) u m w =
      let kept = disconnect_keeps request_id c d e in
      kept_calls c d calls kept.1 (λ a. subst (λ chs. Answered chs a) kept.0) w
  Step-IsWaiting {c} {calls = calls} (connected status) u m w =
      let kept = connect_keeps request_id status c in
      kept_calls c (connect status c).1 calls kept.1 (λ a. subst (λ chs. Answered chs a) kept.0) w
  Step-IsWaiting {c} {calls = calls} (ended before id a after e) u m w =
      release-IsWaiting c before id a after u (subst (IsWaiting c) e w)

  pub Careful-IsWaiting :
      {url : String} {c : Client} {calls : Dict ℕ} → Careful url c calls → IsWaiting c calls
  unfolding lookup
  Careful-IsWaiting start = record { distinct = tt; waiting_for = λ id a h. cc }
  Careful-IsWaiting (then_step r s u) =
      Step-IsWaiting s u (Reach-IsMatched request_id (Careful→Reach r)) (Careful-IsWaiting r)
