-- ===== src/Upstream/Matching.antt =====
-- Calls, events and disconnects in any order, and whose response a call returns.
use mcp_proxy.Prelude.{
  All, Bool-cases, Dict, Option-cases, String, [], ap, arith, erase, false, get_elem?,
  get_elem?-append_length, inl, inr, length, lookup, refl, some, subst, sym, ℕ, ◌++◌, ◌==◌, ◌≡◌,
  ◌∙◌, ◌∷◌, ◌⊎◌,
}
use mathlib.Core.Option.{some-injective}
use mcp_proxy.Prelude.Maps.{lookup-erase}
use mcp_proxy.Upstream.Channels.{
  AllOwn, OwnedBy, append-AllOwn, append-OwnedBy, fail_all-AllOwn, fail_all-OwnedBy, offer-AllOwn,
  offer-OwnedBy,
}
use mcp_proxy.Upstream.{
  Channel, Client, Decoder, HttpStatus, ParsedId, answer_of, answered, connect, connect_with,
  content_of, deliver, disconnect, fail_all, got, handle_disconnect, handle_event, handle_message,
  invalid_json, keyed, new_channel, new_client, received, register, release, set_endpoint,
  unhashable, wake,
}
use mcp_proxy.Upstream.Steps.{
  IsMatched, Reach, Step, registered, evented, lost, cut, connected, ended, here, next, All_map,
  All_middle, All_at, lookup-insert_cases, same_entries,
}

module _ (request_id : Decoder) where
  register-IsMatched :
      (id : String) (c : Client) (calls : Dict ℕ)
      → IsMatched request_id c calls
      → IsMatched request_id (register id c) ((id, length c.channels) ∷ calls)
  unfolding register
  register-IsMatched id c calls m =
      let chs = c.channels ++ new_channel id ∷ [] in
      let new : OwnedBy chs (id, length c.channels) =
        (new_channel id, get_elem?-append_length c.channels [] (new_channel id), refl) in
      record {
        own = append-AllOwn request_id id c.channels m.own;
        pending_own = λ j a e. elim (lookup-insert_cases j id (length c.channels) a c.pending e) [
          | inl (same, at) ↦
              subst (λ k. OwnedBy chs (k, a)) same (subst (λ n. OwnedBy chs (id, n)) at new)
          | inr old ↦ append-OwnedBy (new_channel id) c.channels (j, a) (m.pending_own j a old)
        ];
        calls_own = (new, All_map calls (append-OwnedBy (new_channel id) c.channels) m.calls_own);
      }

  -- A response at the address of an entry carries the ID of the channel's owner.
  fits :
      (id bytes : String) (c : Client) (calls : Dict ℕ) (a : ℕ)
      → IsMatched request_id c calls
      → request_id bytes ≡ keyed id
      → lookup id c.pending ≡ some a
      → (ch : Channel) (bytes' : String) → get_elem? c.channels a ≡ some ch
      → received bytes ≡ received bytes'
      → request_id bytes' ≡ keyed ch.owner
  fits id bytes c calls a m h there ch bytes' at same =
      let (ch', at', owner) = m.pending_own id a there in
      let one = some-injective ch ch' (sym at ∙ at') in cc

  deliver-IsMatched :
      (id bytes : String) (c : Client) (calls : Dict ℕ)
      → request_id bytes ≡ keyed id
      → IsMatched request_id c calls
      → IsMatched request_id (deliver id bytes c) calls
  unfolding deliver
  deliver-IsMatched id bytes c calls h m = elim (Option-cases (lookup id c.pending)) [
    | inl absent ↦ rw (deliver, absent) m
    | inr (a, there) ↦
        rw (deliver, there)
          (same_entries request_id c _ calls
            (offer-AllOwn request_id (received bytes) a c.channels
              (fits id bytes c calls a m h there) m.own)
            (offer-OwnedBy (received bytes) a c.channels) (λ j b e. e) m)
  ]

  keep_channels :
      (c d : Client) (calls : Dict ℕ)
      → c.channels ≡ d.channels
      → c.pending ≡ d.pending
      → IsMatched request_id c calls
      → IsMatched request_id d calls
  keep_channels c d calls e f m =
      same_entries request_id c d calls (subst (AllOwn request_id) e m.own)
        (λ x. subst (λ chs. OwnedBy chs x) e) (λ id a. subst (λ p. lookup id p ≡ some a) (sym f)) m

  evented_with :
      (id : ParsedId) (bytes : String) (c d : Client) (calls : Dict ℕ)
      → request_id bytes ≡ id
      → handle_message id bytes c ≡ some d
      → IsMatched request_id c calls
      → IsMatched request_id d calls
  unfolding handle_message
  evented_with invalid_json bytes c d calls h e m =
      subst (λ x. IsMatched request_id x calls) (some-injective c d e) m
  evented_with unhashable bytes c d calls h e m = cc
  evented_with (keyed id) bytes c d calls h e m =
      subst (λ x. IsMatched request_id x calls) (some-injective _ d e)
        (deliver-IsMatched id bytes c calls h m)

  pub event_cases :
      (event bytes : String) (c d : Client)
      → handle_event request_id event bytes c ≡ some d
      → (set_endpoint bytes c ≡ d)
        ⊎ ((handle_message (request_id bytes) bytes c ≡ some d) ⊎ (c ≡ d))
  unfolding handle_event
  event_cases event bytes c d e = elim (Bool-cases (event == "endpoint")) [
    | inl endpoint ↦ inl (some-injective _ d (rw endpoint at e))
    | inr other ↦ elim (Bool-cases (event == "message")) [
      | inl message ↦ inr (inl (rw (other, message) at e))
      | inr ignored ↦ inr (inr (some-injective c d (rw (other, ignored) at e)))
    ]
  ]

  handle_event-IsMatched :
      (event bytes : String) (c d : Client) (calls : Dict ℕ)
      → handle_event request_id event bytes c ≡ some d
      → IsMatched request_id c calls
      → IsMatched request_id d calls
  unfolding set_endpoint
  handle_event-IsMatched event bytes c d calls e m = elim (event_cases event bytes c d e) [
    | inl endpoint ↦
        subst (λ x. IsMatched request_id x calls) endpoint
          (keep_channels c (set_endpoint bytes c) calls refl refl m)
    | inr (inl message) ↦ evented_with (request_id bytes) bytes c d calls refl message m
    | inr (inr ignored) ↦ subst (λ x. IsMatched request_id x calls) ignored m
  ]

  unfoldable pub failed_all : Client → Client
  failed_all c = record c {
    connected = false;
    pending = [];
    channels = fail_all c.pending c.channels;
  }

  pub handle_disconnect_cases :
      (c : Client) → (c ≡ handle_disconnect c) ⊎ (failed_all c ≡ handle_disconnect c)
  unfolding handle_disconnect failed_all
  handle_disconnect_cases c = ground arith

  handle_disconnect-IsMatched :
      (c : Client) (calls : Dict ℕ)
      → IsMatched request_id c calls
      → IsMatched request_id (handle_disconnect c) calls
  unfolding lookup failed_all
  handle_disconnect-IsMatched c calls m = elim (handle_disconnect_cases c) [
    | inl off ↦ subst (λ x. IsMatched request_id x calls) off m
    | inr on ↦
        subst (λ x. IsMatched request_id x calls) on
          (same_entries request_id c (failed_all c) calls
            (fail_all-AllOwn request_id c.pending c.channels m.own)
            (fail_all-OwnedBy c.pending c.channels) (λ id a e. cc) m)
  ]

  pub disconnect_keeps :
      (c d : Client) → disconnect c ≡ some d → (c.channels ≡ d.channels) × (c.pending ≡ d.pending)
  unfolding disconnect
  disconnect_keeps c d e = ground arith

  pub connect_keeps :
      (status : HttpStatus) (c : Client)
      → (c.channels ≡ (connect status c).1.channels) × (c.pending ≡ (connect status c).1.pending)
  unfolding connect connect_with
  connect_keeps status c = ground arith

  erase_fewer :
      (id j : String) (a : ℕ) (d : Dict ℕ) → lookup j (erase id d) ≡ some a → lookup j d ≡ some a
  erase_fewer id j a d h = ground (arith, lookup-erase id j d)

  release-IsMatched :
      (id : String) (c : Client) (calls : Dict ℕ)
      → IsMatched request_id c calls
      → IsMatched request_id (release id c) calls
  unfolding release
  release-IsMatched id c calls m =
      same_entries request_id c _ calls m.own (λ e own. own) (λ j a. erase_fewer id j a c.pending) m

  fewer_calls :
      (c : Client) (before : Dict ℕ) (e : String × ℕ) (after : Dict ℕ)
      → IsMatched request_id c (before ++ e ∷ after)
      → IsMatched request_id c (before ++ after)
  fewer_calls c before e after m = record {
    own = m.own;
    pending_own = m.pending_own;
    calls_own = All_middle (OwnedBy c.channels) before e after m.calls_own;
  }

  Step-IsMatched :
      {c d : Client} {calls calls' : Dict ℕ}
      → Step request_id c calls d calls'
      → IsMatched request_id c calls
      → IsMatched request_id d calls'
  Step-IsMatched {c} {calls = calls} (registered id) m = register-IsMatched id c calls m
  Step-IsMatched {c} {calls = calls} (evented event bytes d e) m =
      handle_event-IsMatched event bytes c d calls e m
  Step-IsMatched {c} {calls = calls} lost m = handle_disconnect-IsMatched c calls m
  Step-IsMatched {c} {calls = calls} (cut d e) m =
      let kept = disconnect_keeps c d e in keep_channels c d calls kept.0 kept.1 m
  Step-IsMatched {c} {calls = calls} (connected status) m =
      let kept = connect_keeps status c in
      keep_channels c (connect status c).1 calls kept.0 kept.1 m
  Step-IsMatched {c} {calls = calls} (ended before id a after e) m =
      release-IsMatched id c (before ++ after)
        (fewer_calls c before (id, a) after (subst (IsMatched request_id c) e m))

  pub Reach-IsMatched :
      {url : String} {c : Client} {calls : Dict ℕ}
      → Reach request_id url c calls
      → IsMatched request_id c calls
  unfolding new_client lookup
  Reach-IsMatched here = record { own = λ a ch h. cc; pending_own = λ id a h. cc; calls_own = tt }
  Reach-IsMatched (next r s) = Step-IsMatched s (Reach-IsMatched r)

  wake_content :
      (a : ℕ) (bytes : String) (c : Client) (ch : Channel)
      → get_elem? c.channels a ≡ some ch
      → wake answered a c ≡ some (got bytes)
      → ch.content ≡ some (received bytes)
  unfolding wake content_of answer_of
  wake_content a bytes c ch at h = ground arith

  wake_own :
      (id : String) (a : ℕ) (bytes : String) (c : Client)
      → AllOwn request_id c.channels
      → OwnedBy c.channels (id, a)
      → wake answered a c ≡ some (got bytes)
      → request_id bytes ≡ keyed id
  wake_own id a bytes c own (ch, at, owner) h =
      own a ch at bytes (wake_content a bytes c ch at h) ∙ ap keyed owner

  -- However calls, events and disconnects interleave: when a call that is under way finds an answer, the bytes that it returns carry the ID of its own message.
  pub wake-Reach :
      {url : String} {c : Client} {calls : Dict ℕ} (before : Dict ℕ) (id : String) (a : ℕ)
      (after : Dict ℕ) (bytes : String)
      → Reach request_id url c calls
      → calls ≡ before ++ (id, a) ∷ after
      → wake answered a c ≡ some (got bytes)
      → request_id bytes ≡ keyed id
  wake-Reach {c = c} before id a after bytes r e h =
      let m = Reach-IsMatched r in
      wake_own id a bytes c m.own
        (All_at (OwnedBy c.channels) before (id, a) after
          (subst (All (OwnedBy c.channels)) e m.calls_own))
        h
