-- ===== src/Upstream/Crossing.antt =====
-- Two calls under way with one ID.
use mathlib.Core.Option.{some-injective}
use mcp_proxy.Prelude.{
  Bool-cases, Dict, List, Option-cases, String, [], arith, eq_iff, eq_refl, eqb, false, get_elem?,
  get_elem?-append_left, get_elem?-append_length, get_elem?-lt, inl, inr, length, lookup, none,
  refl, some, subst, sym, ℕ, ◌++◌, ◌≡◌, ◌≢◌, ◌∙◌, ◌∷◌, ap, ◌<◌,
}
use mcp_proxy.Prelude.Maps.{lookup-erase, lookup-insert}
use mcp_proxy.Upstream.Channels.{eqb→eq, get_elem?-offer, put_at}
use mcp_proxy.Upstream.Delivery.{
  deliver-Holds_own, deliver-keyed, deliver_at, Holds-wake, wake_empty,
}
use mcp_proxy.Upstream.Matching.{Reach-IsMatched, connect_keeps, disconnect_keeps, event_cases}
use mcp_proxy.Upstream.Steps.{
  IsMatched, Reach, Step, connected, cut, ended, evented, lost, next, registered,
}
use mcp_proxy.Upstream.{
  Channel, Client, Decoder, ParsedId, answered, deliver, got, handle_event, handle_message,
  invalid_json, keyed, new_channel, offer, received, register, release, set_endpoint, unhashable,
  wake,
}

-- The channel at an address is that of a call with the ID, and has no response.
abbrev pub IsOpen : String → ℕ → List Channel → Type 0
IsOpen id a chs =
    (ch : Channel) × (get_elem? chs a ≡ some ch) × (ch.owner ≡ id) × (ch.content ≡ none)

-- The entry is that of the second call, and neither call has a response.
pub record IsCrossed (id : String) (a b : ℕ) (c : Client) : Type 0 where
  pub entry : lookup id c.pending ≡ some b
  pub first : IsOpen id a c.channels
  pub second : IsOpen id b c.channels

append-IsOpen :
    (id : String) (a : ℕ) (chs : List Channel) (x : Channel)
    → IsOpen id a chs
    → IsOpen id a (chs ++ x ∷ [])
append-IsOpen id a chs x (ch, at, own, empty) =
    (ch, get_elem?-append_left chs (x ∷ []) a ch at, own, empty)

module _ (request_id : Decoder) where
  -- A step that has nothing to do with an ID: no call with it begins or ends, and no response with it comes, nor is the connection lost.
  abbrev pub IsAside :
      {c d : Client} {calls calls' : Dict ℕ} → String → Step request_id c calls d calls' → Type 0
  IsAside id (registered j) = j ≢ id
  IsAside id (evented event bytes d e) = request_id bytes ≢ keyed id
  IsAside id lost = ⊥
  IsAside id (cut d e) = Unit {0}
  IsAside id (connected status) = Unit {0}
  IsAside id (ended before j a after e) = j ≢ id

  pub data Aside (id : String) (c : Client) (calls : Dict ℕ) : Client → Dict ℕ → Type 0 where
    at_once : Aside id c calls c calls
    after_step :
        {d e : Client} {calls' calls'' : Dict ℕ}
        → Aside id c calls d calls'
        → (s : Step request_id d calls' e calls'') → IsAside id s
        → Aside id c calls e calls''

  module _ (id : String) (a b : ℕ) where
    register-IsCrossed :
        (j : String) (c : Client) → j ≢ id → IsCrossed id a b c → IsCrossed id a b (register j c)
    unfolding register
    register-IsCrossed j c other x = record {
      entry =
          ground (arith, lookup-insert j id (length c.channels) c.pending, eq_iff j id, x.entry);
      first = append-IsOpen id a c.channels (new_channel j) x.first;
      second = append-IsOpen id b c.channels (new_channel j) x.second;
    }

    release-IsCrossed :
        (j : String) (c : Client) → j ≢ id → IsCrossed id a b c → IsCrossed id a b (release j c)
    unfolding release
    release-IsCrossed j c other x = record {
      entry = ground (arith, lookup-erase j id c.pending, eq_iff j id, x.entry);
      first = x.first;
      second = x.second;
    }

    -- The channel of another ID is another channel.
    offer-IsOpen :
        (j bytes : String) (n m : ℕ) (c : Client) (calls : Dict ℕ)
        → j ≢ id
        → IsMatched request_id c calls
        → lookup j c.pending ≡ some n
        → IsOpen id m c.channels
        → IsOpen id m (offer (received bytes) n c.channels)
    unfolding put_at
    offer-IsOpen j bytes n m c calls other matched there (ch, at, own, empty) =
        elim (Bool-cases (eqb n m)) [
          | inl same ↦
              let (ch', at', own') = matched.pending_own j n there in
              let e = eqb→eq n m same in
              let one = some-injective ch ch' (sym at ∙ ap (get_elem? c.channels) (sym e) ∙ at') in
              absurd (other (sym own' ∙ ap (λ x. x.owner) (sym one) ∙ own))
          | inr apart ↦
              (ch, rw (get_elem?-offer (received bytes) n m c.channels, apart, at) refl, own, empty)
        ]

    deliver-IsCrossed :
        (j bytes : String) (c : Client) (calls : Dict ℕ)
        → j ≢ id
        → IsMatched request_id c calls
        → IsCrossed id a b c
        → IsCrossed id a b (deliver j bytes c)
    unfolding deliver
    deliver-IsCrossed j bytes c calls other m x = elim (Option-cases (lookup j c.pending)) [
      | inl absent ↦ rw (deliver, absent) x
      | inr (n, there) ↦
          rw (deliver, there)
            (record {
              entry = x.entry;
              first = offer-IsOpen j bytes n a c calls other m there x.first;
              second = offer-IsOpen j bytes n b c calls other m there x.second;
            })
    ]

    message-IsCrossed :
        (j : ParsedId) (bytes : String) (c d : Client) (calls : Dict ℕ)
        → j ≢ keyed id
        → handle_message j bytes c ≡ some d
        → IsMatched request_id c calls
        → IsCrossed id a b c
        → IsCrossed id a b d
    unfolding handle_message
    message-IsCrossed invalid_json bytes c d calls other e m x =
        subst (IsCrossed id a b) (some-injective c d e) x
    message-IsCrossed unhashable bytes c d calls other e m x = cc
    message-IsCrossed (keyed j) bytes c d calls other e m x =
        subst (IsCrossed id a b) (some-injective _ d e)
          (deliver-IsCrossed j bytes c calls (λ same. other (ap keyed same)) m x)

    kept-IsCrossed :
        (c d : Client)
        → c.channels ≡ d.channels
        → c.pending ≡ d.pending
        → IsCrossed id a b c
        → IsCrossed id a b d
    kept-IsCrossed c d e f x = record {
      entry = subst (λ p. lookup id p ≡ some b) f x.entry;
      first = subst (IsOpen id a) e x.first;
      second = subst (IsOpen id b) e x.second;
    }

    event-IsCrossed :
        (event bytes : String) (c d : Client) (calls : Dict ℕ)
        → request_id bytes ≢ keyed id
        → handle_event request_id event bytes c ≡ some d
        → IsMatched request_id c calls
        → IsCrossed id a b c
        → IsCrossed id a b d
    unfolding set_endpoint
    event-IsCrossed event bytes c d calls other e m x =
        elim (event_cases request_id event bytes c d e) [
          | inl endpoint ↦
              subst (IsCrossed id a b) endpoint
                (kept-IsCrossed c (set_endpoint bytes c) refl refl x)
          | inr (inl message) ↦
              message-IsCrossed (request_id bytes) bytes c d calls other message m x
          | inr (inr ignored) ↦ subst (IsCrossed id a b) ignored x
        ]

    Step-IsCrossed :
        {c d : Client} {calls calls' : Dict ℕ} (s : Step request_id c calls d calls')
        → IsAside id s
        → IsMatched request_id c calls
        → IsCrossed id a b c
        → IsCrossed id a b d
    Step-IsCrossed {c} (registered j) other m x = register-IsCrossed j c other x
    Step-IsCrossed {c} {calls = calls} (evented event bytes d e) other m x =
        event-IsCrossed event bytes c d calls other e m x
    Step-IsCrossed {c} lost other m x = absurd other
    Step-IsCrossed {c} (cut d e) other m x =
        let kept = disconnect_keeps request_id c d e in kept-IsCrossed c d kept.0 kept.1 x
    Step-IsCrossed {c} (connected status) other m x =
        let kept = connect_keeps request_id status c in kept-IsCrossed c _ kept.0 kept.1 x
    Step-IsCrossed {c} (ended before j n after e) other m x = release-IsCrossed j c other x

  Aside-Reach :
      {url id : String} {c : Client} {calls : Dict ℕ} {d : Client} {calls' : Dict ℕ}
      → Reach request_id url c calls
      → Aside id c calls d calls'
      → Reach request_id url d calls'
  Aside-Reach r at_once = r
  Aside-Reach r (after_step l s quiet) = next (Aside-Reach r l) s

  Aside-IsCrossed :
      {url id : String} {c : Client} {calls : Dict ℕ} {d : Client} {calls' : Dict ℕ} (a b : ℕ)
      → Reach request_id url c calls
      → Aside id c calls d calls'
      → IsCrossed id a b c
      → IsCrossed id a b d
  Aside-IsCrossed a b r at_once x = x
  Aside-IsCrossed {id = id} a b r (after_step l s quiet) x =
      Step-IsCrossed id a b s quiet (Reach-IsMatched request_id (Aside-Reach r l))
        (Aside-IsCrossed a b r l x)

  registered_again :
      {url : String} {c : Client} {calls : Dict ℕ} (id : String) (a : ℕ) (ch : Channel)
      → Reach request_id url c calls
      → lookup id c.pending ≡ some a
      → get_elem? c.channels a ≡ some ch
      → ch.content ≡ none
      → IsCrossed id a (length c.channels) (register id c)
  unfolding register
  registered_again {c = c} {calls} id a ch r there at empty =
      let (ch', at', own) = (Reach-IsMatched request_id r).pending_own id a there in
      let one = some-injective ch' ch (sym at' ∙ at) in
      record {
        entry = lookup-insert id id (length c.channels) c.pending ∙ rw (eq_refl id) refl;
        first =
            append-IsOpen id a c.channels (new_channel id)
              (ch, at, ap (λ x. x.owner) (sym one) ∙ own, empty);
        second =
            (new_channel id, get_elem?-append_length c.channels [] (new_channel id), refl, refl);
      }

  crossed_delivery :
      (id bytes : String) (a b : ℕ) (c : Client)
      → a < b
      → IsCrossed id a b c
      → (wake answered a (deliver id bytes c) ≡ none)
        × (wake answered b (deliver id bytes c) ≡ some (got bytes))
  unfolding put_at
  crossed_delivery id bytes a b c apart x =
      let (first, at_first, _, none_first) = x.first in
      let (second, at_second, _, none_second) = x.second in
      let other : eqb b a ≡ false = ground arith in
      (
        wake_empty request_id a (deliver id bytes c) first
            (deliver_at request_id id bytes b a c x.entry ∙ rw (other, at_first) refl) none_first,
        Holds-wake request_id b bytes (deliver id bytes c)
            (deliver-Holds_own request_id id bytes b second c x.entry at_second none_second),
      )

  -- If a call begins with the ID of one that is under way, has its entry and no response yet, then after any steps of calls and events with other IDs, as long as the connection is not lost, the next response with that ID goes to the second call, and the first is left without one.
  pub register-crossed :
      {url : String} {c d : Client} {calls calls' : Dict ℕ} (id bytes : String) (a : ℕ)
      (ch : Channel)
      → Reach request_id url c calls
      → lookup id c.pending ≡ some a
      → get_elem? c.channels a ≡ some ch
      → ch.content ≡ none
      → Aside id (register id c) ((id, length c.channels) ∷ calls) d calls'
      → request_id bytes ≡ keyed id
      → (handle_event request_id "message" bytes d ≡ some (deliver id bytes d))
        × (wake answered a (deliver id bytes d) ≡ none)
        × (wake answered (length c.channels) (deliver id bytes d) ≡ some (got bytes))
  register-crossed {c = c} {d} id bytes a ch r there at empty aside own =
      let second = length c.channels in
      let crossed =
        Aside-IsCrossed a second (next r (registered id)) aside
          (registered_again id a ch r there at empty) in
      let (first_waits, second_gets) =
        crossed_delivery id bytes a second d (get_elem?-lt c.channels a ch at) crossed in
      (deliver-keyed request_id id bytes d own, first_waits, second_gets)
