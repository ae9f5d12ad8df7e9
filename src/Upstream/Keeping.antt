-- ===== src/Upstream/Keeping.antt =====
-- A response stays in its channel.
use mathlib.Core.Option.{some-injective}
use mcp_proxy.Prelude.{
  Bool-cases, Dict, List, Option-cases, String, [], arith, eqb, get_elem?, get_elem?-append_left,
  inl, inr, lookup, refl, some, subst, ℕ, ◌≡◌, ◌∷◌, ◌++◌,
}
use mcp_proxy.Upstream.Channels.{get_elem?-offer, put_at}
use mcp_proxy.Upstream.Matching.{
  connect_keeps, disconnect_keeps, event_cases, failed_all, handle_disconnect_cases,
}
use mcp_proxy.Upstream.Steps.{Step, connected, cut, ended, evented, lost, registered}
use mcp_proxy.Upstream.{
  Channel, Client, Decoder, ParsedId, Response, deliver, disconnected, fail_all, handle_event,
  handle_message, invalid_json, keyed, new_channel, offer, put, received, register, release,
  set_endpoint, unhashable,
}

-- The channel at an address holds the response.
abbrev pub Holds : ℕ → Response → List Channel → Type 0
Holds a r chs = (ch : Channel) × (get_elem? chs a ≡ some ch) × (ch.content ≡ some r)

offer-Holds :
    (new r : Response) (b a : ℕ) (chs : List Channel) → Holds a r chs → Holds a r (offer new b chs)
unfolding put_at put
offer-Holds new r b a chs (ch, at, full) = elim (Bool-cases (eqb b a)) [
  | inl same ↦ (ch, rw (get_elem?-offer new b a chs, same, at) (ground arith), full)
  | inr other ↦ (ch, rw (get_elem?-offer new b a chs, other, at) refl, full)
]

fail_all-Holds :
    (pending : Dict ℕ) (r : Response) (a : ℕ) (chs : List Channel)
    → Holds a r chs
    → Holds a r (fail_all pending chs)
unfolding fail_all
fail_all-Holds [] r a chs h = h
fail_all-Holds ((id, b) ∷ rest) r a chs h =
    fail_all-Holds rest r a (offer disconnected b chs) (offer-Holds disconnected r b a chs h)

append-Holds :
    (x : Channel) (r : Response) (a : ℕ) (chs : List Channel)
    → Holds a r chs
    → Holds a r (chs ++ x ∷ [])
append-Holds x r a chs (ch, at, full) = (ch, get_elem?-append_left chs (x ∷ []) a ch at, full)

module _ (request_id : Decoder) (r : Response) (a : ℕ) where
  deliver-Holds :
      (id bytes : String) (c : Client)
      → Holds a r c.channels
      → Holds a r (deliver id bytes c).channels
  unfolding deliver
  deliver-Holds id bytes c h = elim (Option-cases (lookup id c.pending)) [
    | inl absent ↦ rw (deliver, absent) h
    | inr (b, there) ↦ rw (deliver, there) (offer-Holds (received bytes) r b a c.channels h)
  ]

  message-Holds :
      (id : ParsedId) (bytes : String) (c d : Client)
      → handle_message id bytes c ≡ some d
      → Holds a r c.channels
      → Holds a r d.channels
  unfolding handle_message
  message-Holds invalid_json bytes c d e h =
      subst (λ x. Holds a r x.channels) (some-injective c d e) h
  message-Holds unhashable bytes c d e h = cc
  message-Holds (keyed id) bytes c d e h =
      subst (λ x. Holds a r x.channels) (some-injective _ d e) (deliver-Holds id bytes c h)

  event-Holds :
      (event bytes : String) (c d : Client)
      → handle_event request_id event bytes c ≡ some d
      → Holds a r c.channels
      → Holds a r d.channels
  unfolding set_endpoint
  event-Holds event bytes c d e h = elim (event_cases request_id event bytes c d e) [
    | inl endpoint ↦ subst (λ x. Holds a r x.channels) endpoint h
    | inr (inl message) ↦ message-Holds (request_id bytes) bytes c d message h
    | inr (inr ignored) ↦ subst (λ x. Holds a r x.channels) ignored h
  ]

  Step-Holds :
      {c d : Client} {calls calls' : Dict ℕ}
      → Step request_id c calls d calls'
      → Holds a r c.channels
      → Holds a r d.channels
  unfolding register release failed_all
  Step-Holds {c} (registered id) h = append-Holds (new_channel id) r a c.channels h
  Step-Holds {c} (evented event bytes d e) h = event-Holds event bytes c d e h
  Step-Holds {c} lost h = elim (handle_disconnect_cases request_id c) [
    | inl off ↦ subst (λ x. Holds a r x.channels) off h
    | inr on ↦ subst (λ x. Holds a r x.channels) on (fail_all-Holds c.pending r a c.channels h)
  ]
  Step-Holds {c} (cut d e) h = subst (Holds a r) (disconnect_keeps request_id c d e).0 h
  Step-Holds {c} (connected status) h = subst (Holds a r) (connect_keeps request_id status c).0 h
  Step-Holds {c} (ended before id b after e) h = h

module _ (request_id : Decoder) where
  -- Any steps, of any goroutines.
  pub data Later (c : Client) (calls : Dict ℕ) : Client → Dict ℕ → Type 0 where
    at_once : Later c calls c calls
    after_step :
        {d e : Client} {calls' calls'' : Dict ℕ}
        → Later c calls d calls'
        → Step request_id d calls' e calls''
        → Later c calls e calls''

  pub Later-Holds :
      {c : Client} {calls : Dict ℕ} {d : Client} {calls' : Dict ℕ} (r : Response) (a : ℕ)
      → Later c calls d calls'
      → Holds a r c.channels
      → Holds a r d.channels
  Later-Holds r a at_once h = h
  Later-Holds r a (after_step l s) h = Step-Holds request_id r a s (Later-Holds r a l h)
