-- ===== src/Upstream/Delivery.antt =====
-- When responses arrive, with one call for each ID under way.
use mcp_proxy.Prelude.{
  Dict, String, arith, eqb, get_elem?, inl, inr, lookup, none, refl, some, sym, ℕ, ◌≡◌, ◌∙◌, ◌⊎◌,
}
use mathlib.Core.Option.{some-injective}
use mcp_proxy.Upstream.Channels.{get_elem?-offer, put_at}
use mcp_proxy.Upstream.{
  HttpStatus, Wake, Result, canceled, context_done, failed, post, post_and_wait, timed_out, timer,
  Channel, Client, Decoder, answer_of, answered, content_of, deliver, got, handle_event,
  handle_message, keyed, put, received, wake,
}
use mcp_proxy.Upstream.Answers.{eqb_refl}
use mcp_proxy.Upstream.Keeping.{Holds, Later, Later-Holds}
use mcp_proxy.Upstream.Waiting.{Careful, Careful-IsWaiting}

module _ (request_id : Decoder) where
  wake_full :
      (a : ℕ) (bytes : String) (c : Client) (ch : Channel)
      → get_elem? c.channels a ≡ some ch
      → ch.content ≡ some (received bytes)
      → wake answered a c ≡ some (got bytes)
  unfolding wake content_of answer_of
  wake_full a bytes c ch at full = ground arith

  pub wake_empty :
      (a : ℕ) (c : Client) (ch : Channel)
      → get_elem? c.channels a ≡ some ch
      → ch.content ≡ none
      → wake answered a c ≡ none
  unfolding wake content_of
  wake_empty a c ch at empty = ground arith

  -- What a channel holds after the delivery at an address.
  pub deliver_at :
      (id bytes : String) (a b : ℕ) (c : Client)
      → lookup id c.pending ≡ some a
      → get_elem? (deliver id bytes c).channels b
        ≡ put_at (eqb a b) (received bytes) (get_elem? c.channels b)
  unfolding deliver
  deliver_at id bytes a b c there =
      rw (deliver, there) (get_elem?-offer (received bytes) a b c.channels)

  pub deliver-keyed :
      (id bytes : String) (c : Client)
      → request_id bytes ≡ keyed id
      → handle_event request_id "message" bytes c ≡ some (deliver id bytes c)
  unfolding handle_event handle_message
  deliver-keyed id bytes c own = rw own refl

  pub Holds-wake :
      (a : ℕ) (bytes : String) (c : Client)
      → Holds a (received bytes) c.channels
      → wake answered a c ≡ some (got bytes)
  Holds-wake a bytes c (ch, at, full) = wake_full a bytes c ch at full

  -- What a call that has its response may return: the response, or that its context is done or its time is up.
  abbrev pub Ended : String → Wake → Result → Type 0
  Ended bytes w result =
      (result ≡ got bytes)
      ⊎ ((w ≡ context_done) × (result ≡ failed canceled))
      ⊎ ((w ≡ timer) × (result ≡ failed timed_out))

  Holds-Ended :
      (a : ℕ) (bytes : String) (c : Client) (w : Wake)
      → Holds a (received bytes) c.channels
      → (result : Result) × (wake w a c ≡ some result) × Ended bytes w result
  unfolding wake
  Holds-Ended a bytes c answered h = (got bytes, Holds-wake a bytes c h, inl refl)
  Holds-Ended a bytes c context_done h = (failed canceled, refl, inr (inl (refl, refl)))
  Holds-Ended a bytes c timer h = (failed timed_out, refl, inr (inr (refl, refl)))

  posted_and_waited :
      (status : HttpStatus) (w : Wake) (a : ℕ) (c : Client)
      → post status ≡ none
      → post_and_wait status w a c ≡ wake w a c
  unfolding post_and_wait
  posted_and_waited status w a c accepted = rw (post_and_wait, accepted) refl

  pub deliver-Holds_own :
      (id bytes : String) (a : ℕ) (ch : Channel) (c : Client)
      → lookup id c.pending ≡ some a
      → get_elem? c.channels a ≡ some ch
      → ch.content ≡ none
      → Holds a (received bytes) (deliver id bytes c).channels
  unfolding put put_at
  deliver-Holds_own id bytes a ch c there at empty = (
    put (received bytes) ch,
    deliver_at id bytes a a c there ∙ rw (eqb_refl a, at) refl,
    ground arith,
  )

  still_pending :
      {url : String} {calls : Dict ℕ} (id : String) (a : ℕ) (ch : Channel) (c : Client)
      → Careful request_id url c calls
      → lookup id calls ≡ some a
      → get_elem? c.channels a ≡ some ch
      → ch.content ≡ none
      → lookup id c.pending ≡ some a
  still_pending id a ch c r under_way at empty =
      elim ((Careful-IsWaiting request_id r).waiting_for id a under_way) [
        | inl there ↦ there
        | inr (ch', answer, at', full) ↦ let one = some-injective ch ch' (sym at ∙ at') in cc
      ]

  -- While no two calls under way have the same ID, however calls, events and disconnects interleave: a response that comes for a call under way that has none yet is delivered, and stays with the call. Whatever steps follow, if the call's POST is accepted, the response is ready for it, and each case that its select may take ends it: with the response, unless the context is done or the time is up.
  pub handle_event-post_and_wait :
      {url : String} {c e : Client} {calls calls' : Dict ℕ} (id bytes : String) (a : ℕ)
      (ch : Channel) (status : HttpStatus) (w : Wake)
      → Careful request_id url c calls
      → lookup id calls ≡ some a
      → get_elem? c.channels a ≡ some ch
      → ch.content ≡ none
      → request_id bytes ≡ keyed id
      → Later request_id (deliver id bytes c) calls e calls'
      → post status ≡ none
      → (handle_event request_id "message" bytes c ≡ some (deliver id bytes c))
        × (post_and_wait status answered a e ≡ some (got bytes))
        × ((result : Result) × (post_and_wait status w a e ≡ some result) × Ended bytes w result)
  handle_event-post_and_wait {c = c} {e} id bytes a ch status w r under_way at empty own later
        accepted =
      let there = still_pending id a ch c r under_way at empty in
      let kept =
        Later-Holds request_id (received bytes) a later
          (deliver-Holds_own id bytes a ch c there at empty) in
      let (result, ready, fine) = Holds-Ended a bytes e w kept in
      (
        deliver-keyed id bytes c own,
        posted_and_waited status answered a e accepted ∙ Holds-wake a bytes e kept,
        (result, posted_and_waited status w a e accepted ∙ ready, fine),
      )
