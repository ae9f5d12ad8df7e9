-- ===== src/Upstream/Channels.antt =====
-- What the operations do to the channels of the calls.
use mathlib.Core.Option.{some-injective}
use mcp_proxy.Prelude.{
  subst, Bool, Bool-cases, Option-cases, Dict, List, Option, String, [], arith, eqb, false,
  get_elem?, get_elem?-append_left, get_elem?-set_ne, get_elem?-set_self, inl, inr, none, refl,
  some, suc, sym, true, zero, ℕ, ◌++◌, ◌≡◌, ◌∙◌, ◌∷◌, ◌⊎◌,
}
use mcp_proxy.Upstream.{
  Channel, Decoder, Response, disconnected, fail_all, keyed, new_channel, offer, put, received,
}

pub eqb→eq : (a b : ℕ) → eqb a b ≡ true → a ≡ b
eqb→eq a b h = ground arith

get_elem?-snoc :
    (chs : List Channel) (x : Channel) (a : ℕ) (y : Channel)
    → get_elem? (chs ++ x ∷ []) a ≡ some y
    → (get_elem? chs a ≡ some y) ⊎ (x ≡ y)
get_elem?-snoc [] x zero y h = inr (some-injective x y h)
get_elem?-snoc [] x (suc a) y h = cc
get_elem?-snoc (ch ∷ chs) x zero y h = inl h
get_elem?-snoc (ch ∷ chs) x (suc a) y h = get_elem?-snoc chs x a y h

-- What `offer` leaves at each address.
unfoldable pub put_at : Bool → Response → Option Channel → Option Channel
unfolding put
put_at true r (some ch) = some (put r ch)
put_at _ r o = o

pub get_elem?-offer :
    (r : Response) (a b : ℕ) (chs : List Channel)
    → get_elem? (offer r a chs) b ≡ put_at (eqb a b) r (get_elem? chs b)
unfolding offer put_at
get_elem?-offer r a b chs = elim (Option-cases (get_elem? chs a)) [
  | inl absent ↦ ground arith
  | inr (ch, there) ↦ ground (
    arith,
    get_elem?-set_self chs a (put r ch) ch,
    get_elem?-set_ne chs {i = a} {j = b} (put r ch),
  )
]

module _ (request_id : Decoder) where
  -- What a channel holds carries the ID of the channel's owner.
  abbrev pub IsOwn : Channel → Type 0
  IsOwn ch =
      (bytes : String) → ch.content ≡ some (received bytes) → request_id bytes ≡ keyed ch.owner

  abbrev pub AllOwn : List Channel → Type 0
  AllOwn chs = (a : ℕ) (ch : Channel) → get_elem? chs a ≡ some ch → IsOwn ch

  put-IsOwn :
      (r : Response) (ch : Channel)
      → ((bytes : String) → r ≡ received bytes → request_id bytes ≡ keyed ch.owner)
      → IsOwn ch
      → IsOwn (put r ch)
  unfolding put
  put-IsOwn r ch fits own bytes e = ground (arith, fits bytes, own bytes)

  put_at-IsOwn :
      (here : Bool) (r : Response) (o : Option Channel) (ch : Channel)
      → ((old : Channel) (bytes : String)
          → here ≡ true
          → o ≡ some old
          → r ≡ received bytes
          → request_id bytes ≡ keyed old.owner)
      → ((old : Channel) → o ≡ some old → IsOwn old)
      → put_at here r o ≡ some ch
      → IsOwn ch
  unfolding put_at
  put_at-IsOwn true r none ch fits own h = cc
  put_at-IsOwn true r (some old) ch fits own h =
      subst IsOwn (some-injective _ _ h)
        (put-IsOwn r old (λ bytes. fits old bytes refl refl) (own old refl))
  put_at-IsOwn false r o ch fits own h = own ch h

  pub offer-AllOwn :
      (r : Response) (a : ℕ) (chs : List Channel)
      → ((ch : Channel) (bytes : String)
          → get_elem? chs a ≡ some ch
          → r ≡ received bytes
          → request_id bytes ≡ keyed ch.owner)
      → AllOwn chs
      → AllOwn (offer r a chs)
  offer-AllOwn r a chs fits own b ch h =
      put_at-IsOwn (eqb a b) r (get_elem? chs b) ch
        (λ old bytes here at. fits old bytes (rw (eqb→eq a b here) at)) (own b)
        (sym (get_elem?-offer r a b chs) ∙ h)

  pub fail_all-AllOwn :
      (pending : Dict ℕ) (chs : List Channel) → AllOwn chs → AllOwn (fail_all pending chs)
  unfolding fail_all
  fail_all-AllOwn [] chs own = own
  fail_all-AllOwn ((id, a) ∷ rest) chs own =
      fail_all-AllOwn rest (offer disconnected a chs)
        (offer-AllOwn disconnected a chs (λ ch bytes at e. cc) own)

  pub append-AllOwn :
      (id : String) (chs : List Channel) → AllOwn chs → AllOwn (chs ++ new_channel id ∷ [])
  append-AllOwn id chs own a ch h = elim (get_elem?-snoc chs (new_channel id) a ch h) [
    | inl old ↦ own a ch old
    | inr new ↦ subst IsOwn new (λ bytes e. cc)
  ]

-- The channel at an address was made by a call with the ID.
abbrev pub OwnedBy : List Channel → String × ℕ → Type 0
OwnedBy chs (id, a) = (ch : Channel) × (get_elem? chs a ≡ some ch) × (ch.owner ≡ id)

pub offer-OwnedBy :
    (r : Response) (b : ℕ) (chs : List Channel) (e : String × ℕ)
    → OwnedBy chs e
    → OwnedBy (offer r b chs) e
unfolding put_at put
offer-OwnedBy r b chs (id, a) (ch, at, own) = elim (Bool-cases (eqb b a)) [
  | inl same ↦ (put r ch, rw (get_elem?-offer r b a chs, same, at) refl, ground arith)
  | inr other ↦ (ch, rw (get_elem?-offer r b a chs, other, at) refl, own)
]

pub fail_all-OwnedBy :
    (pending : Dict ℕ) (chs : List Channel) (e : String × ℕ)
    → OwnedBy chs e
    → OwnedBy (fail_all pending chs) e
unfolding fail_all
fail_all-OwnedBy [] chs e own = own
fail_all-OwnedBy ((id, a) ∷ rest) chs e own =
    fail_all-OwnedBy rest (offer disconnected a chs) e (offer-OwnedBy disconnected a chs e own)

pub append-OwnedBy :
    (ch : Channel) (chs : List Channel) (e : String × ℕ)
    → OwnedBy chs e
    → OwnedBy (chs ++ ch ∷ []) e
append-OwnedBy ch chs (id, a) (old, at, own) =
    (old, get_elem?-append_left chs (ch ∷ []) a old at, own)
