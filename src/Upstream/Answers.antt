-- ===== src/Upstream/Answers.antt =====
-- Which channels hold an answer, and which calls are left.
use mcp_proxy.Prelude.{
  eq_refl, Bool-cases, Dict, Distinct, List, Option-cases, String, [], arith, eq_iff, eqb, false,
  get_elem?, get_elem?-append_left, inl, inr, lookup, refl, some, subst, sym, true, ℕ, ◌++◌, ◌==◌,
  ◌≡◌, ◌∷◌,
}
use mathlib.Core.Option.{some-injective}
use mcp_proxy.Upstream.Channels.{OwnedBy, offer-OwnedBy, get_elem?-offer, put_at}
use mcp_proxy.Upstream.{Channel, Response, disconnected, fail_all, offer, put}

pub eqb_refl : (a : ℕ) → eqb a a ≡ true
eqb_refl a = ground arith

-- The channel at an address holds a response.
abbrev pub Answered : List Channel → ℕ → Type 0
Answered chs a =
    (ch : Channel) × (r : Response) × (get_elem? chs a ≡ some ch) × (ch.content ≡ some r)

pub offer-Answered :
    (r : Response) (b a : ℕ) (chs : List Channel) → Answered chs a → Answered (offer r b chs) a
unfolding put_at put
offer-Answered r b a chs (ch, old, at, full) = elim (Bool-cases (eqb b a)) [
  | inl same ↦ (ch, old, rw (get_elem?-offer r b a chs, same, at) (ground arith), full)
  | inr other ↦ (ch, old, rw (get_elem?-offer r b a chs, other, at) refl, full)
]

pub offer_self-Answered :
    (r : Response) (a : ℕ) (chs : List Channel) (ch : Channel)
    → get_elem? chs a ≡ some ch
    → Answered (offer r a chs) a
unfolding put_at put
offer_self-Answered r a chs ch at = elim (Option-cases ch.content) [
  | inl empty ↦ (put r ch, r, rw (get_elem?-offer r a a chs, eqb_refl a, at) refl, ground arith)
  | inr (old, full) ↦ offer-Answered r a a chs (ch, old, at, full)
]

pub fail_all-Answered :
    (pending : Dict ℕ) (a : ℕ) (chs : List Channel)
    → Answered chs a
    → Answered (fail_all pending chs) a
unfolding fail_all
fail_all-Answered [] a chs h = h
fail_all-Answered ((id, b) ∷ rest) a chs h =
    fail_all-Answered rest a (offer disconnected b chs) (offer-Answered disconnected b a chs h)

-- After a disconnect every entry has its answer.
pub failed-Answered :
    (pending : Dict ℕ) (id : String) (a : ℕ) (chs : List Channel)
    → lookup id pending ≡ some a
    → OwnedBy chs (id, a)
    → Answered (fail_all pending chs) a
unfolding fail_all lookup
failed-Answered [] id a chs h own = cc
failed-Answered ((j, b) ∷ rest) id a chs h own = elim (Bool-cases (j == id)) [
  | inl same ↦
      let one = some-injective b a (rw same at h) in
      fail_all-Answered rest a (offer disconnected b chs) (
        subst (λ x. Answered (offer disconnected x chs) a) (sym one)
          (offer_self-Answered disconnected a chs own.0 own.1))
  | inr other ↦
      failed-Answered rest id a (offer disconnected b chs) (rw other at h)
        (offer-OwnedBy disconnected b chs (id, a) own)
]

pub append-Answered :
    (x : Channel) (a : ℕ) (chs : List Channel) → Answered chs a → Answered (chs ++ x ∷ []) a
append-Answered x a chs (ch, r, at, full) =
    (ch, r, get_elem?-append_left chs (x ∷ []) a ch at, full)

pub lookup_middle :
    (before : Dict ℕ) (id : String) (a : ℕ) (after : Dict ℕ)
    → (b : ℕ) × (lookup id (before ++ (id, a) ∷ after) ≡ some b)
unfolding lookup
lookup_middle [] id a after = (a, rw (eq_refl id) refl)
lookup_middle ((i, c) ∷ before) id a after =
    let (b, found) = lookup_middle before id a after in
    elim (Bool-cases (i == id)) [ inl same ↦ (c, rw same refl) | inr other ↦ (b, rw other found) ]

-- Another call than the one that ends.
pub lookup_other :
    (before : Dict ℕ) (id : String) (a : ℕ) (after : Dict ℕ) (j : String) (b : ℕ)
    → Distinct (before ++ (id, a) ∷ after)
    → lookup j (before ++ after) ≡ some b
    → (lookup j (before ++ (id, a) ∷ after) ≡ some b) × (id == j ≡ false)
unfolding lookup
lookup_other [] id a after j b u h = ground (arith, eq_iff id j)
lookup_other ((i, c) ∷ before) id a after j b u h =
    let (found, there) = lookup_middle before id a after in
    ground (arith, lookup_other before id a after j b u.1, eq_iff i j, eq_iff id j)
