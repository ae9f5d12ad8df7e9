-- ===== src/Manager/Cleanup.antt =====
-- `cleanup` visits every entry and removes exactly those whose session is stale.
use mcp_proxy.Prelude.Maps.{lookup-erase}
use mcp_proxy.Prelude.{
  Bool, Bool-cases, Dict, Distinct, Option, Option-cases, String, [], ap, arith, eq_iff, eq_refl,
  false, if◌then◌else◌, inl, inr, lookup, none, refl, some, sym, true, ℕ, ◌==◌, ◌||◌, ◌∙◌, ◌∷◌, ◌≡◌,
  ◌≢◌, ◌⊎◌,
}
use mcp_proxy.Manager.{
  Manager, cleanup, cleanup_range, cleanup_visit, deref, drop_entry, is_stale, modify,
}
use mcp_proxy.Manager.Invariant.{IsValid, deref-modify_ne, drop-IsValid, drop_closed-IsValid}
use mcp_proxy.Session.{Session, close}

-- What `cleanup` leaves of an entry at address `a`.
abbrev pub kept : ℕ → ℕ → ℕ → Option Session → Option ℕ
kept now ttl a none = none
kept now ttl a (some s) = if is_stale now ttl s then none else some a

abbrev pub survivor : ℕ → Manager → ℕ → Option ℕ
survivor now m a = kept now m.session_ttl a (deref m a)

abbrev pub survivors : ℕ → Manager → Option ℕ → Option ℕ
survivors now m none = none
survivors now m (some a) = survivor now m a

-- The entries still to be visited are in the map.
abbrev Pending : Dict ℕ → Manager → Type 0
Pending es m = (j : String) (b : ℕ) → lookup j es ≡ some b → lookup j m.sessions ≡ some b

lookup-drop_self : (key : String) (n : Manager) → lookup key (drop_entry key n).sessions ≡ none
unfolding drop_entry
lookup-drop_self key n = ground (arith, lookup-erase key key n.sessions, eq_refl key)

-- Three tests in a row that end in `x`, `y` and `y`, and else in `z`.
triage :
    (b c d : Bool) (x y z : Manager)
    → ((b || c || d) ≡ false) × ((if b then x else if c then y else if d then y else z) ≡ z)
      ⊎ ((b || c || d) ≡ true)
        × (((if b then x else if c then y else if d then y else z) ≡ x)
            ⊎ ((if b then x else if c then y else if d then y else z) ≡ y))
triage true c d x y z = inr (refl, inl refl)
triage false true d x y z = inr (refl, inr refl)
triage false false true x y z = inr (refl, inr refl)
triage false false false x y z = inl (refl, refl)

module _ (now : ℕ) (key : String) (a : ℕ) (m : Manager) where
  -- The three things that a visit can come to.
  abbrev Visited : Session → Type 0
  Visited s =
      (is_stale now m.session_ttl s ≡ false) × (cleanup_visit now (key, a) m ≡ m)
      ⊎ (is_stale now m.session_ttl s ≡ true)
        × ((cleanup_visit now (key, a) m ≡ drop_entry key m)
            ⊎ (cleanup_visit now (key, a) m ≡ drop_entry key (modify a close m)))

  visit_cases : (s : Session) → deref m a ≡ some s → Visited s
  unfolding cleanup_visit
  visit_cases s at_a = rw (at_a, cleanup_visit) (triage _ _ _ _ _ _)

  pub visit-IsValid :
      IsValid m → lookup key m.sessions ≡ some a → IsValid (cleanup_visit now (key, a) m)
  visit-IsValid v here =
      let (s, at_a, named) = v.stored key a here in
      elim (visit_cases s at_a) [
        | inl (_, e) ↦ rw e v
        | inr (_, inl e) ↦ rw e (drop-IsValid key a m v here)
        | inr (_, inr e) ↦ rw e (drop_closed-IsValid key a m v here)
      ]

  visit_other :
      (j : String)
      → key ≢ j
      → lookup j (cleanup_visit now (key, a) m).sessions ≡ lookup j m.sessions
  unfolding cleanup_visit drop_entry modify
  visit_other j ne = ground (arith, lookup-erase key j m.sessions, eq_iff key j)

  visit_self :
      IsValid m
      → lookup key m.sessions ≡ some a
      → lookup key (cleanup_visit now (key, a) m).sessions ≡ survivor now m a
  visit_self v here =
      let (s, at_a, named) = v.stored key a here in
      elim (visit_cases s at_a) [
        | inl (fresh, e) ↦ rw (e, at_a, fresh) here
        | inr (stale, inl e) ↦ rw (e, at_a, stale) (lookup-drop_self key m)
        | inr (stale, inr e) ↦ rw (e, at_a, stale) (lookup-drop_self key (modify a close m))
      ]

  visit_ttl : (cleanup_visit now (key, a) m).session_ttl ≡ m.session_ttl
  unfolding cleanup_visit drop_entry modify
  visit_ttl = ground arith

  visit_deref : (b : ℕ) → a ≢ b → deref (cleanup_visit now (key, a) m) b ≡ deref m b
  unfolding cleanup_visit drop_entry
  visit_deref b ne = ground (arith, deref-modify_ne close m a b ne)

-- Entries under other keys are at other addresses.
apart :
    (m : Manager) (k j : String) (a b : ℕ)
    → IsValid m
    → lookup k m.sessions ≡ some a
    → lookup j m.sessions ≡ some b
    → k ≢ j
    → a ≢ b
apart m k j a b v at_k at_j ne same =
    let (s, s_at, s_id) = v.stored k a at_k in
    let (t, t_at, t_id) = v.stored j b at_j in
    let q : s ≡ t = cc in ne (sym s_id ∙ ap (λ (x : Session). x.id) q ∙ t_id)

-- The entry of `j` after a round over `es`.
abbrev after_round : ℕ → Manager → Option ℕ → Option ℕ → Option ℕ
after_round now m none old = old
after_round now m (some b) old = survivor now m b

survivor-visit :
    (now : ℕ) (key : String) (a b : ℕ) (m : Manager)
    → a ≢ b
    → survivor now (cleanup_visit now (key, a) m) b ≡ survivor now m b
survivor-visit now key a b m ne = rw (visit_ttl now key a m, visit_deref now key a m b ne)

round_step :
    (now : ℕ) (key j : String) (a : ℕ) (es : Dict ℕ) (m : Manager)
    → IsValid m
    → lookup key es ≡ none
    → Pending ((key, a) ∷ es) m
    → let m' = cleanup_visit now (key, a) m in
      after_round now m' (lookup j es) (lookup j m'.sessions)
      ≡ after_round now m (lookup j ((key, a) ∷ es)) (lookup j m.sessions)
unfolding lookup
round_step now key j a es m v d p = elim (Bool-cases (key == j)) [
  | inl e ↦
      let same : key ≡ j = (eq_iff key j).0 e in
      rw (e, ← same, d) (visit_self now key a m v (p key a (rw (eq_refl key))))
  | inr e ↦ elim (Option-cases (lookup j es)) [
    | inl h ↦ rw (e, h) (visit_other now key a m j (λ q. ground (arith, eq_iff key j)))
    | inr (b, h) ↦
        rw (e, h)
          (survivor-visit now key a b m (
            apart m key j a b v (p key a (rw (eq_refl key))) (p j b (rw e h))
              (λ q. ground (arith, eq_iff key j))))
  ]
]

Pending-rest :
    (now : ℕ) (key : String) (a : ℕ) (es : Dict ℕ) (m : Manager)
    → lookup key es ≡ none
    → Pending ((key, a) ∷ es) m
    → Pending es (cleanup_visit now (key, a) m)
unfolding lookup
Pending-rest now key a es m d p j b h =
    let ne : key ≢ j = λ q. cc in
    visit_other now key a m j ne ∙ p j b (ground (arith, eq_iff key j))

range_lem :
    (now : ℕ) (es : Dict ℕ) (m : Manager)
    → IsValid m
    → Distinct es
    → Pending es m
    → IsValid (cleanup_range now es m)
      × ((j : String)
          → lookup j (cleanup_range now es m).sessions
            ≡ after_round now m (lookup j es) (lookup j m.sessions))
unfolding cleanup_range lookup
range_lem now [] m v d p = (v, λ j. refl)
range_lem now ((key, a) ∷ es) m v d p =
    let m' = cleanup_visit now (key, a) m in
    let v' = visit-IsValid now key a m v (p key a (rw (eq_refl key))) in
    let (valid, spec) = range_lem now es m' v' d.1 (Pending-rest now key a es m d.0 p) in
    (valid, λ j. spec j ∙ round_step now key j a es m v d.0 p)

pub cleanup-IsValid : (now : ℕ) (m : Manager) → IsValid m → IsValid (cleanup now m)
unfolding cleanup
cleanup-IsValid now m v = (range_lem now m.sessions m v v.distinct (λ j b h. h)).0

-- In a valid state, after a cleanup at `now` an ID leads to the session that it led to before, unless that session was closed, older than the TTL, or idle for more than half of it: then it leads nowhere.
pub lookup-cleanup :
    (now : ℕ) (m : Manager) (id : String)
    → IsValid m
    → lookup id (cleanup now m).sessions ≡ survivors now m (lookup id m.sessions)
unfolding cleanup
lookup-cleanup now m id v = (range_lem now m.sessions m v v.distinct (λ j b h. h)).1 id ∙ settle
  where
    settle :
        after_round now m (lookup id m.sessions) (lookup id m.sessions)
        ≡ survivors now m (lookup id m.sessions)
    settle = ground arith
