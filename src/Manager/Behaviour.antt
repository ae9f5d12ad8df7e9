-- ===== src/Manager/Behaviour.antt =====
-- What the single operations of the manager do, on each branch.
use mcp_proxy.Prelude.Maps.{lookup-erase, lookup-insert}
use mcp_proxy.Prelude.Int.{leb_ℤ}
use mcp_proxy.Prelude.{
  Bool-cases, Option-cases, String, [], arith, eq_iff, eq_refl, false, get_elem?-append_length,
  if◌then◌else◌, inl, inr, length, lookup, none, some, true, ℕ, ◌==◌, ◌≡◌, ◌≢◌, ◌⊎◌,
}
use mcp_proxy.Manager.Invariant.{IsValid, delete_parts}
use mcp_proxy.Manager.{
  Manager, add_session, create, delete, deref, err, get, get_object, max_sessions_reached, ok,
  session_id,
}
use mcp_proxy.Session.{Session, close, is_closed, new_session}

lookup-created :
    (uuid j : String) (now : ℕ) (m : Manager)
    → lookup j (add_session uuid now m).sessions
      ≡ (if session_id uuid == j then some (length m.heap) else lookup j m.sessions)
unfolding add_session
lookup-created uuid j now m = lookup-insert (session_id uuid) j (length m.heap) m.sessions

deref-created :
    (uuid : String) (now : ℕ) (m : Manager)
    → deref (add_session uuid now m) (length m.heap) ≡ some (new_session (session_id uuid) now)
unfolding add_session
deref-created uuid now m = get_elem?-append_length m.heap [] (new_session (session_id uuid) now)

get-created :
    (uuid : String) (now : ℕ) (m : Manager)
    → get (session_id uuid) (add_session uuid now m)
      ≡ (add_session uuid now m, some (length m.heap))
unfolding get new_session
get-created uuid now m =
    let there = lookup-created uuid (session_id uuid) now m in
    ground (arith, there, eq_refl (session_id uuid), deref-created uuid now m)

-- Either the limit is reached, and nothing has changed, or the new session is there.
abbrev pub CreateOutcome : String → ℕ → Manager → Type 0
CreateOutcome uuid now m =
    (leb_ℤ m.max_sessions m.active_count ≡ true)
      × (create uuid now m ≡ (m, err max_sessions_reached))
    ⊎ (leb_ℤ m.max_sessions m.active_count ≡ false)
      × ((create uuid now m).1 ≡ ok (length m.heap))
      × (deref (create uuid now m).0 (length m.heap) ≡ some (new_session (session_id uuid) now))
      × (get (session_id uuid) (create uuid now m).0
          ≡ ((create uuid now m).0, some (length m.heap)))
      × ((j : String)
          → session_id uuid ≢ j
          → lookup j (create uuid now m).0.sessions ≡ lookup j m.sessions)

-- At the limit `create` fails and changes nothing. Below it `create` returns a new address, at which there is an open session under the new ID with no request counted; `get` finds it, and no other ID is affected.
pub create_lem : (uuid : String) (now : ℕ) (m : Manager) → CreateOutcome uuid now m
unfolding create
create_lem uuid now m = elim (Bool-cases (leb_ℤ m.max_sessions m.active_count)) [
  | inl e ↦ inl (e, rw e)
  | inr e ↦ inr (
    e,
    rw e,
    rw e (deref-created uuid now m),
    rw e (get-created uuid now m),
    rw e (λ j ne. ground (arith, lookup-created uuid j now m, eq_iff (session_id uuid) j)),
  )
]

-- `id` is gone, its session at `a` is closed, and the other entries are there.
abbrev pub Deleted : String → ℕ → Session → Manager → Type 0
Deleted id a s m =
    ((get id (delete id m)).1 ≡ none)
    × (deref (delete id m) a ≡ some (close s))
    × ((j : String) → id ≢ j → lookup j (delete id m).sessions ≡ lookup j m.sessions)

-- `delete` of an ID that is there closes its session for everyone who holds the pointer; the ID is not found any more, and every other entry stays.
pub delete_lem :
    (id : String) (a : ℕ) (s : Session) (m : Manager)
    → lookup id m.sessions ≡ some a
    → deref m a ≡ some s
    → Deleted id a s m
unfolding get
delete_lem id a s m at s_at =
    let (left, _, closed) = delete_parts id a s m at s_at in
    (
      ground (arith, lookup-erase id id m.sessions, eq_refl id),
      closed,
      λ j ne. rw left (ground (arith, lookup-erase id j m.sessions, eq_iff id j)),
    )

-- An open session under the ID is found and nothing has changed, or the ID is not in the map.
abbrev pub GetOutcome : String → Manager → Type 0
GetOutcome id m =
    ((a : ℕ) × (s : Session) × (get id m ≡ (m, some a))
      × (deref m a ≡ some s)
      × (s.id ≡ id)
      × (is_closed s ≡ false))
    ⊎ ((get id m).1 ≡ none) × (lookup id (get id m).0.sessions ≡ none)

-- In a valid state `get` returns only a session that is open and carries the ID asked for, and then changes nothing; when it returns none, the ID is not in the map afterwards.
pub get_lem : (id : String) (m : Manager) → IsValid m → GetOutcome id m
unfolding get
get_lem id m v = elim (Option-cases (lookup id m.sessions)) [
  | inl e ↦ inr (rw (e, get), rw (e, get) e)
  | inr (a, e) ↦
      let (s, at, named) = v.stored id a e in
      elim (Bool-cases (is_closed s)) [
        | inl c ↦ inr (
          rw (e, get, at, get_object, c),
          rw (e, get, at, get_object, c)
              (rw (delete_parts id a s m e at).0
                (ground (arith, lookup-erase id id m.sessions, eq_refl id))),
        )
        | inr c ↦ inl (a, s, rw (e, get, at, get_object, c), at, named, c)
      ]
]
