-- ===== src/Manager/Race.antt =====
-- `Delete` running between the moment when `cleanup` loads an entry and the moment when it acts
-- on it: `cleanup` finds the session closed and counts it down a second time.
use mcp_proxy.Prelude.Maps.{erase_absent, lookup-erase}
use mcp_proxy.Prelude.Int.{int_laws, pos, ℤ, ◌+ℤ◌, ◌-ℤ◌}
use mcp_proxy.Prelude.{String, arith, eq_refl, length, lookup, none, some, true, ℕ, ◌≡◌}
use mcp_proxy.Manager.{Manager, cleanup_visit, delete, deref, drop_entry}
use mcp_proxy.Manager.Invariant.{IsValid, delete-IsValid, delete_parts}
use mcp_proxy.Session.{Session, close, is_closed}

-- `cleanup` acts on the entry of `id`, which it loaded before `Delete(id)` ran.
unfoldable pub raced : ℕ → String → ℕ → Manager → Manager
raced now id a m = cleanup_visit now (id, a) (delete id m)

closed_after : (s : Session) → is_closed (close s) ≡ true
unfolding is_closed close
closed_after s = ground arith

visit_closed :
    (now : ℕ) (id : String) (a : ℕ) (s : Session) (m : Manager)
    → deref m a ≡ some s
    → is_closed s ≡ true
    → cleanup_visit now (id, a) m ≡ drop_entry id m
unfolding cleanup_visit
visit_closed now id a s m at closed = rw (at, cleanup_visit, closed)

count_down : (c : ℤ) (n : ℕ) → c ≡ pos n → c -ℤ pos 1 +ℤ pos 1 ≡ pos n
count_down c n e = rw e (omega int_laws)

-- In a valid state, if `delete` runs after `cleanup` has loaded the entry and before it acts on it, the entries are those that the deletion left, and the counter ends one less than their number.
pub raced_miscounts :
    (now : ℕ) (id : String) (a : ℕ) (m : Manager)
    → IsValid m
    → lookup id m.sessions ≡ some a
    → ((raced now id a m).sessions ≡ (delete id m).sessions)
      × ((raced now id a m).active_count +ℤ pos 1 ≡ pos (length (delete id m).sessions))
unfolding raced drop_entry
raced_miscounts now id a m v here =
    let (s, at, _) = v.stored id a here in
    let (left, _, closed) = delete_parts id a s m here at in
    rw (visit_closed now id a (close s) (delete id m) closed (closed_after s))
      (erase_absent id (delete id m).sessions gone, count_down _ _ (delete-IsValid id m v).counted)
  where
    gone : lookup id (delete id m).sessions ≡ none
    gone =
        let (s, at, _) = v.stored id a here in
        rw (delete_parts id a s m here at).0
          (ground (arith, lookup-erase id id m.sessions, eq_refl id))
