-- ===== src/Manager.antt =====
-- internal/session/manager.go: the session manager.
--
-- Sessions are objects that the manager, the transports and the callbacks share by pointer, so
-- `heap` holds every session made, at its address, and the manager's `sync.Map` holds addresses.
-- Each operation here runs without another in between; `Manager.Race` takes one apart. Go's int
-- is ℤ (the counters stay far below 2^63), log output is left out, and one clock reading serves
-- one operation.
pub mod Invariant
pub mod Cleanup
pub mod Behaviour
pub mod Race
pub mod Stopping
pub mod Reach
pub mod Tests
use mcp_proxy.Prelude.{
  Bool, Dict, List, Option, String, [], eqb, erase, false, get_elem?, if◌then◌else◌, insert, length,
  lookup, ltb, none, not, set, some, true, zero, ℕ, ◌*◌, ◌++◌, ◌+◌, ◌/◌, ◌||◌, ◌∷◌,
}
use mcp_proxy.Prelude.Int.{leb_ℤ, pos, ℤ, ◌+ℤ◌, ◌-ℤ◌}
use Prim.Native.String.{◌++◌ as ◌++ˢ◌}
use mcp_proxy.Session.{
  Session, age, close, idle_time, increment_request_count, is_closed, new_session,
}

pub record Manager : Type 0 where
  -- the session objects, by address
  pub heap : List Session
  -- the sync.Map from session IDs to addresses
  pub sessions : Dict ℕ
  pub session_ttl : ℕ
  pub max_sessions : ℤ
  pub active_count : ℤ
  pub total_created : ℕ
  -- whether `done` has been closed
  pub done : Bool

-- ManagerConfig; `CleanupInterval` is not read by `Start`, which ticks once a minute.
pub record ManagerConfig : Type 0 where
  pub session_ttl : ℕ
  pub cleanup_interval : ℕ
  pub max_sessions : ℤ

abbrev pub second : ℕ
second = 1000000000

abbrev pub minute : ℕ
minute = 60 * second

abbrev pub hour : ℕ
hour = 60 * minute

unfoldable pub default_manager_config : ManagerConfig
default_manager_config = record {
  session_ttl = 2 * hour;
  cleanup_interval = minute;
  max_sessions = pos 10000;
}

is_zero : ℤ → Bool
is_zero (pos zero) = true
is_zero _ = false

with_defaults : ManagerConfig → ManagerConfig
unfolding is_zero
with_defaults cfg = record {
  session_ttl = if eqb cfg.session_ttl 0 then 2 * hour else cfg.session_ttl;
  cleanup_interval = if eqb cfg.cleanup_interval 0 then minute else cfg.cleanup_interval;
  max_sessions = if is_zero cfg.max_sessions then pos 10000 else cfg.max_sessions;
}

unfoldable pub new_manager : ManagerConfig → Manager
unfolding with_defaults
new_manager cfg = record {
  heap = [];
  sessions = [];
  session_ttl = (with_defaults cfg).session_ttl;
  max_sessions = (with_defaults cfg).max_sessions;
  active_count = pos 0;
  total_created = 0;
  done = false;
}

pub data SessionError : Type 0 where
  max_sessions_reached session_not_found : SessionError

pub data Result {ℓ} (A : Type ℓ) : Type ℓ where
  ok : A → Result A
  err : SessionError → Result A

-- The session at an address.
abbrev pub deref : Manager → ℕ → Option Session
deref m a = get_elem? m.heap a

-- A write through the pointer `a`.
unfoldable pub modify : ℕ → (Session → Session) → Manager → Manager
modify a f m = elim (get_elem? m.heap a) [
  | none ↦ m
  | some s ↦ record m { heap = set m.heap a (f s) }
]

-- "sess_" + uuid.New().String()
abbrev pub session_id : String → String
session_id uuid = "sess_" ++ˢ uuid

-- A new session, stored and counted.
add_session : String → ℕ → Manager → Manager
add_session uuid now m = record m {
  heap = m.heap ++ new_session (session_id uuid) now ∷ [];
  sessions = insert (session_id uuid) (length m.heap) m.sessions;
  active_count = m.active_count +ℤ pos 1;
  total_created = m.total_created + 1;
}

-- Create, given the UUID that the library draws. The result is the new session's address.
unfoldable pub create : String → ℕ → Manager → Manager × Result ℕ
unfolding add_session
create uuid now m =
    if leb_ℤ m.max_sessions m.active_count
    then (m, err max_sessions_reached)
    else (add_session uuid now m, ok (length m.heap))

-- LoadAndDelete, Close, and the counter.
unfoldable pub delete : String → Manager → Manager
unfolding modify
delete id m = elim (lookup id m.sessions) [
  | none ↦ m
  | some a ↦
      let closed = modify a close (record m { sessions = erase id m.sessions }) in
      record closed { active_count = closed.active_count -ℤ pos 1 }
]

get_object : String → ℕ → Option Session → Manager → Manager × Option ℕ
get_object id a none m = (m, none)
get_object id a (some s) m = if is_closed s then (delete id m, none) else (m, some a)

-- A closed session that is still in the map is removed on the way.
unfoldable pub get : String → Manager → Manager × Option ℕ
unfolding get_object is_closed
get id m = elim (lookup id m.sessions) [ none ↦ (m, none) | some a ↦ get_object id a (deref m a) m ]

count_request : ℕ → ℕ → Option Session → Manager → Manager × ℕ
unfolding increment_request_count
count_request now a none m = (m, 0)
count_request now a (some s) m =
    let (s', n) = increment_request_count now s in (record m { heap = set m.heap a s' }, n)

-- IncrementRequestCount of the manager: 0 for a session that is not there.
unfoldable pub increment_request : String → ℕ → Manager → Manager × ℕ
unfolding count_request
increment_request id now m =
    let (m', found) = get id m in
    elim found [ none ↦ (m', 0) | some a ↦ count_request now a (deref m' a) m' ]

-- Delete(key), then the counter.
unfoldable pub drop_entry : String → Manager → Manager
drop_entry key m = record m {
  sessions = erase key m.sessions;
  active_count = m.active_count -ℤ pos 1;
}

-- What `cleanup` does with a session object: closed, too old, idle too long, or to be kept.
abbrev pub is_stale : ℕ → ℕ → Session → Bool
is_stale now ttl s = is_closed s || ltb ttl (age now s) || ltb (ttl / 2) (idle_time now s)

visit_object : ℕ → String → ℕ → Option Session → Manager → Manager
unfolding drop_entry modify
visit_object now key a none m = record m { sessions = erase key m.sessions }
visit_object now key a (some s) m =
    if is_closed s
    then drop_entry key m
    else if ltb m.session_ttl (age now s)
    then drop_entry key (modify a close m)
    else if ltb (m.session_ttl / 2) (idle_time now s)
    then drop_entry key (modify a close m)
    else m

-- The callback of `Range` in `cleanup`, at one entry that `Range` has loaded.
unfoldable pub cleanup_visit : ℕ → String × ℕ → Manager → Manager
unfolding visit_object
cleanup_visit now (key, a) m = visit_object now key a (deref m a) m

unfoldable pub cleanup_range : ℕ → Dict ℕ → Manager → Manager
unfolding cleanup_visit
cleanup_range now [] m = m
cleanup_range now (e ∷ entries) m = cleanup_range now entries (cleanup_visit now e m)

unfoldable pub cleanup : ℕ → Manager → Manager
unfolding cleanup_range
cleanup now m = cleanup_range now m.sessions m

unfoldable pub stop_range : Dict ℕ → Manager → Manager
unfolding modify
stop_range [] m = m
stop_range ((key, a) ∷ entries) m =
    let closed = modify a close m in
    stop_range entries (record closed { sessions = erase key m.sessions })

-- Closing a closed channel panics, which is `none`. The counter is left as it is.
unfoldable pub stop : Manager → Option Manager
unfolding stop_range
stop m = if m.done then none else some (stop_range m.sessions (record m { done = true }))

is_listed : Option Session → Bool
is_listed none = false
is_listed (some s) = not (is_closed s)

list_range : Manager → Dict ℕ → List ℕ
unfolding is_listed
list_range m [] = []
list_range m ((key, a) ∷ entries) =
    let rest = list_range m entries in if is_listed (deref m a) then a ∷ rest else rest

-- List: the addresses of the open sessions.
unfoldable pub list_sessions : Manager → List ℕ
unfolding list_range
list_sessions m = list_range m m.sessions
