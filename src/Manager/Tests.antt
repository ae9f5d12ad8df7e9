-- ===== src/Manager/Tests.antt =====
-- A manager with one session, and the theorems at operations on it.
use mcp_proxy.Prelude.{false, erase, insert, some, none, ◌≡◌, refl, lookup}
use mcp_proxy.Prelude.Int.{pos, ◌+ℤ◌}
use mcp_proxy.Session.{age, idle_time, Session, new_session}
use mcp_proxy.Manager.Stopping.{IsStopped, stop_lem}
use mcp_proxy.Manager.{
  stop, Manager, ManagerConfig, new_manager, create, delete, get, cleanup, deref, increment_request,
}
use mcp_proxy.Manager.Invariant.{IsValid, IsFresh}
use mcp_proxy.Manager.Reach.{Reach, here, next, created, counted, Reach-IsValid}
use mcp_proxy.Manager.Cleanup.{lookup-cleanup}
use mcp_proxy.Manager.Behaviour.{CreateOutcome, create_lem}
use mcp_proxy.Manager.Race.{raced, raced_miscounts}

abbrev one_session : ManagerConfig
one_session = record { session_ttl = 100; cleanup_interval = 60; max_sessions = pos 1 }

abbrev idle : Manager
idle = new_manager one_session

-- A session was created at time 10 and has made a request at time 20.
abbrev busy : Manager
busy = (increment_request "sess_a" 20 (create "a" 10 idle).0).0

fresh : IsFresh "a" idle
unfolding new_manager lookup
fresh = refl

busy_reached : Reach one_session busy
busy_reached = next (next here (created "a" 10 fresh)) (counted "sess_a" 20)

busy_running : busy.done ≡ false
unfolding increment_request create get new_manager lookup insert new_session
busy_running = refl

Reach-IsValid_example : IsValid busy
Reach-IsValid_example = Reach-IsValid busy_reached busy_running

busy-IsValid : IsValid busy
busy-IsValid = Reach-IsValid busy_reached busy_running

lookup-cleanup_example : lookup "sess_a" (cleanup 90 busy).sessions ≡ none
unfolding increment_request create lookup get new_manager insert new_session age idle_time
lookup-cleanup_example = lookup-cleanup 90 busy "sess_a" busy-IsValid

busy_there : lookup "sess_a" busy.sessions ≡ some 0
unfolding increment_request create lookup get new_manager insert new_session
busy_there = refl

-- The session of `busy`.
abbrev counted_session : Session
counted_session = record (new_session "sess_a" 10) { request_count = 1; last_activity_at = 20 }

busy_at : deref busy 0 ≡ some counted_session
unfolding increment_request create lookup get new_manager insert new_session
busy_at = refl

create_lem_example : CreateOutcome "b" 30 busy
create_lem_example = create_lem "b" 30 busy

raced_miscounts_example :
    ((raced 40 "sess_a" 0 busy).sessions ≡ (delete "sess_a" busy).sessions)
    × ((raced 40 "sess_a" 0 busy).active_count +ℤ pos 1 ≡ pos 0)
unfolding increment_request create lookup get new_manager insert new_session delete erase
raced_miscounts_example = raced_miscounts 40 "sess_a" 0 busy busy-IsValid busy_there

stop_lem_example : (n : Manager) × (stop busy ≡ some n) × IsStopped busy n
stop_lem_example = stop_lem busy busy_running
