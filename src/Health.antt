-- ===== src/Health.antt =====
-- internal/observability/health.go: readiness and the health of the components.
--
-- A checker reads an environment `E`, which holds whatever the check looks at. The goroutines of
-- `checkAll` take the lock in any order: `order` lists the checkers as they finish. Bodies are the
-- responses before they are encoded; timestamps are left out, and latencies are arguments.
pub mod Overall
pub mod Tests
use mcp_proxy.Prelude.{
  Bool, Dict, List, Option, String, [], false, if◌then◌else◌, insert, none, not, some, true, ℕ, ◌∷◌,
}
use Prim.Native.String.{◌++◌ as ◌++ˢ◌}

-- A status is any string; these three have a meaning.
pub data HealthStatus : Type 0 where
  healthy degraded unhealthy : HealthStatus
  other : String → HealthStatus

pub record ComponentHealth : Type 0 where
  pub status : HealthStatus
  pub message : String
  pub latency : String

pub record HealthResponse : Type 0 where
  pub status : HealthStatus
  pub version : String
  pub components : Dict ComponentHealth

abbrev pub HealthChecker : Type 0 → Type 0
HealthChecker E = E → ComponentHealth

pub record Health (E : Type 0) : Type 0 where
  pub version : String
  pub checkers : Dict (HealthChecker E)
  pub ready : Bool

-- The response so far, and the two flags beside it.
pub record Checks : Type 0 where
  pub components : Dict ComponentHealth
  pub has_unhealthy : Bool
  pub has_degraded : Bool

-- A status code and a body.
abbrev pub Reply : Type 0
Reply = ℕ × HealthResponse

unfoldable pub is_unhealthy : HealthStatus → Bool
is_unhealthy unhealthy = true
is_unhealthy _ = false

unfoldable pub is_degraded : HealthStatus → Bool
is_degraded degraded = true
is_degraded _ = false

unfoldable pub overall : Checks → HealthStatus
overall c = if c.has_unhealthy then unhealthy else if c.has_degraded then degraded else healthy

unfoldable pub reply_with : HealthResponse → Reply
unfolding is_unhealthy
reply_with response = (if is_unhealthy response.status then 503 else 200, response)

module _ {E : Type 0} where
  unfoldable pub new_health : String → Health E
  new_health version = record { version = version; checkers = []; ready = false }

  unfoldable pub register_checker : String → HealthChecker E → Health E → Health E
  register_checker name checker h = record h { checkers = insert name checker h.checkers }

  unfoldable pub set_ready : Bool → Health E → Health E
  set_ready ready h = record h { ready = ready }

  unfoldable pub is_ready : Health E → Bool
  is_ready h = h.ready

  bare_response : HealthStatus → Health E → HealthResponse
  bare_response status h = record { status = status; version = h.version; components = [] }

  unfoldable pub liveness_handler : Health E → Reply
  unfolding bare_response
  liveness_handler h = (200, bare_response healthy h)

  -- What one goroutine does under the lock.
  unfoldable pub finish_check : E → (String → String) → String × HealthChecker E → Checks → Checks
  unfolding is_unhealthy is_degraded
  finish_check env latency (name, checker) c = record {
    components = insert name (record (checker env) { latency = latency name }) c.components;
    has_unhealthy = if is_unhealthy (checker env).status then true else c.has_unhealthy;
    has_degraded =
        if is_unhealthy (checker env).status
        then c.has_degraded
        else if is_degraded (checker env).status
        then true
        else c.has_degraded;
  }

  -- The goroutines, in the order in which they finish.
  unfoldable pub run_checks :
      E → (String → String) → List (String × HealthChecker E) → Checks → Checks
  unfolding finish_check
  run_checks env latency [] c = c
  run_checks env latency (e ∷ order) c = run_checks env latency order (finish_check env latency e c)

  unfoldable pub check_all :
      E → (String → String) → List (String × HealthChecker E) → Health E → HealthResponse
  unfolding run_checks overall
  check_all env latency order h =
      let c =
        run_checks env latency order
          (record { components = []; has_unhealthy = false; has_degraded = false }) in
      record { status = overall c; version = h.version; components = c.components }

  unfoldable pub readiness_handler :
      E → (String → String) → List (String × HealthChecker E) → Health E → Reply
  unfolding check_all reply_with bare_response is_ready
  readiness_handler env latency order h =
      if not (is_ready h)
      then (503, bare_response unhealthy h)
      else reply_with (check_all env latency order h)

  unfoldable pub full_health_handler :
      E → (String → String) → List (String × HealthChecker E) → Health E → Reply
  unfolding check_all reply_with
  full_health_handler env latency order h = reply_with (check_all env latency order h)

result : HealthStatus → String → ComponentHealth
result status message = record { status = status; message = message; latency = "" }

-- The checkers that the program has; an error of the ping is its text.
unfoldable pub database_checker : {E : Type 0} → (E → Option String) → HealthChecker E
unfolding result
database_checker ping env = elim (ping env) [
  | none ↦ result healthy "connected"
  | some e ↦ result unhealthy ("database unreachable: " ++ˢ e)
]

unfoldable pub upstream_checker : {E : Type 0} → (E → Bool) → HealthChecker E
unfolding result
upstream_checker is_connected env =
    if not (is_connected env)
    then result degraded "upstream disconnected - operating in standalone mode"
    else result healthy "connected"

unfoldable pub policy_engine_checker : {E : Type 0} → (E → Bool) → HealthChecker E
unfolding result
policy_engine_checker engine_ready env =
    if not (engine_ready env)
    then result unhealthy "policy engine not initialized"
    else result healthy "ready"
