-- ===== src/Health/Tests.antt =====
-- Two components, of which the one that finishes first is down.
use mcp_proxy.Prelude.{
  Bool, Dict, Distinct, String, [], false, if◌then◌else◌, lookup, none, not, refl, some, true, ◌&&◌,
  ◌≡◌, ◌∷◌,
}
use mathlib.Core.List.{Permᴰ}
use mcp_proxy.Health.{
  Health, HealthChecker, check_all, database_checker, is_unhealthy, readiness_handler,
  upstream_checker, unhealthy,
}
use mcp_proxy.Health.Overall.{check_all-gravest, gravest, readiness_handler-code, reported}

abbrev upstream : String × HealthChecker Bool
upstream = ("upstream", upstream_checker (λ up. up))

abbrev database : String × HealthChecker Bool
database = ("database", database_checker (λ up. if up then none else some "locked"))

abbrev health : Health Bool
health = record { version = "1"; checkers = database ∷ upstream ∷ []; ready = true }

abbrev order : Dict (HealthChecker Bool)
order = upstream ∷ database ∷ []

abbrev latency : String → String
latency _ = "1ms"

order-perm : Permᴰ health.checkers order
order-perm = Permᴰ.swap refl refl

health-Distinct : Distinct health.checkers
unfolding lookup
health-Distinct = (refl, (refl, tt))

check_all-gravest_example :
    ((check_all false latency order health).status ≡ gravest false health.checkers)
    × ((name : String)
        → lookup name (check_all false latency order health).components
          ≡ reported false latency name (lookup name health.checkers) none)
check_all-gravest_example = check_all-gravest false latency order health order-perm health-Distinct

check_all_down : (check_all false latency order health).status ≡ unhealthy
unfolding check_all database_checker upstream_checker
check_all_down = refl

readiness_handler-code_example :
    (readiness_handler false latency order health).0
    ≡ (if true && not (is_unhealthy (gravest false health.checkers)) then 200 else 503)
readiness_handler-code_example =
    readiness_handler-code false latency order health order-perm health-Distinct
