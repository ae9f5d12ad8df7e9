-- ===== src/Health/Overall.antt =====
-- The overall status, whatever the order in which the checks finish.
use mcp_proxy.Prelude.{
  Bool-cases, inl, inr, ◌&&◌, ap, Bool, Dict, Distinct, Option, String, [], arith, eq_iff, false,
  if◌then◌else◌, lookup, none, not, refl, some, ◌≡◌, ◌∙◌, ◌∷◌, ◌||◌,
}
use mcp_proxy.Prelude.Maps.{lookup-insert}
use mathlib.Core.List.{Permᴰ}
use mcp_proxy.Health.{
  is_ready, readiness_handler, reply_with, Checks, ComponentHealth, Health, HealthChecker,
  HealthStatus, check_all, degraded, finish_check, healthy, is_degraded, is_unhealthy, overall,
  run_checks, unhealthy,
}

-- The graver of two statuses; any other string counts as healthy.
unfoldable pub graver : HealthStatus → HealthStatus → HealthStatus
graver unhealthy t = unhealthy
graver degraded unhealthy = unhealthy
graver degraded t = degraded
graver _ unhealthy = unhealthy
graver _ degraded = degraded
graver _ t = healthy

-- Two orders of one set of entries hold the same at every key.
lookup-perm :
    {V : Type 0} {xs ys : Dict V}
    → Permᴰ xs ys
    → Distinct xs
    → Distinct ys × ((k : String) → lookup k ys ≡ lookup k xs)
unfolding lookup
lookup-perm Permᴰ.nil h = (tt, λ k. refl)
lookup-perm (Permᴰ.cons {a = (j, v)} {b = (i, w)} e r) h =
    let rest = lookup-perm r h.1 in
    let key = ap (λ p. p.0) e in
    let value = ap (λ p. p.1) e in
    let tail = rest.1 in ((ground (arith, tail i), rest.0), λ k. ground (arith, tail k))
lookup-perm (Permᴰ.swap {a = (j, v)} {b = (i, w)} {a' = (j', v')} {b' = (i', w')} e f) h =
    let ek = ap (λ p. p.0) e in
    let ev = ap (λ p. p.1) e in
    let fk = ap (λ p. p.0) f in
    let fv = ap (λ p. p.1) f in
    (
      ground (arith, eq_iff j i, eq_iff i j, eq_iff j' i', eq_iff i' j'),
      λ k. ground (arith, eq_iff j k, eq_iff i k, eq_iff j i, eq_iff i j, eq_iff j' k, eq_iff i' k),
    )
lookup-perm (Permᴰ.trans r s) h =
    let first = lookup-perm r h in
    let second = lookup-perm s first.0 in (second.0, λ k. second.1 k ∙ first.1 k)

module _ {E : Type 0} where
  -- The gravest status of the registered checkers.
  unfoldable pub gravest : E → Dict (HealthChecker E) → HealthStatus
  unfolding graver
  gravest env [] = healthy
  gravest env ((name, checker) ∷ d) = graver (checker env).status (gravest env d)

  -- What is known of a component: the result of its checker, if it has one.
  unfoldable pub reported :
      E
      → (String → String)
      → String
      → Option (HealthChecker E)
      → Option ComponentHealth
      → Option ComponentHealth
  reported env latency name none before = before
  reported env latency name (some checker) before =
      some (record (checker env) { latency = latency name })

  unfoldable any_status : (HealthStatus → Bool) → E → Dict (HealthChecker E) → Bool
  any_status p env [] = false
  any_status p env ((name, checker) ∷ d) = p (checker env).status || any_status p env d

  any_status-perm :
      (p : HealthStatus → Bool) (env : E) {xs ys : Dict (HealthChecker E)}
      → Permᴰ xs ys
      → any_status p env xs ≡ any_status p env ys
  unfolding any_status
  any_status-perm p env Permᴰ.nil = refl
  any_status-perm p env (Permᴰ.cons e r) = rw (e, any_status-perm p env r) refl
  any_status-perm p env (Permᴰ.swap e f) = rw (e, f) (ground arith)
  any_status-perm p env (Permᴰ.trans r s) = any_status-perm p env r ∙ any_status-perm p env s

  run_checks-flags :
      (env : E) (latency : String → String) (order : Dict (HealthChecker E)) (c : Checks)
      → ((run_checks env latency order c).has_unhealthy
          ≡ (c.has_unhealthy || any_status is_unhealthy env order))
        × ((run_checks env latency order c).has_degraded
            ≡ (c.has_degraded || any_status is_degraded env order))
  unfolding run_checks finish_check any_status is_unhealthy is_degraded
  run_checks-flags env latency [] c = ground arith
  run_checks-flags env latency ((name, checker) ∷ order) c =
      ground
        (arith, run_checks-flags env latency order (finish_check env latency (name, checker) c))

  gravest_lem :
      (env : E) (d : Dict (HealthChecker E))
      → gravest env d ≡ (
          if any_status is_unhealthy env d
          then unhealthy
          else if any_status is_degraded env d
          then degraded
          else healthy)
  unfolding gravest graver any_status is_unhealthy is_degraded
  gravest_lem env [] = refl
  gravest_lem env ((name, checker) ∷ d) = ground (arith, gravest_lem env d)

  lookup-run_checks :
      (env : E) (latency : String → String) (name : String) (order : Dict (HealthChecker E))
      (c : Checks)
      → Distinct order
      → lookup name (run_checks env latency order c).components
        ≡ reported env latency name (lookup name order) (lookup name c.components)
  unfolding run_checks finish_check lookup reported
  lookup-run_checks env latency name [] c h = refl
  lookup-run_checks env latency name ((j, checker) ∷ order) c h = ground (
    arith,
    lookup-run_checks env latency name order (finish_check env latency (j, checker) c) h.1,
    lookup-insert j name (record (checker env) { latency = latency j }) c.components,
    eq_iff j name,
  )

  -- Whatever the order in which the checks of the registered components finish, if no name is registered twice: the overall status is the gravest one, and each component is reported with the result of its checker, and nothing else is.
  pub check_all-gravest :
      (env : E) (latency : String → String) (order : Dict (HealthChecker E)) (h : Health E)
      → Permᴰ h.checkers order
      → Distinct h.checkers
      → ((check_all env latency order h).status ≡ gravest env h.checkers)
        × ((name : String)
            → lookup name (check_all env latency order h).components
              ≡ reported env latency name (lookup name h.checkers) none)
  unfolding check_all overall lookup
  check_all-gravest env latency order h p d =
      let start : Checks = record {
        components = [];
        has_unhealthy = false;
        has_degraded = false;
      } in
      let flags = run_checks-flags env latency order start in
      let looked = lookup-perm p d in
      (
        rw
            (
              flags.0,
              flags.1,
              gravest_lem env h.checkers,
              any_status-perm is_unhealthy env p,
              any_status-perm is_degraded env p,
            )
            refl,
        λ name.
            lookup-run_checks env latency name order start looked.0
            ∙ ap (λ o. reported env latency name o none) (looked.1 name),
      )

  -- The readiness endpoint answers 200 exactly when the process has been set ready and no registered component is unhealthy, and else 503, in whatever order the checks finish.
  pub readiness_handler-code :
      (env : E) (latency : String → String) (order : Dict (HealthChecker E)) (h : Health E)
      → Permᴰ h.checkers order
      → Distinct h.checkers
      → (readiness_handler env latency order h).0
        ≡ (if h.ready && not (is_unhealthy (gravest env h.checkers)) then 200 else 503)
  unfolding readiness_handler reply_with is_ready
  readiness_handler-code env latency order h p d =
      let status = (check_all-gravest env latency order h p d).0 in
      elim (Bool-cases h.ready) [
        | inl ready ↦ rw (ready, status) (ground arith)
        | inr waiting ↦ rw waiting refl
      ]
