-- ===== src/Manager/Stopping.antt =====
-- What stopping the manager leaves behind.
use mcp_proxy.Prelude.{
  Bool-cases, inl, sym, ap, ◌⊎◌, Dict, String, none, some, [], ◌∷◌, ◌≡◌, refl, ℕ, lookup, erase,
  false, true, arith, inr, if◌then◌else◌, ◌∙◌,
}
use mathlib.Core.Option.{some-injective}
use mcp_proxy.Prelude.Maps.{lookup-erase}
use mcp_proxy.Manager.{Manager, stop, stop_range, modify}
use mcp_proxy.Session.{close}

-- A key that the map still has is among the entries to visit.
lookup-stop_range :
    (es : Dict ℕ) (m : Manager) (k : String)
    → lookup k m.sessions ≡ none ⊎ (lookup k es ≡ lookup k m.sessions)
    → lookup k (stop_range es m).sessions ≡ none
unfolding stop_range modify lookup
lookup-stop_range [] m k h = ground arith
lookup-stop_range ((key, a) ∷ es) m k h =
    lookup-stop_range es (record (modify a close m) { sessions = erase key m.sessions }) k
      (ground (arith, lookup-erase key k m.sessions, h))

active_count-stop_range :
    (es : Dict ℕ) (m : Manager) → (stop_range es m).active_count ≡ m.active_count
unfolding stop_range modify
active_count-stop_range [] m = refl
active_count-stop_range ((key, a) ∷ es) m = active_count-stop_range es _ ∙ ground arith

done-stop_range : (es : Dict ℕ) (m : Manager) → (stop_range es m).done ≡ m.done
unfolding stop_range modify
done-stop_range [] m = refl
done-stop_range ((key, a) ∷ es) m = done-stop_range es _ ∙ ground arith

stop_running :
    (m : Manager)
    → m.done ≡ false
    → stop m ≡ some (stop_range m.sessions (record m { done = true }))
unfolding stop
stop_running m e =
    ap (λ b. if b then none else some (stop_range m.sessions (record m { done = true }))) e

stop_done : (m : Manager) → m.done ≡ true → stop m ≡ none
unfolding stop
stop_done m e =
    ap (λ b. if b then none else some (stop_range m.sessions (record m { done = true }))) e

pub done-stop : (m n : Manager) → stop m ≡ some n → n.done ≡ true
unfolding stop
done-stop m n e = elim (Bool-cases m.done) [
  | inl over ↦ let h = stop_done m over in cc
  | inr running ↦
      ap (λ x. x.done) (sym (some-injective _ n (sym (stop_running m running) ∙ e)))
      ∙ done-stop_range m.sessions (record m { done = true })
]

-- No ID is found, the counter is what it was, and the manager cannot be stopped again.
pub record IsStopped (before m : Manager) : Type 0 where
  pub empty : (id : String) → lookup id m.sessions ≡ none
  pub counter : m.active_count ≡ before.active_count
  pub panics : stop m ≡ none

-- Stopping a manager that runs succeeds; then no ID leads to a session, but the active count is what it was before, and stopping again panics.
pub stop_lem : (m : Manager) → m.done ≡ false → (n : Manager) × (stop m ≡ some n) × IsStopped m n
stop_lem m running =
    let stopped = record m { done = true } in
    let n = stop_range m.sessions stopped in
    (
      n,
      stop_running m running,
      record {
        empty = λ id. lookup-stop_range m.sessions stopped id (inr refl);
        counter = active_count-stop_range m.sessions stopped;
        panics = stop_done n (done-stop_range m.sessions stopped);
      },
    )
