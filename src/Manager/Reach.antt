-- ===== src/Manager/Reach.antt =====
-- What holds in every state that the manager reaches through its operations and through the
-- writes of those that hold a session's pointer.
use mcp_proxy.Prelude.{
  arith, sym, ◌∙◌, ◌∷◌, [], Dict, lookup, erase, false, Option, Option-cases, String, inl, inr,
  none, refl, set, some, ℕ, ◌≡◌,
}
use mcp_proxy.Manager.{
  Manager, ManagerConfig, stop, drop_entry, cleanup_visit, cleanup_range, cleanup, count_request,
  create, delete, deref, get, increment_request, modify, new_manager,
}
use mcp_proxy.Manager.Invariant.{
  IsFresh, IsValid, KeepsId, create-IsValid, delete-IsValid, get-IsValid, modify-IsValid,
  new_manager-IsValid,
}
use mcp_proxy.Manager.Stopping.{done-stop}
use mcp_proxy.Manager.Cleanup.{cleanup-IsValid}
use mcp_proxy.Session.{close, Session, increment_request_count}

-- One operation, run without another in between.
pub data Step (m : Manager) : Manager → Type 0 where
  created : (uuid : String) (now : ℕ) → IsFresh uuid m → Step m (create uuid now m).0
  got : (id : String) → Step m (get id m).0
  deleted : (id : String) → Step m (delete id m)
  counted : (id : String) (now : ℕ) → Step m (increment_request id now m).0
  cleaned : (now : ℕ) → Step m (cleanup now m)
  stopped : (n : Manager) → stop m ≡ some n → Step m n
  -- SetAgent, SetClientInfo, SendMessage, Close and the like, through a pointer
  written : (a : ℕ) (f : Session → Session) → KeepsId f → Step m (modify a f m)

pub data Reach (cfg : ManagerConfig) : Manager → Type 0 where
  here : Reach cfg (new_manager cfg)
  next : {m n : Manager} → Reach cfg m → Step m n → Reach cfg n

count_request-IsValid :
    (now a : ℕ) (o : Option Session) (m : Manager)
    → deref m a ≡ o
    → IsValid m
    → IsValid (count_request now a o m).0
unfolding count_request modify
count_request-IsValid now a none m e v = v
count_request-IsValid now a (some s) m e v =
    rw (as_modify) (modify-IsValid (λ x. (increment_request_count now x).0) a m keeps v)
  where
    keeps : KeepsId (λ x. (increment_request_count now x).0)
    keeps x = refl

    as_modify :
        record m { heap = set m.heap a (increment_request_count now s).0 }
        ≡ modify a (λ x. (increment_request_count now x).0) m
    as_modify = rw (e, modify)

increment_request-IsValid :
    (id : String) (now : ℕ) (m : Manager) → IsValid m → IsValid (increment_request id now m).0
unfolding increment_request
increment_request-IsValid id now m v = elim (Option-cases (get id m).1) [
  | inl e ↦ rw (e, increment_request) (get-IsValid id m v)
  | inr (a, e) ↦
      rw (e, increment_request)
        (count_request-IsValid now a (deref (get id m).0 a) (get id m).0 refl (get-IsValid id m v))
]

done-modify : (a : ℕ) (f : Session → Session) (m : Manager) → (modify a f m).done ≡ m.done
unfolding modify
done-modify a f m = ground arith

done-create : (uuid : String) (now : ℕ) (m : Manager) → (create uuid now m).0.done ≡ m.done
unfolding create
done-create uuid now m = ground arith

done-delete : (id : String) (m : Manager) → (delete id m).done ≡ m.done
unfolding delete
done-delete id m = elim (Option-cases (lookup id m.sessions)) [
  | inl e ↦ rw (delete, e) refl
  | inr (a, e) ↦ rw (delete, e) (done-modify a close (record m { sessions = erase id m.sessions }))
]

done-get : (id : String) (m : Manager) → (get id m).0.done ≡ m.done
unfolding get
done-get id m = ground (arith, done-delete id m)

done-count_request :
    (now a : ℕ) (o : Option Session) (m : Manager) → (count_request now a o m).0.done ≡ m.done
unfolding count_request
done-count_request now a none m = refl
done-count_request now a (some s) m = refl

done-increment_request :
    (id : String) (now : ℕ) (m : Manager) → (increment_request id now m).0.done ≡ m.done
unfolding increment_request
done-increment_request id now m = elim (Option-cases (get id m).1) [
  | inl e ↦ rw (increment_request, e) (done-get id m)
  | inr (a, e) ↦
      rw (increment_request, e)
        (done-count_request now a (deref (get id m).0 a) (get id m).0 ∙ done-get id m)
]

done-cleanup_visit :
    (now : ℕ) (e : String × ℕ) (m : Manager) → (cleanup_visit now e m).done ≡ m.done
unfolding cleanup_visit drop_entry modify
done-cleanup_visit now (key, a) m = ground arith

done-cleanup_range : (now : ℕ) (es : Dict ℕ) (m : Manager) → (cleanup_range now es m).done ≡ m.done
unfolding cleanup_range
done-cleanup_range now [] m = refl
done-cleanup_range now (e ∷ es) m =
    done-cleanup_range now es (cleanup_visit now e m) ∙ done-cleanup_visit now e m

-- Only a stop ends the running of a manager, and it does.
Step-runs : {m n : Manager} → Step m n → n.done ≡ false → m.done ≡ false
unfolding cleanup
Step-runs {m} (created uuid now fresh) running = sym (done-create uuid now m) ∙ running
Step-runs {m} (got id) running = sym (done-get id m) ∙ running
Step-runs {m} (deleted id) running = sym (done-delete id m) ∙ running
Step-runs {m} (counted id now) running = sym (done-increment_request id now m) ∙ running
Step-runs {m} (cleaned now) running = sym (done-cleanup_range now m.sessions m) ∙ running
Step-runs {m} (stopped n e) running = let h = done-stop m n e in cc
Step-runs {m} (written a f keep) running = sym (done-modify a f m) ∙ running

pub Step-IsValid : {m n : Manager} → Step m n → n.done ≡ false → IsValid m → IsValid n
Step-IsValid {m} (created uuid now fresh) running v = create-IsValid uuid now m fresh v
Step-IsValid {m} (got id) running v = get-IsValid id m v
Step-IsValid {m} (deleted id) running v = delete-IsValid id m v
Step-IsValid {m} (counted id now) running v = increment_request-IsValid id now m v
Step-IsValid {m} (cleaned now) running v = cleanup-IsValid now m v
Step-IsValid {m} (stopped n e) running v = let h = done-stop m n e in cc
Step-IsValid {m} (written a f keep) running v = modify-IsValid f a m keep v

-- In every state reached from a new manager by any sequence of whole operations, a stop among them, in which each new session has an ID that is not in use, and of writes through session pointers that keep the ID: as long as the manager is not stopped, the map's keys are distinct, the active count is the number of entries and within the limit, and each entry leads to a session that carries its key.
pub Reach-IsValid : {cfg : ManagerConfig} {m : Manager} → Reach cfg m → m.done ≡ false → IsValid m
Reach-IsValid {cfg} here running = new_manager-IsValid cfg
Reach-IsValid (next r s) running = Step-IsValid s running (Reach-IsValid r (Step-runs s running))
