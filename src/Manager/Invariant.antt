-- ===== src/Manager/Invariant.antt =====
-- The invariant of the session manager, kept by every operation that is not interrupted.
use mcp_proxy.Prelude.Maps.{
  erase-Distinct, erase_absent, insert-Distinct, length-erase_le, length-erase_present,
  lookup-erase, lookup-insert,
}
use mcp_proxy.Prelude.{
  Bool-cases, Distinct, Option, Option-cases, String, [], ap, arith, eq_iff, erase, false,
  get_elem?, get_elem?-append_left, get_elem?-append_length, get_elem?-set_ne, get_elem?-set_self,
  inl, inr, insert, length, lookup, none, refl, some, suc, ℕ, ◌++◌, ◌==◌, ◌∙◌, ◌∷◌, ◌≡◌, ◌≢◌, ◌≤◌,
}
use mcp_proxy.Prelude.Int.{int_laws, leb_ℤ, pos, pos_part, ℤ, ◌+ℤ◌, ◌-ℤ◌}
use native.Mathlib.Decide.{ℕ_discrete}
use mcp_proxy.Session.{Session, close, is_closed, new_session}
use mcp_proxy.Manager.{
  Manager, ManagerConfig, create, delete, deref, drop_entry, get, get_object, modify, new_manager,
  session_id,
}

pub record IsValid (m : Manager) : Type 0 where
  -- the map has one entry for a key
  pub distinct : Distinct m.sessions
  -- the counter is the number of entries
  pub counted : m.active_count ≡ pos (length m.sessions)
  pub within : length m.sessions ≤ pos_part m.max_sessions
  -- an entry points at a session object that carries its key
  pub stored :
      (k : String) (a : ℕ)
      → lookup k m.sessions ≡ some a
      → (s : Session) × (deref m a ≡ some s) × (s.id ≡ k)

pub new_manager-IsValid : (cfg : ManagerConfig) → IsValid (new_manager cfg)
unfolding new_manager lookup
new_manager-IsValid cfg = record {
  distinct = tt;
  counted = refl;
  within = omega arith;
  stored = λ k a h. cc;
}

-- A write that keeps the `id` of the object written to keeps every object's.
abbrev pub KeepsId : (Session → Session) → Type 0
KeepsId f = (s : Session) → (f s).id ≡ s.id

pub close-KeepsId : KeepsId close
unfolding close
close-KeepsId s = ground arith

module _ (f : Session → Session) (keep : KeepsId f) (m : Manager) where
  pub deref-modify_id :
      (a b : ℕ) (s : Session)
      → deref m b ≡ some s
      → (s' : Session) × (deref (modify a f m) b ≡ some s') × (s'.id ≡ s.id)
  unfolding modify
  deref-modify_id a b s h = elim (Option-cases (get_elem? m.heap a)) [
    | inl e ↦ (s, rw (e, modify) h, refl)
    | inr (t, e) ↦ elim (ℕ_discrete a b) [
      | yes p ↦ (
        f t,
        rw (e, modify, ← p) (get_elem?-set_self m.heap a (f t) t e),
        (let q : t ≡ s = cc in keep t ∙ ap (λ (x : Session). x.id) q),
      )
      | no p ↦ (s, rw (e, modify) (get_elem?-set_ne m.heap (f t) p ∙ h), refl)
    ]
  ]

  pub sessions-modify : (a : ℕ) → (modify a f m).sessions ≡ m.sessions
  unfolding modify
  sessions-modify a = ground arith

pub deref-modify_self :
    (f : Session → Session) (m : Manager) (a : ℕ) (s : Session)
    → deref m a ≡ some s
    → deref (modify a f m) a ≡ some (f s)
unfolding modify
deref-modify_self f m a s h = rw (h, modify) (get_elem?-set_self m.heap a (f s) s h)

pub deref-modify_ne :
    (f : Session → Session) (m : Manager) (a b : ℕ) → a ≢ b → deref (modify a f m) b ≡ deref m b
unfolding modify
deref-modify_ne f m a b ne = elim (Option-cases (get_elem? m.heap a)) [
  | inl e ↦ rw (e, modify)
  | inr (t, e) ↦ rw (e, modify) (get_elem?-set_ne m.heap (f t) ne)
]

-- Taking out an entry that is there, and counting down, keeps the invariant.
pub drop-IsValid :
    (key : String) (a : ℕ) (m : Manager)
    → IsValid m
    → lookup key m.sessions ≡ some a
    → IsValid (drop_entry key m)
unfolding lookup drop_entry
drop-IsValid key a m v here = record {
  distinct = erase-Distinct key m.sessions v.distinct;
  counted = rw v.counted (count_down (length-erase_present key a m.sessions v.distinct here));
  within = omega (arith, v.within, length-erase_le key m.sessions);
  stored = λ k b h. v.stored k b (ground (arith, lookup-erase key k m.sessions));
}
  where
    count_down : {n k : ℕ} → suc n ≡ k → pos k -ℤ pos 1 ≡ pos n
    count_down e = omega (int_laws, e)

pub active-modify :
    (f : Session → Session) (m : Manager) (a : ℕ) → (modify a f m).active_count ≡ m.active_count
unfolding modify
active-modify f m a = ground arith

modify_counts :
    (f : Session → Session) (m : Manager) (a : ℕ)
    → (m.active_count ≡ pos (length m.sessions)
        → (modify a f m).active_count ≡ pos (length (modify a f m).sessions))
      × (length m.sessions ≤ pos_part m.max_sessions
          → length (modify a f m).sessions ≤ pos_part (modify a f m).max_sessions)
unfolding modify
modify_counts f m a = elim (Option-cases (get_elem? m.heap a)) [
  | inl e ↦ rw (e, modify) (λ h. h, λ h. h)
  | inr (t, e) ↦ rw (e, modify) (λ h. h, λ h. h)
]

pub modify-IsValid :
    (f : Session → Session) (a : ℕ) (m : Manager) → KeepsId f → IsValid m → IsValid (modify a f m)
modify-IsValid f a m keep v = record {
  distinct = rw (sessions-modify f keep m a) v.distinct;
  counted = (modify_counts f m a).0 v.counted;
  within = (modify_counts f m a).1 v.within;
  stored = λ k b h.
      let (s, at_b, named) = v.stored k b (rw (sessions-modify f keep m a) at h) in
      let (s', at_b', same) = deref-modify_id f keep m a b s at_b in (s', at_b', same ∙ named);
}

-- The same with the session closed first.
pub drop_closed-IsValid :
    (key : String) (a : ℕ) (m : Manager)
    → IsValid m
    → lookup key m.sessions ≡ some a
    → IsValid (drop_entry key (modify a close m))
drop_closed-IsValid key a m v here =
    drop-IsValid key a (modify a close m) (modify-IsValid close a m close-KeepsId v)
      (rw (sessions-modify close close-KeepsId m a) here)

pub delete-missing : (id : String) (m : Manager) → lookup id m.sessions ≡ none → delete id m ≡ m
unfolding delete
delete-missing id m h = rw (h, delete)

-- Unlinking before closing comes to the same manager.
pub delete-found :
    (id : String) (a : ℕ) (m : Manager)
    → lookup id m.sessions ≡ some a
    → delete id m ≡ drop_entry id (modify a close m)
unfolding delete drop_entry
delete-found id a m h = ground arith

-- The library draws no UUID twice.
abbrev pub IsFresh : String → Manager → Type 0
IsFresh uuid m = lookup (session_id uuid) m.sessions ≡ none

stored_created :
    (uuid : String) (now : ℕ) (m : Manager)
    → IsValid m
    → (k : String) (a : ℕ) → lookup k (insert (session_id uuid) (length m.heap) m.sessions) ≡ some a
    → (s : Session) × (get_elem? (m.heap ++ new_session (session_id uuid) now ∷ []) a ≡ some s)
      × (s.id ≡ k)
unfolding new_session
stored_created uuid now m v k a h = elim (Bool-cases (session_id uuid == k)) [
  | inl e ↦
      let at_end : length m.heap ≡ a =
        ground (arith, lookup-insert (session_id uuid) k (length m.heap) m.sessions) in
      (
        new_session (session_id uuid) now,
        rw (← at_end) (get_elem?-append_length m.heap [] (new_session (session_id uuid) now)),
        (eq_iff (session_id uuid) k).0 e,
      )
  | inr e ↦
      let old : lookup k m.sessions ≡ some a =
        ground (arith, lookup-insert (session_id uuid) k (length m.heap) m.sessions) in
      let (s, here, named) = v.stored k a old in
      (s, get_elem?-append_left m.heap (new_session (session_id uuid) now ∷ []) a s here, named)
]

count_up :
    (c top : ℤ) (n : ℕ)
    → leb_ℤ top c ≡ false
    → c ≡ pos n
    → (c +ℤ pos 1 ≡ pos (suc n)) × (suc n ≤ pos_part top)
unfolding ◌+ℤ◌
count_up c top n room e = ground arith

pub create-IsValid :
    (uuid : String) (now : ℕ) (m : Manager)
    → IsFresh uuid m
    → IsValid m
    → IsValid (create uuid now m).0
unfolding create insert
create-IsValid uuid now m fresh v = elim (Bool-cases (leb_ℤ m.max_sessions m.active_count)) [
  | inl e ↦ rw e v
  | inr e ↦
      let counts = count_up m.active_count m.max_sessions (length m.sessions) e v.counted in
      rw e (record {
        distinct = insert-Distinct (session_id uuid) (length m.heap) m.sessions v.distinct;
        counted = rw (erase_absent (session_id uuid) m.sessions fresh) counts.0;
        within = rw (erase_absent (session_id uuid) m.sessions fresh) counts.1;
        stored = stored_created uuid now m v;
      })
]

pub delete-IsValid : (id : String) (m : Manager) → IsValid m → IsValid (delete id m)
delete-IsValid id m v = elim (Option-cases (lookup id m.sessions)) [
  | inl e ↦ rw (delete-missing id m e) v
  | inr (a, e) ↦ rw (delete-found id a m e) (drop_closed-IsValid id a m v e)
]

-- A deletion closes the session and takes the entry and one count away.
pub delete_parts :
    (id : String) (a : ℕ) (s : Session) (m : Manager)
    → lookup id m.sessions ≡ some a
    → deref m a ≡ some s
    → ((delete id m).sessions ≡ erase id m.sessions)
      × ((delete id m).active_count ≡ m.active_count -ℤ pos 1)
      × (deref (delete id m) a ≡ some (close s))
unfolding drop_entry
delete_parts id a s m here at = rw (delete-found id a m here) (
  ap (erase id) (sessions-modify close close-KeepsId m a),
  ap (λ c. c -ℤ pos 1) (active-modify close m a),
  deref-modify_self close m a s at,
)

get_object-IsValid :
    (id : String) (a : ℕ) (o : Option Session) (m : Manager)
    → IsValid m
    → IsValid (get_object id a o m).0
unfolding get_object
get_object-IsValid id a none m v = v
get_object-IsValid id a (some s) m v = elim (Bool-cases (is_closed s)) [
  | inl e ↦ rw e (delete-IsValid id m v)
  | inr e ↦ rw e v
]

pub get-IsValid : (id : String) (m : Manager) → IsValid m → IsValid (get id m).0
unfolding get
get-IsValid id m v = elim (Option-cases (lookup id m.sessions)) [
  | inl e ↦ rw (e, get) v
  | inr (a, e) ↦ rw (e, get) (get_object-IsValid id a (deref m a) m v)
]
