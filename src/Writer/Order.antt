-- ===== src/Writer/Order.antt =====
-- Which records are lost, and what a flush does when nothing runs in between.
use mathlib.Core.List.{append_assoc, append-nil}
use mcp_proxy.Prelude.{
  Bool, List, [], false, length, length-append, true, ◌+◌, ◌++◌, ◌∷◌, arith, ◌≡◌, ◌<◌, refl,
  if◌then◌else◌, ap, ◌∙◌, leb, Bool-cases, inl, inr, sym, leb→le,
}
use mcp_proxy.Writer.{
  Writer, write, take_buffer, count_batch, with_space, append_record, drop_oldest, tail, flush,
  settle,
}

module _ {R : Type 0} where
  unfoldable pub writes : List R → Writer R → Writer R
  unfolding write
  writes [] w = w
  writes (r ∷ rs) w = writes rs (write r w)

  -- Between `w` and `v` the records `added` came in and `lost` were dropped, the oldest first.
  pub record Window (w : Writer R) (added : List R) (v : Writer R) : Type 0 where
    pub lost : List R
    pub in_order : lost ++ v.buffer ≡ w.buffer ++ added
    pub counted : v.dropped ≡ w.dropped + length lost
    pub kept_max : v.buffer_max ≡ w.buffer_max

  head_of : (xs : List R) → 0 < length xs → (x : R) × (x ∷ tail xs ≡ xs)
  unfolding tail
  head_of [] h = absurd (omega arith)
  head_of (x ∷ xs) h = (x, refl)

  write_full :
      (r : R) (w : Writer R)
      → leb w.buffer_max (length w.buffer) ≡ true
      → write r w ≡ append_record r (drop_oldest w)
  unfolding write with_space
  write_full r w full = ap (λ b. append_record r (if b then drop_oldest w else w)) full

  write_room :
      (r : R) (w : Writer R)
      → leb w.buffer_max (length w.buffer) ≡ false
      → write r w ≡ append_record r w
  unfolding write with_space
  write_room r w room = ap (λ b. append_record r (if b then drop_oldest w else w)) room

  Window-full :
      (r : R) (w : Writer R)
      → 0 < length w.buffer
      → Window w (r ∷ []) (append_record r (drop_oldest w))
  unfolding append_record drop_oldest
  Window-full r w h =
      let (x, whole) = head_of w.buffer h in
      record {
        lost = x ∷ [];
        in_order = ap (λ b. b ++ r ∷ []) whole;
        counted = refl;
        kept_max = refl;
      }

  Window-room : (r : R) (w : Writer R) → Window w (r ∷ []) (append_record r w)
  unfolding append_record
  Window-room r w = record { lost = []; in_order = refl; counted = omega arith; kept_max = refl }

  write-Window : (r : R) (w : Writer R) → 0 < w.buffer_max → Window w (r ∷ []) (write r w)
  write-Window r w h = elim (Bool-cases (leb w.buffer_max (length w.buffer))) [
    | inl full ↦ rw (write_full r w full) (Window-full r w (omega (arith, leb→le _ _ full)))
    | inr room ↦ rw (write_room r w room) (Window-room r w)
  ]

  Window-append :
      (r : R) (rs : List R) (w v u : Writer R)
      → Window w (r ∷ []) v
      → Window v rs u
      → Window w (r ∷ rs) u
  Window-append r rs w v u first rest = record {
    lost = first.lost ++ rest.lost;
    in_order =
        append_assoc first.lost rest.lost u.buffer
        ∙ ap (λ b. first.lost ++ b) rest.in_order
        ∙ sym (append_assoc first.lost v.buffer rs)
        ∙ ap (λ b. b ++ rs) first.in_order
        ∙ append_assoc w.buffer (r ∷ []) rs;
    counted = omega (arith, first.counted, rest.counted, length-append first.lost rest.lost);
    kept_max = rest.kept_max ∙ first.kept_max;
  }

  -- After any writes without a flush, on a writer whose buffer has a positive bound, the buffer holds the newest records in the order of the writes: the records lost are the oldest ones, and `dropped` has counted each of them.
  pub writes-Window : (rs : List R) (w : Writer R) → 0 < w.buffer_max → Window w rs (writes rs w)
  unfolding writes
  writes-Window [] w h = record {
    lost = [];
    in_order = sym (append-nil w.buffer);
    counted = omega arith;
    kept_max = refl;
  }
  writes-Window (r ∷ rs) w h =
      let first = write-Window r w h in
      Window-append r rs w (write r w) (writes rs (write r w)) first
        (writes-Window rs (write r w) (omega (arith, first.kept_max)))

  -- A flush that nothing interrupts empties the buffer and counts its records as written if the store took them and as dropped if not; the other batches under way are left alone.
  pub flush_lem :
      (inserted : Bool) (w : Writer R)
      → ((flush inserted w).buffer ≡ [])
        × ((flush inserted w).in_flight ≡ w.in_flight)
        × ((flush inserted w).written ≡ w.written + (if inserted then length w.buffer else 0))
        × ((flush inserted w).dropped ≡ w.dropped + (if inserted then 0 else length w.buffer))
  unfolding flush take_buffer settle count_batch
  flush_lem inserted w = ground arith
