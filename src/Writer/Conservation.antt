-- ===== src/Writer/Conservation.antt =====
-- What is kept while writes and flushes interleave.
use mcp_proxy.Prelude.{
  ap, Bool, List, [], false, length, length-append, true, ℕ, ◌+◌, ◌++◌, ◌∷◌, arith, ◌≡◌, ◌≤◌, ◌<◌,
  suc, refl,
}
use mcp_proxy.Writer.{
  Writer, WriterConfig, new_writer, write, take_buffer, count_batch, with_space, append_record,
  drop_oldest, tail,
}

-- How many records the batches hold.
abbrev pub total {ℓ} : {A : Type ℓ} → List (List A) → ℕ
total [] = 0
total (xs ∷ xss) = length xs + total xss

total-append : {R : Type 0} (xs ys : List (List R)) → total (xs ++ ys) ≡ total xs + total ys
total-append [] ys = omega arith
total-append (x ∷ xs) ys = omega (arith, total-append xs ys)

module _ {R : Type 0} where
  -- One step of one goroutine; `Write` is whole, as it holds the lock, and `flush` is two steps.
  pub data Step (w : Writer R) : ℕ → Writer R → Type 0 where
    written_one : (r : R) → Step w 1 (write r w)
    taken : Step w 0 (take_buffer w).0
    settled :
        (inserted : Bool) (before : List (List R)) (batch : List R) (after : List (List R))
        → w.in_flight ≡ before ++ batch ∷ after
        → Step w 0 (count_batch inserted batch (record w { in_flight = before ++ after }))

  -- The states reached from a new writer after `n` calls of `Write`.
  pub data Reach (cfg : WriterConfig) : ℕ → Writer R → Type 0 where
    here : Reach cfg 0 (new_writer cfg)
    next : {n k : ℕ} {w v : Writer R} → Reach cfg n w → Step w k v → Reach cfg (k + n) v

  -- Every record written is in the buffer, in a batch under way, stored, or counted as dropped; and
  -- the buffer keeps its bound.
  pub record IsConserving (n : ℕ) (w : Writer R) : Type 0 where
    pub conserved : w.written + w.dropped + length w.buffer + total w.in_flight ≡ n
    pub bounded : length w.buffer ≤ w.buffer_max
    pub positive : 0 < w.buffer_max

  new_writer-IsConserving : (cfg : WriterConfig) → IsConserving 0 (new_writer cfg)
  unfolding new_writer
  new_writer-IsConserving cfg = record {
    conserved = refl;
    bounded = omega arith;
    positive = ground arith;
  }

  length-tail : (xs : List R) → 0 < length xs → suc (length (tail xs)) ≡ length xs
  unfolding tail
  length-tail [] h = absurd (omega arith)
  length-tail (x ∷ xs) h = refl

  write-IsConserving :
      (r : R) (n : ℕ) (w : Writer R) → IsConserving n w → IsConserving (1 + n) (write r w)
  unfolding write with_space drop_oldest append_record
  write-IsConserving r n w c =
      let conserved = c.conserved in
      let bounded = c.bounded in
      let positive = c.positive in
      record {
        conserved = ground (
          arith,
          length-append w.buffer (r ∷ []),
          length-append (tail w.buffer) (r ∷ []),
          length-tail w.buffer,
        );
        bounded = ground (
          arith,
          length-append w.buffer (r ∷ []),
          length-append (tail w.buffer) (r ∷ []),
          length-tail w.buffer,
        );
        positive = ground arith;
      }

  take_buffer-IsConserving :
      (n : ℕ) (w : Writer R) → IsConserving n w → IsConserving (0 + n) (take_buffer w).0
  unfolding take_buffer
  take_buffer-IsConserving n w c =
      let conserved = c.conserved in
      let bounded = c.bounded in
      let positive = c.positive in
      record { conserved = ground arith; bounded = ground arith; positive = ground arith }

  count_batch-IsConserving :
      (inserted : Bool) (before : List (List R)) (batch : List R) (after : List (List R)) (n : ℕ)
      (w : Writer R)
      → w.in_flight ≡ before ++ batch ∷ after
      → IsConserving n w
      → IsConserving (0 + n) (count_batch inserted batch (record w { in_flight = before ++ after }))
  unfolding count_batch
  count_batch-IsConserving true before batch after n w e c =
      let conserved = c.conserved in
      let split = total-append before (batch ∷ after) in
      let rest = total-append before after in
      record { conserved = omega (arith, ap total e); bounded = c.bounded; positive = c.positive }
  count_batch-IsConserving false before batch after n w e c =
      let conserved = c.conserved in
      let split = total-append before (batch ∷ after) in
      let rest = total-append before after in
      record { conserved = omega (arith, ap total e); bounded = c.bounded; positive = c.positive }

  Step-IsConserving :
      {n k : ℕ} {w v : Writer R} → Step w k v → IsConserving n w → IsConserving (k + n) v
  Step-IsConserving {n} {w = w} (written_one r) c = write-IsConserving r n w c
  Step-IsConserving {n} {w = w} taken c = take_buffer-IsConserving n w c
  Step-IsConserving {n} {w = w} (settled inserted before batch after e) c =
      count_batch-IsConserving inserted before batch after n w e c

  -- However writes and flushes interleave, and whatever batches fail: after `n` calls of `Write` the records written, dropped, buffered and under way are `n` together, and the buffer is within its bound.
  pub Reach-IsConserving :
      {cfg : WriterConfig} {n : ℕ} {w : Writer R} → Reach cfg n w → IsConserving n w
  Reach-IsConserving {cfg} here = new_writer-IsConserving cfg
  Reach-IsConserving (next r s) = Step-IsConserving s (Reach-IsConserving r)
