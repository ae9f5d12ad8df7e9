-- ===== src/Writer.antt =====
-- internal/audit/writer.go: the buffered writer of audit records.
--
-- What a record holds does not matter here: records are of any type `R`. `flush` holds the buffer's
-- lock only while it takes the buffer, so it is two steps, `take_buffer` and `settle`, between which
-- other goroutines may run: a batch taken and not yet counted is in `in_flight`. Whether InsertBatch
-- succeeds is an argument.
pub mod Conservation
pub mod Order
pub mod Tests
use mcp_proxy.Prelude.{Bool, List, [], false, if◌then◌else◌, leb, length, true, ℕ, ◌+◌, ◌++◌, ◌∷◌}
use mcp_proxy.Prelude.Int.{leb_ℤ, pos, pos_part, ℤ}

pub record Writer (R : Type 0) : Type 0 where
  -- oldest first
  pub buffer : List R
  pub buffer_max : ℕ
  pub flush_interval : ℤ
  -- whether the channel of one flush request is full
  pub flush_chan : Bool
  -- the batches that a flush has taken and not yet counted
  pub in_flight : List (List R)
  pub written : ℕ
  pub dropped : ℕ
  pub flushes : ℕ

pub record WriterConfig : Type 0 where
  pub buffer_size : ℤ
  pub flush_interval : ℤ

-- time.Second
abbrev pub second : ℤ
second = pos 1000000000

-- A size that is not positive becomes 100.
unfoldable pub size_of : ℤ → ℕ
size_of n = if leb_ℤ n (pos 0) then 100 else pos_part n

unfoldable pub interval_of : ℤ → ℤ
interval_of n = if leb_ℤ n (pos 0) then second else n

-- s[1:]
unfoldable pub tail {ℓ} : {A : Type ℓ} → List A → List A
tail [] = []
tail (_ ∷ xs) = xs

module _ {R : Type 0} where
  unfoldable pub new_writer : WriterConfig → Writer R
  unfolding size_of interval_of
  new_writer cfg = record {
    buffer = [];
    buffer_max = size_of cfg.buffer_size;
    flush_interval = interval_of cfg.flush_interval;
    flush_chan = false;
    in_flight = [];
    written = 0;
    dropped = 0;
    flushes = 0;
  }

  -- When the buffer is full: ask for a flush, unless one is asked for, and drop the oldest record.
  -- The lock is held, so the buffer is still full after asking.
  unfoldable pub drop_oldest : Writer R → Writer R
  unfolding tail
  drop_oldest w = record w { flush_chan = true; buffer = tail w.buffer; dropped = w.dropped + 1 }

  unfoldable pub with_space : Writer R → Writer R
  unfolding drop_oldest
  with_space w = if leb w.buffer_max (length w.buffer) then drop_oldest w else w

  unfoldable pub append_record : R → Writer R → Writer R
  append_record r w = record w { buffer = w.buffer ++ r ∷ [] }

  unfoldable pub write : R → Writer R → Writer R
  unfolding with_space append_record
  write r w = append_record r (with_space w)

  -- The first half of `flush`. An empty buffer ends the flush.
  unfoldable pub take_buffer : Writer R → Writer R × List R
  take_buffer w = elim w.buffer [
    | [] ↦ (w, [])
    | r ∷ rs ↦ (record w { buffer = []; in_flight = (r ∷ rs) ∷ w.in_flight }, r ∷ rs)
  ]

  -- The counters after InsertBatch.
  unfoldable pub count_batch : Bool → List R → Writer R → Writer R
  count_batch true batch w = record w {
    written = w.written + length batch;
    flushes = w.flushes + 1;
  }
  count_batch false batch w = record w { dropped = w.dropped + length batch }

  -- The second half of `flush`, for the batch taken last.
  unfoldable pub settle : Bool → Writer R → Writer R
  unfolding count_batch
  settle inserted w = elim w.in_flight [
    | [] ↦ w
    | batch ∷ rest ↦ count_batch inserted batch (record w { in_flight = rest })
  ]

  unfoldable pub flush : Bool → Writer R → Writer R
  unfolding take_buffer settle
  flush inserted w = elim w.buffer [ [] ↦ w | _ ∷ _ ↦ settle inserted (take_buffer w).0 ]

  -- One round of the loop on a flush request, which empties the channel.
  unfoldable pub requested_flush : Bool → Writer R → Writer R
  unfolding flush
  requested_flush inserted w =
      if w.flush_chan then flush inserted (record w { flush_chan = false }) else w
