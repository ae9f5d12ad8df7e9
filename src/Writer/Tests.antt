-- ===== src/Writer/Tests.antt =====
-- A writer with a buffer of two records, and the theorems at it.
use mcp_proxy.Prelude.{[], false, ℕ, ◌∷◌, arith, ◌≡◌, ◌<◌, refl}
use mcp_proxy.Prelude.Int.{pos}
use mcp_proxy.Writer.{Writer, WriterConfig, new_writer, write, take_buffer, count_batch}
use mcp_proxy.Writer.Conservation.{
  Reach, here, next, written_one, taken, settled, IsConserving, Reach-IsConserving,
}
use mcp_proxy.Writer.Order.{Window, writes, writes-Window}

abbrev config : WriterConfig
config = record { buffer_size = pos 2; flush_interval = pos 0 }

abbrev empty : Writer ℕ
empty = new_writer config

-- One record is taken by a flush, which then fails, after another has come in.
abbrev interleaved : Writer ℕ
interleaved =
    count_batch false (1 ∷ []) (record (write 2 (take_buffer (write 1 empty)).0) { in_flight = [] })

under_way : (write 2 (take_buffer (write 1 empty)).0).in_flight ≡ (1 ∷ []) ∷ []
unfolding write take_buffer new_writer
under_way = refl

interleaved_reached : Reach config 2 interleaved
interleaved_reached =
    next (next (next (next here (written_one 1)) taken) (written_one 2))
      (settled false [] (1 ∷ []) [] under_way)

Reach-IsConserving_example : IsConserving 2 interleaved
Reach-IsConserving_example = Reach-IsConserving interleaved_reached

positive : 0 < empty.buffer_max
unfolding new_writer
positive = ground arith

writes-Window_example : Window empty (1 ∷ 2 ∷ 3 ∷ []) (writes (1 ∷ 2 ∷ 3 ∷ []) empty)
writes-Window_example = writes-Window (1 ∷ 2 ∷ 3 ∷ []) empty positive
