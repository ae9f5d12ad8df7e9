-- ===== src/Stdio/Framing.antt =====
-- The frames that the writer makes are the lines that the reader finds.
use mcp_proxy.Prelude.{
  All, Bool, List, [], ap, arith, eqb, false, length, refl, suc, true, ℕ, ◌++◌, ◌<◌, ◌≤◌, ◌≡◌, ◌∙◌,
  ◌∷◌, some, none,
}
use mcp_proxy.Stdio.{
  eof, Bytes, Scanner, carriage_return, check_json, deliver, drop_cr, ended, is_empty, message,
  newline, take, push, read_message, read_next, scan, scan_lines, split_lines, write, tokens_left,
}

-- What the writer makes of messages, one after the other.
unfoldable pub frames : List Bytes → Bytes
unfolding write
frames [] = []
frames (m ∷ ms) = write m [] ++ frames ms

unfoldable pub ends_in_cr : Bytes → Bool
ends_in_cr [] = false
ends_in_cr (b ∷ []) = eqb b carriage_return
ends_in_cr (b ∷ c ∷ bs) = ends_in_cr (c ∷ bs)

-- A message that fits one frame: valid JSON in one line that is not empty, does not end in a
-- carriage return and is shorter than `limit`.
pub record IsMessage (valid : Bytes → Bool) (limit : ℕ) (m : Bytes) : Type 0 where
  pub filled : is_empty m ≡ false
  pub one_line : All (λ b. eqb b newline ≡ false) m
  pub no_cr : ends_in_cr m ≡ false
  pub short : length m < limit
  pub is_json : valid m ≡ true

-- A scanner that has met no error.
abbrev pub unbroken : List Bytes → Bytes → ℕ → Scanner
unbroken lines buffered limit = record {
  lines = lines;
  broken = false;
  buffered = buffered;
  limit = limit;
}

split_lines-line :
    (m rest : Bytes)
    → All (λ b. eqb b newline ≡ false) m
    → split_lines (m ++ newline ∷ rest) ≡ m ∷ split_lines rest
unfolding split_lines push
split_lines-line [] rest h = refl
split_lines-line (b ∷ m) rest h = ground (arith, split_lines-line m rest h.1)

pub frame_append : (m rest : Bytes) → (m ++ newline ∷ []) ++ rest ≡ m ++ newline ∷ rest
frame_append [] rest = refl
frame_append (b ∷ m) rest = ap (λ l. b ∷ l) (frame_append m rest)

pub split_lines-frames :
    (valid : Bytes → Bool) (limit : ℕ) (ms : List Bytes)
    → All (IsMessage valid limit) ms
    → split_lines (frames ms) ≡ ms
unfolding frames write split_lines
split_lines-frames valid limit [] h = refl
split_lines-frames valid limit (m ∷ ms) h =
    ap split_lines (ap (λ l. l ++ frames ms) refl ∙ frame_append m (frames ms))
    ∙ split_lines-line m (frames ms) h.0.one_line
    ∙ ap (λ l. m ∷ l) (split_lines-frames valid limit ms h.1)

drop_cr_lem : (m : Bytes) → ends_in_cr m ≡ false → drop_cr m ≡ m
unfolding drop_cr ends_in_cr
drop_cr_lem [] h = refl
drop_cr_lem (b ∷ []) h = ground arith
drop_cr_lem (b ∷ c ∷ bs) h = ap (λ l. b ∷ l) (drop_cr_lem (c ∷ bs) h)

pub read_message-step :
    (fuel : ℕ) (valid : Bytes → Bool) (s : Scanner)
    → read_message (suc fuel) valid s ≡ deliver valid (scan s) (read_message fuel valid (scan s).1)
unfolding read_message
read_message-step fuel valid s = refl

pub scan-short :
    (m : Bytes) (ms : List Bytes) (buffered : Bytes) (limit : ℕ)
    → length m < limit
    → scan (unbroken (m ∷ ms) buffered limit) ≡ (some (drop_cr m), unbroken ms buffered limit)
unfolding scan scan_lines
scan-short m ms buffered limit h = ground arith

pub scan-long :
    (m : Bytes) (ms : List Bytes) (buffered : Bytes) (limit : ℕ)
    → limit ≤ length m
    → scan (unbroken (m ∷ ms) buffered limit)
      ≡ (none, record { lines = m ∷ ms; broken = true; buffered = take limit m; limit = limit })
unfolding scan scan_lines
scan-long m ms buffered limit h = ground arith

-- The next message is read as it was written, and the rest of the lines is left.
pub read_next-message :
    (valid : Bytes → Bool) (m : Bytes) (ms : List Bytes) (buffered : Bytes) (limit : ℕ)
    → IsMessage valid limit m
    → read_next valid (unbroken (m ∷ ms) buffered limit) ≡ (message m, unbroken ms buffered limit)
unfolding read_next deliver check_json
read_next-message valid m ms buffered limit h =
    read_message-step (tokens_left (unbroken (m ∷ ms) buffered limit)) valid
      (unbroken (m ∷ ms) buffered limit)
    ∙ rw (scan-short m ms buffered limit h.short, drop_cr_lem m h.no_cr, h.filled, h.is_json) refl

pub read_next_end :
    (valid : Bytes → Bool) (buffered : Bytes) (limit : ℕ)
    → read_next valid (unbroken [] buffered limit) ≡ (eof, unbroken [] buffered limit)
unfolding read_next read_message scan scan_lines ended deliver
read_next_end valid buffered limit = refl
