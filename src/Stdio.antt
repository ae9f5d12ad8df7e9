-- ===== src/Stdio.antt =====
-- internal/transport/stdio/reader.go and writer.go: newline-framed messages.
--
-- `bufio.Scanner` is written out for its line splitting: what it does at the end of the input, with
-- a trailing carriage return, with a line that does not fit its buffer, and when it is called again
-- after that. The input is the whole input. Validity of JSON is the parameter `valid`. Output never
-- fails here.
pub mod Framing
pub mod Ending
pub mod Server
pub mod Serving
pub mod Tests
use mcp_proxy.Prelude.{
  Bool, List, Option, [], eqb, false, if◌then◌else◌, leb, length, ltb, none, some, suc, true, zero,
  ℕ, ◌*◌, ◌++◌, ◌-◌, ◌∷◌,
}

abbrev pub Bytes : Type 0
Bytes = List ℕ

abbrev pub newline : ℕ
newline = 10

abbrev pub carriage_return : ℕ
carriage_return = 13

-- The first byte of a line.
unfoldable pub push : ℕ → List Bytes → List Bytes
push b [] = (b ∷ []) ∷ []
push b (l ∷ ls) = (b ∷ l) ∷ ls

unfoldable pub split_lines : Bytes → List Bytes
unfolding push
split_lines [] = []
split_lines (b ∷ bs) = let rest = split_lines bs in if eqb b newline then [] ∷ rest else push b rest

-- dropCR
unfoldable pub drop_cr : Bytes → Bytes
drop_cr [] = []
drop_cr (b ∷ []) = if eqb b carriage_return then [] else b ∷ []
drop_cr (b ∷ c ∷ bs) = b ∷ drop_cr (c ∷ bs)

unfoldable pub take {ℓ} : {A : Type ℓ} → ℕ → List A → List A
take zero xs = []
take (suc n) [] = []
take (suc n) (x ∷ xs) = x ∷ take n xs

unfoldable pub is_empty {ℓ} : {A : Type ℓ} → List A → Bool
is_empty [] = true
is_empty (_ ∷ _) = false

pub record Scanner : Type 0 where
  -- the lines not scanned yet
  pub lines : List Bytes
  -- the error ErrTooLong has been set
  pub broken : Bool
  -- what the buffer holds after that error
  pub buffered : Bytes
  -- one more than the length of the longest line
  pub limit : ℕ

-- 64*1024, the capacity of the buffer that is handed over
abbrev pub initial_buffer : ℕ
initial_buffer = 65536

abbrev pub default_max_message_size : ℕ
default_max_message_size = 1048576

-- NewReaderWithMaxSize
unfoldable pub new_reader_with_max_size : Bytes → ℕ → Scanner
unfolding split_lines
new_reader_with_max_size input max_size = record {
  lines = split_lines input;
  broken = false;
  buffered = [];
  limit = if leb initial_buffer max_size then max_size else initial_buffer;
}

unfoldable pub new_reader : Bytes → Scanner
unfolding new_reader_with_max_size
new_reader input = new_reader_with_max_size input default_max_message_size

-- With the error set, what is left in the buffer is the last token.
unfoldable pub scan_broken : Scanner → Option Bytes × Scanner
unfolding is_empty drop_cr
scan_broken s =
    if is_empty s.buffered
    then (none, s)
    else (some (drop_cr s.buffered), record s { buffered = [] })

unfoldable pub scan_lines : List Bytes → Scanner → Option Bytes × Scanner
unfolding drop_cr take
scan_lines [] s = (none, s)
scan_lines (line ∷ rest) s =
    if ltb (length line) s.limit
    then (some (drop_cr line), record s { lines = rest })
    else (none, record s { broken = true; buffered = take s.limit line })

-- Scan, with the token that Bytes then returns.
unfoldable pub scan : Scanner → Option Bytes × Scanner
unfolding scan_broken scan_lines
scan s = if s.broken then scan_broken s else scan_lines s.lines s

pub data ReadResult : Type 0 where
  message : Bytes → ReadResult
  eof read_error invalid_json out_of_fuel : ReadResult

unfoldable pub check_json : (Bytes → Bool) → Bytes → ReadResult
check_json valid msg = if valid msg then message msg else invalid_json

unfoldable pub ended : Scanner → ReadResult
ended s = if s.broken then read_error else eof

-- What ReadMessage makes of one call of Scan; `rest` is what its call of itself returns.
unfoldable pub deliver :
    (Bytes → Bool) → Option Bytes × Scanner → ReadResult × Scanner → ReadResult × Scanner
unfolding ended is_empty check_json
deliver valid (none, s) rest = (ended s, s)
deliver valid (some line, s) rest = if is_empty line then rest else (check_json valid line, s)

-- ReadMessage, which calls itself at an empty line. The fuel bounds these calls.
unfoldable pub read_message : ℕ → (Bytes → Bool) → Scanner → ReadResult × Scanner
unfolding scan deliver
read_message zero valid s = (out_of_fuel, s)
read_message (suc fuel) valid s =
    let rest = read_message fuel valid (scan s).1 in deliver valid (scan s) rest

-- Enough fuel for `read_message`: one more than the tokens that are left.
unfoldable pub tokens_left : Scanner → ℕ
tokens_left s = if s.broken then 1 else suc (length s.lines)

unfoldable pub read_next : (Bytes → Bool) → Scanner → ReadResult × Scanner
unfolding read_message tokens_left
read_next valid s = read_message (suc (tokens_left s)) valid s

-- Write, to an output that takes every byte.
unfoldable pub write : Bytes → Bytes → Bytes
write bytes out = out ++ bytes ++ newline ∷ []
