-- ===== src/Stdio/Tests.antt =====
-- The theorems at small inputs: messages are digits and letters, and all of them count as valid.
use mcp_proxy.Prelude.{
  List, [], false, if◌then◌else◌, length, leb, none, some, true, ℕ, ◌∷◌, arith, ◌≡◌, refl, ◌↔◌,
}
use mcp_proxy.Session.{new_session}
use mcp_proxy.Stdio.{Bytes, Scanner, new_reader, is_empty}
use mcp_proxy.Stdio.Framing.{IsMessage, frames, ends_in_cr}
use mcp_proxy.Stdio.Ending.{has_long, quiet, read_loop-returned_iff}
use mcp_proxy.Stdio.Serving.{read_loop-frames, serve, with_scanner}
use mcp_proxy.Stdio.Server.{Handler, Library, Loop, failed, read_loop, replied, returned}

abbrev library : Library
library = record { valid = λ _. true; marshal = λ _. some (b'e' ∷ []); request_id = λ _. none }

abbrev first : Bytes
first = b'7' ∷ []

abbrev second : Bytes
second = b'x' ∷ b'y' ∷ []

abbrev messages : List Bytes
messages = first ∷ second ∷ []

abbrev times : List ℕ
times = 5 ∷ 6 ∷ 7 ∷ []

abbrev start : Scanner → Loop Unit
start s = record { scanner = s; session = new_session "sess_1" 3; output = []; world = tt }

-- Answers the first message and fails on a longer one.
abbrev handler : Handler Unit
handler s m w = (if leb (length m) 1 then replied (some (b'k' ∷ [])) else failed, s, w)

first-IsMessage : IsMessage library.valid 1048576 first
unfolding is_empty ends_in_cr
first-IsMessage = record {
  filled = refl;
  one_line = (refl, tt);
  no_cr = refl;
  short = omega arith;
  is_json = refl;
}

second-IsMessage : IsMessage library.valid 1048576 second
unfolding is_empty ends_in_cr
second-IsMessage = record {
  filled = refl;
  one_line = (refl, (refl, tt));
  no_cr = refl;
  short = omega arith;
  is_json = refl;
}

read_loop-frames_example :
    read_loop library
      (some handler)
      (quiet times)
      (with_scanner (new_reader (frames messages)) (start (new_reader [])))
    ≡ (
      returned,
      with_scanner
          (new_reader [])
          (serve library (some handler) messages times (start (new_reader []))),
    )
read_loop-frames_example =
    read_loop-frames library (some handler) messages times (start (new_reader []))
      (first-IsMessage, (second-IsMessage, tt)) (omega arith)

served :
    (serve library (some handler) messages times (start (new_reader []))).output
    ≡ b'k' ∷ 10 ∷ b'e' ∷ 10 ∷ []
unfolding serve
served = refl

-- A reader with room for lines of one byte.
abbrev narrow : Scanner
narrow = record { lines = messages; broken = false; buffered = []; limit = 2 }

read_loop-returned_iff_example :
    ((read_loop library none (quiet times) (start narrow)).0 ≡ returned)
    ↔ (has_long 2 messages ≡ false)
read_loop-returned_iff_example =
    read_loop-returned_iff library none times (start narrow) refl (omega arith)

narrow_has_long : has_long 2 messages ≡ true
unfolding has_long
narrow_has_long = refl
