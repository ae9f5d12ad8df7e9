-- ===== src/Stdio/Ending.antt =====
-- When the read loop ends.
use mcp_proxy.Prelude.{
  Bool, List, [], ap, arith, false, leb, length, ltb→lt, ltb, refl, suc, true, ℕ, ◌<◌, ◌≡◌, ◌∙◌,
  ◌∷◌, zero, some, none, ◌||◌, ◌⊎◌, inl, inr, ◌↔◌, Option, Bool-cases,
}
use mcp_proxy.Stdio.{
  deliver, Bytes, Scanner, ReadResult, message, eof, read_error, invalid_json, out_of_fuel,
  check_json, drop_cr, ended, is_empty, read_message, read_next, scan, scan_broken, scan_lines,
  tokens_left,
}
use mcp_proxy.Stdio.Framing.{unbroken, scan-short, scan-long, read_message-step}
use mcp_proxy.Session.{Session}
use mcp_proxy.Stdio.Server.{
  Answer, replied, failed, write_response, write_error, after_handler, Loop, Library, Handler,
  running, returned, read_loop, round, on_read, process, parse_error,
}

-- Whether a line does not fit the buffer.
unfoldable pub has_long : ℕ → List Bytes → Bool
has_long limit [] = false
has_long limit (l ∷ ls) = leb limit (length l) || has_long limit ls

-- What the input still holds keeps the loop from ending.
unfoldable pub is_stuck : Scanner → Bool
unfolding has_long
is_stuck s = s.broken || has_long s.limit s.lines

unfoldable pub goes_on : ReadResult → Bool
goes_on eof = false
goes_on out_of_fuel = false
goes_on _ = true

-- One call of `ReadMessage`: with an input that is not stuck, it reports the end or takes a line;
-- a stuck one stays so, and its end is never reported.
abbrev Progress : Scanner → ReadResult × Scanner → Type 0
Progress s (r, s') =
    ((r ≡ eof) × (is_stuck s ≡ false))
    ⊎ ((goes_on r ≡ true)
        × (is_stuck s' ≡ is_stuck s)
        × ((is_stuck s ≡ true) ⊎ (length s'.lines < length s.lines)))

abbrev scanner_at : List Bytes → Bool → Bytes → ℕ → Scanner
scanner_at lines broken buffered limit = record {
  lines = lines;
  broken = broken;
  buffered = buffered;
  limit = limit;
}

skip_line :
    (l : Bytes) (ls : List Bytes) (buffered : Bytes) (limit : ℕ) (p : ReadResult × Scanner)
    → ltb (length l) limit ≡ true
    → Progress (unbroken ls buffered limit) p
    → Progress (unbroken (l ∷ ls) buffered limit) p
unfolding is_stuck has_long
skip_line l ls buffered limit (r, s') short (inl h) = inl (h.0, ground arith)
skip_line l ls buffered limit (r, s') short (inr (go, same, inl h)) =
    inr (go, ground arith, inl (ground arith))
skip_line l ls buffered limit (r, s') short (inr (go, same, inr h)) =
    inr (go, ground arith, inr (ground arith))

check_json-goes_on : (valid : Bytes → Bool) (m : Bytes) → goes_on (check_json valid m) ≡ true
unfolding goes_on check_json
check_json-goes_on valid m = ground arith

scan_end :
    (buffered : Bytes) (limit : ℕ)
    → scan (unbroken [] buffered limit) ≡ (none, unbroken [] buffered limit)
unfolding scan scan_lines
scan_end buffered limit = refl

read_message-Progress :
    (fuel : ℕ) (valid : Bytes → Bool) (lines : List Bytes) (buffered : Bytes) (limit : ℕ)
    → length lines < fuel
    → Progress
        (unbroken lines buffered limit)
        (read_message fuel valid (unbroken lines buffered limit))
unfolding deliver ended is_stuck has_long goes_on
read_message-Progress zero valid lines buffered limit h = absurd (omega arith)
read_message-Progress (suc fuel) valid [] buffered limit h =
    rw (read_message-step, scan_end) (inl (refl, refl))
read_message-Progress (suc fuel) valid (l ∷ ls) buffered limit h =
    rw read_message-step (elim (Bool-cases (ltb (length l) limit)) [
      | inl short ↦
          let one = scan-short l ls buffered limit (ltb→lt _ _ short) in
          elim (Bool-cases (is_empty (drop_cr l))) [
            | inl empty ↦
                rw (one, empty)
                  (skip_line l ls buffered limit
                    (read_message fuel valid (unbroken ls buffered limit)) short
                    (read_message-Progress fuel valid ls buffered limit (omega arith)))
            | inr full ↦
                rw (one, full)
                  (inr (check_json-goes_on valid (drop_cr l), ground arith, inr (omega arith)))
          ]
      | inr long ↦
          rw (scan-long l ls buffered limit (ground arith))
            (inr (refl, ground arith, inl (ground arith)))
    ])

read_broken-Progress :
    (valid : Bytes → Bool) (lines : List Bytes) (buffered : Bytes) (limit : ℕ)
    → Progress
        (scanner_at lines true buffered limit)
        (read_message 2 valid (scanner_at lines true buffered limit))
unfolding is_stuck read_message deliver scan scan_broken ended goes_on check_json is_empty
read_broken-Progress valid lines [] limit = inr (refl, refl, inl refl)
read_broken-Progress valid lines (b ∷ bs) limit = ground arith

progress :
    (valid : Bytes → Bool) (lines : List Bytes) (broken : Bool) (buffered : Bytes) (limit : ℕ)
    → Progress
        (scanner_at lines broken buffered limit)
        (read_next valid (scanner_at lines broken buffered limit))
unfolding read_next tokens_left
progress valid lines true buffered limit = read_broken-Progress valid lines buffered limit
progress valid lines false buffered limit =
    read_message-Progress (suc (suc (length lines))) valid lines buffered limit (omega arith)

read_next-Progress : (valid : Bytes → Bool) (s : Scanner) → Progress s (read_next valid s)
read_next-Progress valid s = progress valid s.lines s.broken s.buffered s.limit

module _ {W : Type 0} where
  scanner-write_response :
      (r : Option Bytes) (l : Loop W) → (write_response r l).scanner ≡ l.scanner
  unfolding write_response
  scanner-write_response none l = refl
  scanner-write_response (some bytes) l = refl

  scanner-after_handler :
      (lib : Library) (msg : Bytes) (a : Answer × Session × W) (l : Loop W)
      → (after_handler lib msg a l).scanner ≡ l.scanner
  unfolding after_handler write_error
  scanner-after_handler lib msg (replied r, session, world) l = scanner-write_response r _
  scanner-after_handler lib msg (failed, session, world) l = scanner-write_response _ _

  scanner-process :
      (lib : Library) (handler : Option (Handler W)) (now : ℕ) (msg : Bytes) (l : Loop W)
      → (process lib handler now msg l).scanner ≡ l.scanner
  unfolding process write_response
  scanner-process lib none now msg l = refl
  scanner-process lib (some h) now msg l = scanner-after_handler lib msg _ l

  -- A round goes on unless the end is reported, and keeps the scanner of the call.
  goes_on-on_read :
      (lib : Library) (handler : Option (Handler W)) (now : ℕ) (r : ReadResult) (s : Scanner)
      (l : Loop W)
      → goes_on r ≡ true
      → ((on_read lib handler now (r, s) l).0 ≡ running)
        × ((on_read lib handler now (r, s) l).1.scanner ≡ s)
  unfolding on_read goes_on parse_error write_error
  goes_on-on_read lib handler now (message m) s l h = (refl, scanner-process lib handler now m _)
  goes_on-on_read lib handler now eof s l h = cc
  goes_on-on_read lib handler now out_of_fuel s l h = cc
  goes_on-on_read lib handler now read_error s l h = (refl, scanner-write_response _ _)
  goes_on-on_read lib handler now invalid_json s l h = (refl, scanner-write_response _ _)

-- Signals that never ask the loop to end.
abbrev pub quiet : List ℕ → List (Bool × ℕ)
quiet [] = []
quiet (now ∷ times) = (false, now) ∷ quiet times

length-quiet : (times : List ℕ) → length (quiet times) ≡ length times
length-quiet [] = refl
length-quiet (now ∷ times) = ap suc (length-quiet times)

module _ {W : Type 0} where
  endless_round :
      (lib : Library) (handler : Option (Handler W)) (now : ℕ) (l : Loop W)
      → is_stuck l.scanner ≡ true
      → ((round lib handler false now l).0 ≡ running)
        × (is_stuck (round lib handler false now l).1.scanner ≡ true)
  unfolding round
  endless_round lib handler now l stuck = elim (read_next-Progress lib.valid l.scanner) [
    | inl (_, free) ↦ cc
    | inr (go, same, _) ↦
        let kept =
          goes_on-on_read lib handler now (read_next lib.valid l.scanner).0
            (read_next lib.valid l.scanner).1 l go in
        (kept.0, ap is_stuck kept.1 ∙ same ∙ stuck)
  ]

  ending_round :
      (lib : Library) (handler : Option (Handler W)) (signal : Bool) (now : ℕ) (l : Loop W)
      → is_stuck l.scanner ≡ false
      → ((round lib handler signal now l).0 ≡ returned)
        ⊎ (((round lib handler signal now l).0 ≡ running)
            × (is_stuck (round lib handler signal now l).1.scanner ≡ false)
            × (length (round lib handler signal now l).1.scanner.lines < length l.scanner.lines))
  unfolding round on_read
  ending_round lib handler true now l free = inl refl
  ending_round lib handler false now l free = elim (read_next-Progress lib.valid l.scanner) [
    | inl (end, _) ↦ inl (rw (end, on_read) refl)
    | inr (go, same, inl stuck) ↦ cc
    | inr (go, same, inr less) ↦
        let kept =
          goes_on-on_read lib handler now (read_next lib.valid l.scanner).0
            (read_next lib.valid l.scanner).1 l go in
        inr (kept.0, ap is_stuck kept.1 ∙ same ∙ free, rw kept.1 less)
  ]

  pub read_loop-returned :
      (lib : Library) (handler : Option (Handler W)) (signals : List (Bool × ℕ)) (l : Loop W)
      → is_stuck l.scanner ≡ false
      → length l.scanner.lines < length signals
      → (read_loop lib handler signals l).0 ≡ returned
  unfolding read_loop
  read_loop-returned lib handler [] l free h = absurd (omega arith)
  read_loop-returned lib handler ((signal, now) ∷ signals) l free h =
      elim (ending_round lib handler signal now l free) [
        | inl end ↦ rw (read_loop, end) refl
        | inr (run, free', less) ↦
            rw (read_loop, run)
              (read_loop-returned lib handler signals (round lib handler signal now l).1 free'
                (omega (arith, h, less)))
      ]

  pub read_loop-running :
      (lib : Library) (handler : Option (Handler W)) (times : List ℕ) (l : Loop W)
      → is_stuck l.scanner ≡ true
      → (read_loop lib handler (quiet times) l).0 ≡ running
  unfolding read_loop
  read_loop-running lib handler [] l stuck = refl
  read_loop-running lib handler (now ∷ times) l stuck =
      let one = endless_round lib handler now l stuck in
      rw (read_loop, one.0)
        (read_loop-running lib handler times (round lib handler false now l).1 one.1)

  -- With no signal to end and more rounds than the input has lines, the loop has returned exactly when no line is as long as the reader's buffer, if the reader starts without an error; else it is still running.
  pub read_loop-returned_iff :
      (lib : Library) (handler : Option (Handler W)) (times : List ℕ) (l : Loop W)
      → l.scanner.broken ≡ false
      → length l.scanner.lines < length times
      → ((read_loop lib handler (quiet times) l).0 ≡ returned)
        ↔ (has_long l.scanner.limit l.scanner.lines ≡ false)
  unfolding is_stuck
  read_loop-returned_iff lib handler times l sound enough = elim (Bool-cases (is_stuck l.scanner)) [
    | inl stuck ↦
        let go = read_loop-running lib handler times l stuck in
        ((λ e. absurd (cc)), (λ e. absurd (ground arith)))
    | inr free ↦ (
      (λ _. ground arith),
      λ _. read_loop-returned lib handler (quiet times) l free (rw (length-quiet times) enough),
    )
  ]
