-- ===== src/Stdio/Serving.antt =====
-- The read loop on frames that the writer made.
use mcp_proxy.Prelude.{
  All, List, Option, [], ap, arith, length, none, some, refl, ℕ, ◌++◌, ◌<◌, ◌≤◌, ◌≡◌, ◌∙◌, ◌∷◌, sym,
}
use mathlib.Core.List.{append_assoc, append-nil}
use mcp_proxy.Session.{Session}
use mcp_proxy.Stdio.{
  Bytes, Scanner, read_next, write, newline, new_reader, new_reader_with_max_size,
  default_max_message_size,
}
use mcp_proxy.Stdio.Framing.{
  frame_append, IsMessage, frames, read_next-message, read_next_end, split_lines-frames, unbroken,
}
use mcp_proxy.Stdio.Ending.{quiet}
use mcp_proxy.Stdio.Server.{
  Answer, Handler, Library, Loop, Status, after_handler, failed, on_read, process, read_loop,
  replied, returned, round, running, write_error, write_response,
}

module _ {W : Type 0} where
  abbrev pub with_scanner : Scanner → Loop W → Loop W
  with_scanner s l = record l { scanner = s }

  -- The messages in their order, each processed at its time.
  unfoldable pub serve : Library → Option (Handler W) → List Bytes → List ℕ → Loop W → Loop W
  unfolding process
  serve lib handler (m ∷ ms) (now ∷ times) l =
      serve lib handler ms times (process lib handler now m l)
  serve lib handler _ _ l = l

  write_response-with_scanner :
      (r : Option Bytes) (s : Scanner) (l : Loop W)
      → write_response r (with_scanner s l) ≡ with_scanner s (write_response r l)
  unfolding write_response
  write_response-with_scanner none s l = refl
  write_response-with_scanner (some bytes) s l = refl

  after_handler-with_scanner :
      (lib : Library) (msg : Bytes) (a : Answer × Session × W) (s : Scanner) (l : Loop W)
      → after_handler lib msg a (with_scanner s l) ≡ with_scanner s (after_handler lib msg a l)
  unfolding after_handler write_error
  after_handler-with_scanner lib msg (replied r, session, world) s l =
      write_response-with_scanner r s (record l { session = session; world = world })
  after_handler-with_scanner lib msg (failed, session, world) s l =
      write_response-with_scanner _ s (record l { session = session; world = world })

  process-with_scanner :
      (lib : Library) (handler : Option (Handler W)) (now : ℕ) (m : Bytes) (s : Scanner)
      (l : Loop W)
      → process lib handler now m (with_scanner s l) ≡ with_scanner s (process lib handler now m l)
  unfolding process write_response
  process-with_scanner lib none now m s l = refl
  process-with_scanner lib (some h) now m s l = after_handler-with_scanner lib m _ s l

  serve-with_scanner :
      (lib : Library) (handler : Option (Handler W)) (ms : List Bytes) (times : List ℕ)
      (s : Scanner) (l : Loop W)
      → serve lib handler ms times (with_scanner s l)
        ≡ with_scanner s (serve lib handler ms times l)
  unfolding serve
  serve-with_scanner lib handler [] times s l = refl
  serve-with_scanner lib handler (m ∷ ms) [] s l = refl
  serve-with_scanner lib handler (m ∷ ms) (now ∷ times) s l =
      ap (serve lib handler ms times) (process-with_scanner lib handler now m s l)
      ∙ serve-with_scanner lib handler ms times s (process lib handler now m l)

  read_loop-step :
      (lib : Library) (handler : Option (Handler W)) (now : ℕ) (times : List ℕ) (l l' : Loop W)
      (status : Status)
      → on_read lib handler now (read_next lib.valid l.scanner) l ≡ (status, l')
      → read_loop lib handler (quiet (now ∷ times)) l ≡ (elim status [
        | running ↦ read_loop lib handler (quiet times) l'
        | returned ↦ (returned, l')
      ])
  unfolding read_loop round
  read_loop-step lib handler now times l l' status e =
      ap
        (λ p. elim p.0 [
          | running ↦ read_loop lib handler (quiet times) p.1
          | returned ↦ (returned, p.1)
        ])
        e

  read_loop-lines :
      (lib : Library) (handler : Option (Handler W)) (ms : List Bytes) (times : List ℕ)
      (buffered : Bytes) (limit : ℕ) (l : Loop W)
      → All (IsMessage lib.valid limit) ms
      → length ms < length times
      → read_loop lib handler (quiet times) (with_scanner (unbroken ms buffered limit) l)
        ≡ (returned, with_scanner (unbroken [] buffered limit) (serve lib handler ms times l))
  unfolding on_read serve
  read_loop-lines lib handler ms [] buffered limit l ok h = absurd (omega arith)
  read_loop-lines lib handler [] (now ∷ times) buffered limit l ok h =
      read_loop-step lib handler now times _ _ returned (
        ap (λ r. on_read lib handler now r (with_scanner (unbroken [] buffered limit) l))
          (read_next_end lib.valid buffered limit))
  read_loop-lines lib handler (m ∷ ms) (now ∷ times) buffered limit l ok h =
      read_loop-step lib handler now times _
        (with_scanner (unbroken ms buffered limit) (process lib handler now m l)) running
        (ap (λ r. on_read lib handler now r (with_scanner (unbroken (m ∷ ms) buffered limit) l))
            (read_next-message lib.valid m ms buffered limit ok.0)
          ∙ ap (λ l'. (running, l'))
              (process-with_scanner lib handler now m (unbroken ms buffered limit) l))
      ∙ read_loop-lines lib handler ms times buffered limit (process lib handler now m l) ok.1
          (omega (arith, h))

  -- When the input is the frames of messages, each valid JSON in one line that is not empty, does not end in a carriage return and is shorter than the reader's limit, and the loop has more rounds than there are messages and no signal to end, then it returns, and has processed each message once, in order, answers and request count included, and nothing else.
  pub read_loop-frames :
      (lib : Library) (handler : Option (Handler W)) (ms : List Bytes) (times : List ℕ) (l : Loop W)
      → All (IsMessage lib.valid default_max_message_size) ms
      → length ms < length times
      → read_loop lib handler (quiet times) (with_scanner (new_reader (frames ms)) l)
        ≡ (returned, with_scanner (new_reader []) (serve lib handler ms times l))
  unfolding new_reader new_reader_with_max_size
  read_loop-frames lib handler ms times l ok h =
      ap
        (λ lines.
          read_loop lib handler (quiet times)
            (with_scanner (unbroken lines [] default_max_message_size) l))
        (split_lines-frames lib.valid default_max_message_size ms ok)
      ∙ read_loop-lines lib handler ms times [] default_max_message_size l ok h

process_echo :
    (lib : Library) (now : ℕ) (m : Bytes) (l : Loop Unit)
    → (process lib none now m l).output ≡ l.output ++ m ++ newline ∷ []
unfolding process write_response write
process_echo lib now m l = refl

frames_echo :
    (lib : Library) (ms : List Bytes) (times : List ℕ) (l : Loop Unit)
    → length ms ≤ length times
    → (serve lib none ms times l).output ≡ l.output ++ frames ms
unfolding serve process write_response write frames
frames_echo lib [] times l h = sym (append-nil l.output)
frames_echo lib (m ∷ ms) [] l h = absurd (omega (arith, h))
frames_echo lib (m ∷ ms) (now ∷ times) l h =
    frames_echo lib ms times (process lib none now m l) (omega (arith, h))
    ∙ ap (λ o. o ++ frames ms) (process_echo lib now m l)
    ∙ append_assoc (l.output ++ m) (newline ∷ []) (frames ms)
    ∙ append_assoc l.output m (newline ∷ frames ms)
    ∙ ap (λ f. l.output ++ f) (sym (frame_append m (frames ms)))

-- Without a handler, and for messages that are each valid JSON in one line, not empty, without a carriage return at the end and shorter than the reader's limit: what the loop writes, given more rounds than there are messages and no signal to end, is the frames that it read.
pub read_loop-echo :
    (lib : Library) (ms : List Bytes) (times : List ℕ) (l : Loop Unit)
    → All (IsMessage lib.valid default_max_message_size) ms
    → length ms < length times
    → (read_loop lib none (quiet times) (with_scanner (new_reader (frames ms)) l)).1.output
      ≡ l.output ++ frames ms
read_loop-echo lib ms times l ok h =
    ap (λ p. p.1.output) (read_loop-frames lib none ms times l ok h)
    ∙ frames_echo lib ms times l (omega (arith, h))
