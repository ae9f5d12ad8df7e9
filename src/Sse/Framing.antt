-- ===== src/Sse/Framing.antt =====
-- What the upstream client reads of an event that `sendEvent` has written.
use Prim.Native.Char.{Char, code}
use Prim.Native.String.{◌++◌ as ◌++ˢ◌}
use text.Mathlib.TextLemmas.{append_assoc, cons-append, nil-append}
use mcp_proxy.Prelude.{
  Bool, Bool-cases, List, Option, String, ap, arith, eq_iff, eqb, false, if◌then◌else◌, inl, inr,
  none, refl, some, true, ◌==◌, ◌≡◌, ◌∙◌, ◌∷◌,
}
use mcp_proxy.Sse.{send_event}
use mcp_proxy.Upstream.{Client, Decoder, handle_event}
use mcp_proxy.Upstream.Events.{
  Fields, after_prefix, has_prefix, complete_lines, end_event, keep_char, no_fields, push_first,
  read_events, read_field, read_stream, trim, trim_left, trim_right,
}

-- No newline.
unfoldable pub one_line : String → Bool
one_line String.[] = true
one_line (String.◌∷◌ c s) = if eqb (code c) 10 then false else one_line s

-- A text that the reader takes as it is: in one line, not empty, with no space at either end.
pub record IsPlain (s : String) : Type 0 where
  pub in_line : one_line s ≡ true
  pub filled : (s == "") ≡ false
  pub left : trim_left s ≡ s
  pub right : trim_right s ≡ s

complete_lines-line :
    (l rest : String)
    → one_line l ≡ true
    → complete_lines (l ++ˢ ("\n" ++ˢ rest)) ≡ l ∷ complete_lines rest
unfolding complete_lines push_first one_line
complete_lines-line String.[] rest h =
    rw (nil-append ("\n" ++ˢ rest), cons-append _ "" rest, nil-append rest) refl
complete_lines-line (String.◌∷◌ c l) rest h =
    rw (cons-append c l ("\n" ++ˢ rest)) (ground (arith, complete_lines-line l rest))

cons_filled : (c : Char) (s : String) → (String.◌∷◌ c s == "") ≡ false
cons_filled c s = elim (Bool-cases (String.◌∷◌ c s == "")) [
  | inl e ↦ let one = (eq_iff (String.◌∷◌ c s) "").0 e in cc
  | inr e ↦ e
]

keep_char_lem : (c : Char) (s : String) → (s == "") ≡ false → keep_char c s ≡ String.◌∷◌ c s
unfolding keep_char
keep_char_lem c String.[] f = cc
keep_char_lem c (String.◌∷◌ d s) f = refl

append_filled : (p s : String) → (s == "") ≡ false → (p ++ˢ s == "") ≡ false
append_filled String.[] s f = rw (nil-append s) f
append_filled (String.◌∷◌ c p) s f = rw (cons-append c p s) (cons_filled c (p ++ˢ s))

trim_right-append :
    (p s : String) → trim_right s ≡ s → (s == "") ≡ false → trim_right (p ++ˢ s) ≡ p ++ˢ s
unfolding trim_right keep_char
trim_right-append String.[] s h f = rw (nil-append s) h
trim_right-append (String.◌∷◌ c p) s h f =
    rw (cons-append c p s, trim_right-append p s h f)
      (keep_char_lem c (p ++ˢ s) (append_filled p s f))

has_prefix-append : (p s : String) → has_prefix p (p ++ˢ s) ≡ true
unfolding has_prefix
has_prefix-append String.[] s = refl
has_prefix-append (String.◌∷◌ d p) s =
    rw (cons-append d p s) (ground (arith, has_prefix-append p s))

after_prefix-append : (p s : String) → after_prefix p (p ++ˢ s) ≡ s
unfolding after_prefix
after_prefix-append String.[] s = nil-append s
after_prefix-append (String.◌∷◌ d p) s = rw (cons-append d p s) (after_prefix-append p s)

trim_left_space : (s : String) → trim_left (" " ++ˢ s) ≡ trim_left s
unfolding trim_left
trim_left_space s = rw (cons-append _ "" s, nil-append s) refl

trim_left_event : (e : String) → trim_left ("event: " ++ˢ e) ≡ "event: " ++ˢ e
unfolding trim_left
trim_left_event e = rw (cons-append _ "vent: " e) refl

trim_left_data : (d : String) → trim_left ("data: " ++ˢ d) ≡ "data: " ++ˢ d
unfolding trim_left
trim_left_data d = rw (cons-append _ "ata: " d) refl

data_no_event : (d : String) → has_prefix "event:" ("data: " ++ˢ d) ≡ false
unfolding has_prefix
data_no_event d = rw (cons-append _ "ata: " d) refl

-- A space before a text that has none at its ends.
trim_space : (s : String) → IsPlain s → trim (" " ++ˢ s) ≡ s
unfolding trim
trim_space s h = ap trim_right (trim_left_space s ∙ h.left) ∙ h.right

trim_event : (e : String) → IsPlain e → trim ("event: " ++ˢ e) ≡ "event: " ++ˢ e
unfolding trim
trim_event e h = ap trim_right (trim_left_event e) ∙ trim_right-append "event: " e h.right h.filled

trim_data : (d : String) → IsPlain d → trim ("data: " ++ˢ d) ≡ "data: " ++ˢ d
unfolding trim
trim_data d h = ap trim_right (trim_left_data d) ∙ trim_right-append "data: " d h.right h.filled

read_field-event :
    (e : String) (f : Fields) → IsPlain e → read_field ("event: " ++ˢ e) f ≡ record f { event = e }
unfolding read_field
read_field-event e f h =
    rw
      (
        append_assoc "event:" " " e,
        has_prefix-append "event:" (" " ++ˢ e),
        after_prefix-append "event:" (" " ++ˢ e),
        trim_space e h,
      )
      refl

read_field-data :
    (d : String) (f : Fields) → IsPlain d → read_field ("data: " ++ˢ d) f ≡ record f { body = d }
unfolding read_field
read_field-data d f h =
    rw
      (
        data_no_event d,
        append_assoc "data:" " " d,
        has_prefix-append "data:" (" " ++ˢ d),
        after_prefix-append "data:" (" " ++ˢ d),
        trim_space d h,
      )
      refl

send_event-text :
    (e d rest : String)
    → (e == "") ≡ false
    → (d == "") ≡ false
    → send_event e d ++ˢ rest
      ≡ ("event: " ++ˢ e) ++ˢ ("\n" ++ˢ (("data: " ++ˢ d) ++ˢ ("\n" ++ˢ ("" ++ˢ ("\n" ++ˢ rest)))))
unfolding send_event
send_event-text e d rest he hd = rw (he, hd) (simp (append_assoc, nil-append))

one_line-append : (p s : String) → one_line p ≡ true → one_line s ≡ true → one_line (p ++ˢ s) ≡ true
unfolding one_line
one_line-append String.[] s h k = rw (nil-append s) k
one_line-append (String.◌∷◌ c p) s h k =
    rw (cons-append c p s) (ground (arith, one_line-append p s))

complete_lines-send_event :
    (e d rest : String)
    → IsPlain e
    → IsPlain d
    → complete_lines (send_event e d ++ˢ rest)
      ≡ ("event: " ++ˢ e) ∷ ("data: " ++ˢ d) ∷ "" ∷ complete_lines rest
unfolding one_line
complete_lines-send_event e d rest he hd =
    ap complete_lines (send_event-text e d rest he.filled hd.filled)
    ∙ complete_lines-line ("event: " ++ˢ e) _ (one_line-append "event: " e refl he.in_line)
    ∙ ap (λ ls. ("event: " ++ˢ e) ∷ ls)
        (complete_lines-line ("data: " ++ˢ d) _ (one_line-append "data: " d refl hd.in_line)
          ∙ ap (λ ls. ("data: " ++ˢ d) ∷ ls) (complete_lines-line "" rest refl))

module _ (request_id : Decoder) where
  read_field_line :
      (l : String) (lines : List String) (f g : Fields) (c : Client)
      → (l == "") ≡ false
      → trim l ≡ l
      → read_field l f ≡ g
      → read_events request_id (l ∷ lines) f c ≡ read_events request_id lines g c
  unfolding read_events
  read_field_line l lines f g c filled kept read = rw (read_events, kept, filled, read) refl

  read_blank_line :
      (lines : List String) (e d : String) (c : Client)
      → (e == "") ≡ false
      → read_events request_id ("" ∷ lines) (record { event = e; body = d }) c
        ≡ (elim (handle_event request_id e d c) [
          | none ↦ none
          | some b ↦ read_events request_id lines no_fields b
        ])
  unfolding read_events end_event
  read_blank_line lines e d c filled = rw (read_events, end_event, filled) refl

-- What is left to do after an event.
abbrev pub then_read : Decoder → String → Option Client → Option Client
then_read request_id rest none = none
then_read request_id rest (some c) = read_stream request_id rest c

then_read_lem :
    (request_id : Decoder) (rest : String) (o : Option Client)
    → (elim o [ none ↦ none | some b ↦ read_events request_id (complete_lines rest) no_fields b ])
      ≡ then_read request_id rest o
unfolding read_stream
then_read_lem request_id rest none = refl
then_read_lem request_id rest (some c) = refl

-- What `sendEvent` writes of a type and data, each in one line, not empty and without spaces at its ends, the client's reader takes for one event of this type and data, and goes on with what follows.
pub read_stream-send_event :
    (request_id : Decoder) (e d rest : String) (c : Client)
    → IsPlain e
    → IsPlain d
    → read_stream request_id (send_event e d ++ˢ rest) c
      ≡ then_read request_id rest (handle_event request_id e d c)
unfolding read_stream
read_stream-send_event request_id e d rest c he hd =
    let lines = complete_lines rest in
    ap (λ ls. read_events request_id ls no_fields c) (complete_lines-send_event e d rest he hd)
    ∙ read_field_line request_id ("event: " ++ˢ e) (("data: " ++ˢ d) ∷ "" ∷ lines) no_fields
        (record { event = e; body = "" }) c (append_filled "event: " e he.filled) (trim_event e he)
        (read_field-event e no_fields he)
    ∙ read_field_line request_id ("data: " ++ˢ d) ("" ∷ lines) (record { event = e; body = "" })
        (record { event = e; body = d }) c (append_filled "data: " d hd.filled) (trim_data d hd)
        (read_field-data d (record { event = e; body = "" }) hd)
    ∙ read_blank_line request_id lines e d c he.filled
    ∙ then_read_lem request_id rest (handle_event request_id e d c)
