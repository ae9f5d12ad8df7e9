-- ===== src/Upstream/Events.antt =====
-- internal/upstream/client.go: readEvents, on the lines of the stream.
--
-- The stream is given whole; what follows its last newline is dropped. The event fields are `event`
-- and `body` (data).
use Prim.Native.Char.{Char, code}
use mcp_proxy.Prelude.{
  Bool, List, Option, String, [], eqb, if◌then◌else◌, leb, none, some, ℕ, ◌&&◌, ◌==◌, ◌∷◌, ◌||◌,
  not, true, false,
}
use mcp_proxy.Upstream.{Client, Decoder, handle_disconnect, handle_event}

-- unicode.IsSpace
unfoldable pub is_space : ℕ → Bool
is_space c =
    leb 9 c && leb c 13
    || eqb c 32
    || eqb c 133
    || eqb c 160
    || eqb c 5760
    || leb 8192 c && leb c 8202
    || eqb c 8232
    || eqb c 8233
    || eqb c 8239
    || eqb c 8287
    || eqb c 12288

unfoldable pub trim_left : String → String
unfolding is_space
trim_left String.[] = String.[]
trim_left (String.◌∷◌ c s) =
    let rest = trim_left s in if is_space (code c) then rest else String.◌∷◌ c s

-- A character before what is left of the rest: a space before nothing is dropped.
unfoldable pub keep_char : Char → String → String
unfolding is_space
keep_char c String.[] = if is_space (code c) then String.[] else String.◌∷◌ c String.[]
keep_char c (String.◌∷◌ d s) = String.◌∷◌ c (String.◌∷◌ d s)

unfoldable pub trim_right : String → String
unfolding keep_char
trim_right String.[] = String.[]
trim_right (String.◌∷◌ c s) = keep_char c (trim_right s)

-- strings.TrimSpace
unfoldable pub trim : String → String
unfolding trim_left trim_right
trim s = trim_right (trim_left s)

-- strings.HasPrefix(s, p)
unfoldable pub has_prefix : String → String → Bool
has_prefix String.[] s = true
has_prefix (String.◌∷◌ d p) String.[] = false
has_prefix (String.◌∷◌ d p) (String.◌∷◌ c s) = eqb (code c) (code d) && has_prefix p s

-- strings.TrimPrefix(s, p), for an `s` that starts with `p`
unfoldable pub after_prefix : String → String → String
after_prefix String.[] s = s
after_prefix (String.◌∷◌ d p) String.[] = String.[]
after_prefix (String.◌∷◌ d p) (String.◌∷◌ c s) = after_prefix p s

-- The fields of the event so far.
pub record Fields : Type 0 where
  pub event : String
  pub body : String

abbrev pub no_fields : Fields
no_fields = record { event = ""; body = "" }

unfoldable pub read_field : String → Fields → Fields
unfolding trim after_prefix has_prefix
read_field line f =
    if has_prefix "event:" line
    then record f { event = trim (after_prefix "event:" line) }
    else if has_prefix "data:" line
    then record f { body = trim (after_prefix "data:" line) }
    else f

-- An empty line.
unfoldable pub end_event : Decoder → Fields → Client → Option Client
unfolding handle_event
end_event request_id f c =
    if not (f.event == "") || not (f.body == "")
    then handle_event request_id f.event f.body c
    else some c

-- readEvents from a state of the fields; `done` is not closed. A panic is `none`.
unfoldable pub read_events : Decoder → List String → Fields → Client → Option Client
unfolding trim read_field end_event handle_disconnect
read_events request_id [] f c = some (handle_disconnect c)
read_events request_id (l ∷ lines) f c =
    let line = trim l in
    if line == ""
    then elim (end_event request_id f c) [
      | none ↦ none
      | some d ↦ read_events request_id lines no_fields d
    ]
    else read_events request_id lines (read_field line f) c

-- A character put before the first line; without one, it belongs to no complete line.
unfoldable pub push_first : Char → List String → List String
push_first c [] = []
push_first c (l ∷ ls) = String.◌∷◌ c l ∷ ls

-- What ReadString gives until the end of the stream, without the newlines.
unfoldable pub complete_lines : String → List String
unfolding push_first
complete_lines String.[] = []
complete_lines (String.◌∷◌ c s) =
    let rest = complete_lines s in if eqb (code c) 10 then "" ∷ rest else push_first c rest

unfoldable pub read_stream : Decoder → String → Client → Option Client
unfolding read_events complete_lines
read_stream request_id text c = read_events request_id (complete_lines text) no_fields c
