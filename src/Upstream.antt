-- ===== src/Upstream.antt =====
-- internal/upstream/client.go: the client of the MCP server.
--
-- `Send` is in parts, between which other calls and the reader of events may run: `begin`, up to the
-- entry in `pending`; `post` and `wake`, the HTTP request and the wait, which `post_and_wait` joins; and
-- `release`, the deferred deletion. The channels that `Send` makes are objects, at their addresses in
-- `channels`. What HTTP answers is an argument. An ID is decoded by the JSON library: the parameter
-- `request_id`.
pub mod Channels
pub mod Steps
pub mod Matching
pub mod Answers
pub mod Waiting
pub mod Keeping
pub mod Delivery
pub mod Crossing
pub mod Events
pub mod Tests
use mcp_proxy.Prelude.{
  Bool, Dict, List, Option, String, [], erase, false, get_elem?, if◌then◌else◌, insert, leb, length,
  lookup, none, set, some, true, ℕ, ◌++◌, ◌==◌, ◌∷◌, ◌||◌, not, eqb,
}
use Prim.Native.String.{◌++◌ as ◌++ˢ◌}
use text.Mathlib.Text.{starts_with}

-- The value of the member `id`, as a key of a Go map: a text that two values share exactly when they
-- are equal, the one of nil where there is none. Objects and arrays are no keys.
pub data ParsedId : Type 0 where
  invalid_json unhashable : ParsedId
  keyed : String → ParsedId

abbrev pub Decoder : Type 0
Decoder = String → ParsedId

-- Response
pub data Response : Type 0 where
  received : String → Response
  disconnected : Response

-- A channel of capacity 1, and the ID of the call that made it.
pub record Channel : Type 0 where
  pub owner : String
  pub content : Option Response

-- make(chan *Response, 1), for the call with an ID
abbrev pub new_channel : String → Channel
new_channel id = record { owner = id; content = none }

pub record Client : Type 0 where
  pub url : String
  pub connected : Bool
  pub message_url : String
  -- whether `sseConn` is set
  pub sse_conn : Bool
  pub pending : Dict ℕ
  pub channels : List Channel
  -- whether `done` has been closed
  pub done : Bool

unfoldable pub new_client : String → Client
new_client url = record {
  url = url;
  connected = false;
  message_url = "";
  sse_conn = false;
  pending = [];
  channels = [];
  done = false;
}

pub data SendError : Type 0 where
  not_connected no_message_url invalid_message request_failed upstream_disconnected : SendError
  canceled timed_out : SendError
  bad_status : ℕ → SendError

pub data Result : Type 0 where
  got : String → Result
  failed : SendError → Result

-- The answer to an HTTP request: none if it failed, else the status.
abbrev pub HttpStatus : Type 0
HttpStatus = Option ℕ

pub data ConnectError : Type 0 where
  connect_failed : ConnectError
  connect_status : ℕ → ConnectError

unfoldable pub connect_with : HttpStatus → Client → Option ConnectError × Client
connect_with none c = (some connect_failed, c)
connect_with (some status) c =
    if eqb status 200
    then (none, record c { sse_conn = true; connected = true })
    else (some (connect_status status), c)

unfoldable pub connect : HttpStatus → Client → Option ConnectError × Client
unfolding connect_with
connect status c = if c.connected then (none, c) else connect_with status c

-- Closing a closed channel panics, which is `none`.
unfoldable pub disconnect : Client → Option Client
disconnect c =
    if c.connected
    then (if c.done
        then none
        else some (record c { connected = false; done = true; sse_conn = false }))
    else some c

-- What `Send` has come to after its first part.
pub data Begun : Type 0 where
  refused : SendError → Begun
  -- an unhashable key
  panicked : Begun
  waiting : String → ℕ → Client → Begun

-- The entry in `pending`.
unfoldable pub register : String → Client → Client
register id c = record c {
  pending = insert id (length c.channels) c.pending;
  channels = c.channels ++ new_channel id ∷ [];
}

unfoldable pub begin_with : ParsedId → Client → Begun
unfolding register
begin_with invalid_json c = refused invalid_message
begin_with unhashable c = panicked
begin_with (keyed id) c = waiting id (length c.channels) (register id c)

unfoldable pub begin : Decoder → String → Client → Begun
unfolding begin_with
begin request_id message c =
    if not c.connected
    then refused not_connected
    else if c.message_url == ""
    then refused no_message_url
    else begin_with (request_id message) c

-- The POST: its error, if it did not go through.
unfoldable pub post : HttpStatus → Option SendError
post none = some request_failed
post (some status) = if eqb status 200 || eqb status 202 then none else some (bad_status status)

-- Why the wait of `Send` ends; the select takes any case that is ready.
pub data Wake : Type 0 where
  answered context_done timer : Wake

unfoldable pub answer_of : Response → Result
answer_of (received bytes) = got bytes
answer_of disconnected = failed upstream_disconnected

unfoldable pub content_of : Option Channel → Option Response
content_of none = none
content_of (some ch) = ch.content

-- The result of the wait at a channel: none while the case is not ready.
unfoldable pub wake : Wake → ℕ → Client → Option Result
unfolding content_of answer_of
wake answered a c = elim (content_of (get_elem? c.channels a)) [
  | none ↦ none
  | some r ↦ some (answer_of r)
]
wake context_done a c = some (failed canceled)
wake timer a c = some (failed timed_out)

-- What `Send` returns after its entry, from the answer to its POST and the case that its select takes.
unfoldable pub post_and_wait : HttpStatus → Wake → ℕ → Client → Option Result
unfolding post wake
post_and_wait status w a c = elim (post status) [ some e ↦ some (failed e) | none ↦ wake w a c ]

-- The deferred deletion, at the end of `Send` on every path after `register`.
unfoldable pub release : String → Client → Client
release id c = record c { pending = erase id c.pending }

unfoldable pub send_async : HttpStatus → Client → Option SendError
unfolding post
send_async status c =
    if not c.connected
    then some not_connected
    else if c.message_url == ""
    then some no_message_url
    else post status

-- A send that does not block: it is dropped if the channel is full.
unfoldable pub put : Response → Channel → Channel
put r ch = elim ch.content [ none ↦ record ch { content = some r } | some _ ↦ ch ]

unfoldable pub offer : Response → ℕ → List Channel → List Channel
unfolding put
offer r a channels = elim (get_elem? channels a) [
  | none ↦ channels
  | some ch ↦ set channels a (put r ch)
]

unfoldable pub deliver : String → String → Client → Client
unfolding offer
deliver id bytes c = elim (lookup id c.pending) [
  | none ↦ c
  | some a ↦ record c { channels = offer (received bytes) a c.channels }
]

unfoldable pub handle_message : ParsedId → String → Client → Option Client
unfolding deliver
handle_message invalid_json bytes c = some c
handle_message unhashable bytes c = none
handle_message (keyed id) bytes c = some (deliver id bytes c)

-- strings.TrimSuffix(s, "/")
unfoldable pub trim_slash : String → String
trim_slash String.[] = String.[]
trim_slash (String.◌∷◌ c s) =
    let rest = trim_slash s in if String.◌∷◌ c s == "/" then "" else String.◌∷◌ c rest

-- The event `endpoint`.
unfoldable pub set_endpoint : String → Client → Client
unfolding trim_slash
set_endpoint bytes c = record c {
  message_url = if starts_with bytes "/" then trim_slash c.url ++ˢ bytes else bytes;
}

-- handleEvent. An ID that is no key panics in the reader's goroutine, which ends the process: `none`.
unfoldable pub handle_event : Decoder → String → String → Client → Option Client
unfolding handle_message set_endpoint
handle_event request_id event bytes c =
    if event == "endpoint"
    then some (set_endpoint bytes c)
    else if event == "message"
    then handle_message (request_id bytes) bytes c
    else some c

unfoldable pub fail_all : Dict ℕ → List Channel → List Channel
unfolding offer
fail_all [] channels = channels
fail_all ((id, a) ∷ rest) channels = fail_all rest (offer disconnected a channels)

unfoldable pub handle_disconnect : Client → Client
unfolding fail_all
handle_disconnect c =
    if c.connected
    then record c { connected = false; pending = []; channels = fail_all c.pending c.channels }
    else c

unfoldable pub is_connected : Client → Bool
is_connected c = c.connected

unfoldable pub get_message_url : Client → String
get_message_url c = c.message_url
