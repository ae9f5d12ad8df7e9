-- ===== src/Stdio/Server.antt =====
-- internal/transport/stdio/server.go: the server and its read loop.
--
-- The handler may do anything to a world `W` and to the session. `signals` is what the select at
-- the top of each round finds, true when `done` or the context is closed, so a list of them also
-- bounds the rounds. JSON is the library's: the parameters `valid`, `marshal` and `request_id`.
use mcp_proxy.Prelude.{
  Bool, List, Option, String, [], false, if◌then◌else◌, none, some, true, ℕ, ◌+◌, ◌∷◌,
}
use mcp_proxy.Config.Types.{AgentConfig}
use mcp_proxy.Json.{Value, end, field, null, number, obj, str}
use mcp_proxy.Session.{Session, increment_request_count, set_agent, set_client_info}
use mcp_proxy.Session.{close as close_session}
use mcp_proxy.Manager.{Manager, create, delete, deref, err, modify, ok}
use mcp_proxy.Stdio.{
  Bytes, ReadResult, Scanner, eof, invalid_json, message, out_of_fuel, read_error, read_next, write,
}

-- What the handler returns: bytes, nil or not, or an error.
pub data Answer : Type 0 where
  replied : Option Bytes → Answer
  failed : Answer

pub record Library : Type 0 where
  -- json.Valid
  pub valid : Bytes → Bool
  -- json.Marshal of a map
  pub marshal : Value → Option Bytes
  -- json.Unmarshal into a struct with the one field `id`
  pub request_id : Bytes → Option Value

abbrev pub Handler : Type 0 → Type 0
Handler W = Session → Bytes → W → Answer × Session × W

pub record Loop (W : Type 0) : Type 0 where
  pub scanner : Scanner
  pub session : Session
  pub output : Bytes
  pub world : W

pub data Status : Type 0 where
  running returned : Status

error_object : Value → String → String → Value
error_object id code text = obj (
    field "jsonrpc" (str "2.0") (
      field "id" id
        (field "error" (obj (field "code" (number code) (field "message" (str text) end))) end)))

unfoldable pub extract_request_id : Library → Bytes → Value
extract_request_id lib msg = elim (lib.request_id msg) [ none ↦ null | some id ↦ id ]

module _ {W : Type 0} where
  unfoldable pub write_response : Option Bytes → Loop W → Loop W
  unfolding write
  write_response none l = l
  write_response (some bytes) l = record l { output = write bytes l.output }

  unfoldable pub write_error : Library → Value → String → String → Loop W → Loop W
  unfolding write_response error_object
  write_error lib id code text l = write_response (lib.marshal (error_object id code text)) l

  unfoldable pub parse_error : Library → Loop W → Loop W
  unfolding write_error
  parse_error lib l = write_error lib null "-32700" "Parse error" l

  -- What follows the call of the handler.
  unfoldable pub after_handler : Library → Bytes → Answer × Session × W → Loop W → Loop W
  unfolding write_error write_response extract_request_id
  after_handler lib msg (replied response, session, world) l =
      write_response response (record l { session = session; world = world })
  after_handler lib msg (failed, session, world) l =
      write_error lib (extract_request_id lib msg) "-32603" "Internal error"
        (record l { session = session; world = world })

  -- One message, counted at time `now`. Without a handler it is echoed.
  unfoldable pub process : Library → Option (Handler W) → ℕ → Bytes → Loop W → Loop W
  unfolding increment_request_count after_handler write_response
  process lib handler now msg l =
      let session = (increment_request_count now l.session).0 in
      elim handler [
        | none ↦ write_response (some msg) (record l { session = session })
        | some h ↦ after_handler lib msg (h session msg l.world) l
      ]

  unfoldable pub on_read :
      Library → Option (Handler W) → ℕ → ReadResult × Scanner → Loop W → Status × Loop W
  unfolding process parse_error
  on_read lib handler now (message msg, s) l =
      (running, process lib handler now msg (record l { scanner = s }))
  on_read lib handler now (eof, s) l = (returned, record l { scanner = s })
  on_read lib handler now (read_error, s) l = (running, parse_error lib (record l { scanner = s }))
  on_read lib handler now (invalid_json, s) l =
      (running, parse_error lib (record l { scanner = s }))
  on_read lib handler now (out_of_fuel, s) l = (running, record l { scanner = s })

  unfoldable pub round : Library → Option (Handler W) → Bool → ℕ → Loop W → Status × Loop W
  unfolding on_read read_next
  round lib handler signal now l =
      if signal then (returned, l) else on_read lib handler now (read_next lib.valid l.scanner) l

  -- readLoop, for as many rounds as there are signals; each comes with the time of its round.
  unfoldable pub read_loop :
      Library → Option (Handler W) → List (Bool × ℕ) → Loop W → Status × Loop W
  unfolding round
  read_loop lib handler [] l = (running, l)
  read_loop lib handler ((signal, now) ∷ signals) l =
      let (status, l') = round lib handler signal now l in
      let rest = read_loop lib handler signals l' in
      elim status [ running ↦ rest | returned ↦ (returned, l') ]

pub record Server : Type 0 where
  pub agent_cfg : AgentConfig
  -- the address of the session, nil or not
  pub session : Option ℕ
  pub started : Bool
  -- whether `done` has been closed
  pub done : Bool
  -- how many read loops have been started
  pub loops : ℕ

unfoldable pub new_server : AgentConfig → Server
new_server cfg = record {
  agent_cfg = cfg;
  session = none;
  started = false;
  done = false;
  loops = 0;
}

pub data ServerError : Type 0 where
  already_started create_failed : ServerError

introduce : AgentConfig → Session → Session
unfolding set_agent set_client_info
introduce cfg s =
    set_client_info "stdio" "stdio-client" (set_agent cfg.id cfg.name cfg.capabilities s)

-- Start, given the UUID of the session.
unfoldable pub start : String → ℕ → Server × Manager → Option ServerError × Server × Manager
unfolding create modify introduce
start uuid now (s, m) =
    let (m', created) = create uuid now m in
    if s.started then (some already_started, s, m) else elim created [
      | err _ ↦ (some create_failed, record s { started = true }, m')
      | ok a ↦ (
        none,
        record s { started = true; session = some a; loops = s.loops + 1 },
        modify a (introduce s.agent_cfg) m',
      )
    ]

close_and_delete : ℕ → Manager → Manager
unfolding modify delete
close_and_delete a m = elim (deref m a) [
  | none ↦ m
  | some s ↦ delete s.id (modify a close_session m)
]

-- Stop, up to the wait for the read loop. Closing a closed channel panics, which is `none`.
unfoldable pub stop : Server × Manager → Option (Server × Manager)
unfolding close_and_delete
stop (s, m) =
    if s.started
    then (if s.done
        then none
        else some (
          record s { started = false; done = true },
          elim s.session [ none ↦ m | some a ↦ close_and_delete a m ],
        ))
    else some (s, m)
