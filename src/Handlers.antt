-- ===== src/Handlers.antt =====
-- internal/router/router.go: the handlers of a routed message, and the callbacks that they call.
--
-- The callbacks (policy evaluator, upstream sender, audit logger) may do anything to a world `W`;
-- each call of one is also noted in `trace`, newest first, so that statements can say which calls
-- were made. Random IDs, clock readings and the JSON library are arguments; log output is left
-- out. An evaluator that fails gives no decision.
use mcp_proxy.Prelude.{
  Bool, List, Option, String, [], if◌then◌else◌, none, not, some, true, ℕ, ◌&&◌, ◌==◌, ◌∷◌,
}
use mcp_proxy.Protocol.{
  HandlerType, Request, RequestContext, Response, filter, full_enforce, internal_error, passthrough,
  policy_violation_response, upstream_error,
}
use mcp_proxy.Parser.{Codec, Outcome, done, failed}
use mcp_proxy.Session.{Session}

-- The router's own view of a policy decision.
pub record PolicyDecision : Type 0 where
  pub allow : Bool
  pub violations : List String
  pub matched_rule : String
  pub policy_mode : String

pub data Event : Type 0 where
  evaluated : RequestContext → Event
  sent : String → Event
  audited : RequestContext → Option PolicyDecision → Option String → Event

-- The state that the callbacks see, and what has been called.
pub record State (W : Type 0) : Type 0 where
  pub world : W
  pub trace : List Event

abbrev pub Io : Type 0 → Type 0 → Type 0
Io W A = State W → A × State W

module _ {W A B : Type 0} where
  infixl 5 ◌>>=◌ ◌>>◌
  abbrev pub ◌>>=◌ : Io W A → (A → Io W B) → Io W B
  ◌>>=◌ m f s = let (a, s') = m s in f a s'

  abbrev pub ◌>>◌ : Io W A → Io W B → Io W B
  m >> k = m >>= λ _. k

abbrev pub pure : {W : Type 0} {A : Type 0} → A → Io W A
pure a s = (a, s)

-- A byte slice, nil or not, and an error, nil or not.
pub record Reply : Type 0 where
  pub response : Option String
  pub error : Option String

pub record Router (W : Type 0) : Type 0 where
  pub codec : Codec
  pub policy_evaluator : Option (Session → RequestContext → W → Outcome PolicyDecision × W)
  pub upstream_sender : Option (String → W → Reply × W)
  pub audit_logger :
      Option (Session → RequestContext → Option PolicyDecision → Option String → ℕ → W → W)

-- What is drawn or read from outside while one message is routed.
pub record Draws : Type 0 where
  -- the object that the request pool hands out
  pub pooled : Request
  pub hex : String
  pub start : ℕ
  pub latency : ℕ
  -- the time in a policy violation, formatted
  pub timestamp : String

-- data, _ := Marshal(resp)
unfoldable pub marshalled : Outcome String → Option String
marshalled (done text) = some text
marshalled (failed e) = none

unfoldable pub marshal_reply : Outcome String → Reply
marshal_reply (done text) = record { response = some text; error = none }
marshal_reply (failed e) = record { response = none; error = some e }

abbrev pub default_allow : PolicyDecision
default_allow = record {
  allow = true;
  violations = [];
  matched_rule = "no_policy";
  policy_mode = "disabled";
}

abbrev pub filter_decision : PolicyDecision
filter_decision = record {
  allow = true;
  violations = [];
  matched_rule = "passthrough";
  policy_mode = "filter";
}

module _ {W : Type 0} where
  unfoldable pub evaluate_policy :
      (Session → RequestContext → W → Outcome PolicyDecision × W)
      → Session
      → RequestContext
      → Io W (Outcome PolicyDecision)
  evaluate_policy f sess ctx s =
      let (d, w) = f sess ctx s.world in (d, record { world = w; trace = evaluated ctx ∷ s.trace })

  unfoldable pub send : (String → W → Reply × W) → String → Io W Reply
  send f message s =
      let (r, w) = f message s.world in (r, record { world = w; trace = sent message ∷ s.trace })

  -- Forward to upstream, or echo where there is none.
  unfoldable pub forward : Option (String → W → Reply × W) → String → Io W Reply
  unfolding send
  forward none message = pure (record { response = some message; error = none })
  forward (some f) message = send f message

  unfoldable pub handle_passthrough : Router W → String → Io W (Reply × Option PolicyDecision)
  unfolding forward
  handle_passthrough r message = do reply ← forward r.upstream_sender message; pure (reply, none)

  unfoldable pub answer :
      Router W → Response → Option PolicyDecision → Reply × Option PolicyDecision
  unfolding marshalled
  answer r response decision =
      (record { response = marshalled (r.codec.marshal response); error = none }, decision)

  -- An error of the sender becomes an error response.
  unfoldable pub wrap_upstream :
      Router W → RequestContext → PolicyDecision → Reply → Reply × Option PolicyDecision
  unfolding answer
  wrap_upstream r ctx decision reply = elim reply.error [
    | none ↦ (record { response = reply.response; error = none }, some decision)
    | some e ↦ answer r (upstream_error ctx.request.id e) (some decision)
  ]

  unfoldable pub forward_enforced :
      Router W → RequestContext → String → PolicyDecision → Io W (Reply × Option PolicyDecision)
  unfolding forward wrap_upstream
  forward_enforced r ctx message decision = do
    reply ← forward r.upstream_sender message
    pure (wrap_upstream r ctx decision reply)

  unfoldable pub decide :
      Router W
      → Draws
      → Session
      → RequestContext
      → String
      → Outcome PolicyDecision
      → Io W (Reply × Option PolicyDecision)
  unfolding answer forward_enforced
  decide r draws sess ctx message (failed e) =
      pure (answer r (internal_error ctx.request.id "Policy evaluation failed") none)
  decide r draws sess ctx message (done decision) =
      if not decision.allow && decision.policy_mode == "enforce"
      then pure (
          answer r
            (policy_violation_response ctx.request.id ctx sess.agent_id sess.capabilities
              decision.violations decision.policy_mode draws.timestamp)
            (some decision))
      else forward_enforced r ctx message decision

  unfoldable pub enforce_with :
      Option (Session → RequestContext → W → Outcome PolicyDecision × W)
      → Router W
      → Draws
      → Session
      → RequestContext
      → String
      → Io W (Reply × Option PolicyDecision)
  unfolding decide evaluate_policy
  enforce_with none r draws sess ctx message = forward_enforced r ctx message default_allow
  enforce_with (some f) r draws sess ctx message = do
    outcome ← evaluate_policy f sess ctx
    decide r draws sess ctx message outcome

  unfoldable pub handle_enforce :
      Router W → Draws → Session → RequestContext → String → Io W (Reply × Option PolicyDecision)
  unfolding enforce_with
  handle_enforce r draws sess ctx message = enforce_with r.policy_evaluator r draws sess ctx message

  unfoldable pub handle_filter : Router W → String → Io W (Reply × Option PolicyDecision)
  unfolding forward
  handle_filter r message = do
    reply ← forward r.upstream_sender message
    pure (reply, some filter_decision)

  unfoldable pub handle :
      HandlerType
      → Router W
      → Draws
      → Session
      → RequestContext
      → String
      → Io W (Reply × Option PolicyDecision)
  handle passthrough r draws sess ctx message = handle_passthrough r message
  handle full_enforce r draws sess ctx message = handle_enforce r draws sess ctx message
  handle filter r draws sess ctx message = handle_filter r message
