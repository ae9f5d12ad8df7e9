-- ===== src/Upstream/Tests.antt =====
-- A client with calls under way, and the theorems at it. A message is its ID here.
use mcp_proxy.Prelude.{
  arith, eq_iff, Bool, Dict, Distinct, List, Option, String, [], false, get_elem?, if◌then◌else◌,
  length, lookup, none, refl, some, true, ℕ, ◌++◌, ◌==◌, ◌≡◌, ◌∷◌,
}
use mcp_proxy.Upstream.{
  Result, deliver, handle_disconnect, post, post_and_wait, timer, Client, Decoder, answered,
  connect, got, handle_event, invalid_json, keyed, new_channel, new_client, received, register,
  unhashable, wake,
}
use mcp_proxy.Upstream.Steps.{lost, Reach, connected, evented, here, next, registered}
use mcp_proxy.Upstream.Matching.{wake-Reach}
use mcp_proxy.Upstream.Waiting.{Careful, start, then_step}
use mcp_proxy.Upstream.Delivery.{Ended, handle_event-post_and_wait}
use mcp_proxy.Upstream.Crossing.{Aside, after_step, at_once, register-crossed}
use mcp_proxy.Upstream.Keeping
use mcp_proxy.Upstream.Keeping.{Later}

abbrev decoder : Decoder
decoder s = if s == "" then invalid_json else if s == "{}" then unhashable else keyed s

abbrev online : Client
online = (connect (some 200) (new_client "http://up")).1

abbrev one_call : Client
one_call = register "7" online

abbrev two_calls : Client
two_calls = register "8" one_call

abbrev calls : Dict ℕ
calls = ("8", 1) ∷ ("7", 0) ∷ []

abbrev answered_call : Client
answered_call = record two_calls {
  channels = record { owner = "7"; content = some (received "7") } ∷ new_channel "8" ∷ [];
}

two_calls_careful : Careful decoder "http://up" two_calls calls
unfolding connect register lookup new_client
two_calls_careful =
    then_step (then_step (then_step start (connected (some 200)) tt) (registered "7") (refl, tt))
      (registered "8") (refl, (refl, tt))

answered_reached : Reach decoder "http://up" answered_call calls
unfolding connect register handle_event lookup mcp_proxy.Prelude.insert mcp_proxy.Prelude.erase
    new_client
answered_reached =
    next (next (next (next here (connected (some 200))) (registered "7")) (registered "8"))
      (evented "message" "7" answered_call refl)

wake-Reach_example : decoder "7" ≡ keyed "7"
unfolding wake
wake-Reach_example = wake-Reach decoder (("8", 1) ∷ []) "7" 0 [] "7" answered_reached refl refl

-- The answer to the second call comes, the connection is lost, and then the second call waits.
abbrev lost_after : Client
lost_after = handle_disconnect (deliver "8" "8" two_calls)

lost-Later : Later decoder (deliver "8" "8" two_calls) calls lost_after calls
lost-Later = Keeping.after_step Keeping.at_once lost

handle_event-post_and_wait_example :
    (handle_event decoder "message" "8" two_calls ≡ some (deliver "8" "8" two_calls))
    × (post_and_wait (some 202) answered 1 lost_after ≡ some (got "8"))
    × ((result : Result) × (post_and_wait (some 202) timer 1 lost_after ≡ some result)
        × Ended decoder "8" timer result)
unfolding lookup register connect new_client post
handle_event-post_and_wait_example =
    handle_event-post_and_wait decoder "8" "8" 1 (new_channel "8") (some 202) timer
      two_calls_careful refl refl refl refl lost-Later refl

-- Two calls with one ID, a third with another, and a response that carries the ID of the two.
abbrev called_twice : Client
called_twice = register "9" (register "7" one_call)

one_reached : Reach decoder "http://up" one_call (("7", 0) ∷ [])
unfolding connect register new_client
one_reached = next (next here (connected (some 200))) (registered "7")

nine-Aside :
    Aside decoder "7"
      (register "7" one_call)
      (("7", 1) ∷ ("7", 0) ∷ [])
      called_twice
      (("9", 2) ∷ ("7", 1) ∷ ("7", 0) ∷ [])
unfolding connect register new_client
nine-Aside = after_step at_once (registered "9") (λ e. ground (arith, eq_iff "9" "7"))

register-crossed_example :
    (handle_event decoder "message" "7" called_twice ≡ some (deliver "7" "7" called_twice))
    × (wake answered 0 (deliver "7" "7" called_twice) ≡ none)
    × (wake answered 1 (deliver "7" "7" called_twice) ≡ some (got "7"))
unfolding lookup register mcp_proxy.Prelude.insert connect new_client
register-crossed_example =
    register-crossed decoder "7" "7" 0 (new_channel "7") one_reached refl refl refl nine-Aside refl
