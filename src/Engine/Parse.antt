-- ===== src/Engine/Parse.antt =====
-- The engine denies unless the policy says otherwise.
use mcp_proxy.Prelude.{arith, refl, some, true, ◌≡◌}
use mcp_proxy.Engine.{ok, parse_decision}
use mcp_proxy.Json.{Fields, Value, bool, get_field, null, obj}
use mcp_proxy.Decision.{PolicyDecision}

-- A decision read from a document allows only if the document is an object whose `allow` is the Boolean true.
pub parse_decision-allow :
    (v : Value) (d : PolicyDecision)
    → parse_decision v ≡ ok d
    → d.allow ≡ true
    → (fs : Fields) × (v ≡ obj fs) × (get_field "allow" fs ≡ some (bool true))
unfolding parse_decision
parse_decision-allow (obj fs) d e h = (fs, refl, ground arith)
parse_decision-allow null d e h = absurd (ground arith)
parse_decision-allow v d e h = absurd (ground arith)
