-- ===== src/Decision.antt =====
-- internal/policy/types.go: what the policy engine is asked and what it answers.
use mcp_proxy.Prelude.{Bool, Dict, List, String, [], false, ℕ}
use mcp_proxy.Json.{Fields, end}

pub record AgentContext : Type 0 where
  pub id : String
  pub name : String
  pub capabilities : List String
  pub model : String
  pub publisher : String
  pub tags : List String

pub record RequestContext : Type 0 where
  pub method : String
  pub tool : String
  pub arguments : Fields
  pub intent : String

pub record SessionContext : Type 0 where
  pub id : String
  pub request_count : ℕ
  pub started_at : ℕ
  pub cumulative_reads : ℕ
  pub cumulative_writes : ℕ

pub record IdentityContext : Type 0 where
  pub verified : Bool
  pub did : String
  pub signature_alg : String
  pub issued_at : ℕ
  pub has_log_proof : Bool

pub record EnvironmentContext : Type 0 where
  pub timestamp : ℕ
  pub source_ip : String
  pub environment : String
  pub proxy_region : String

pub record PolicyInput : Type 0 where
  pub agent : AgentContext
  pub request : RequestContext
  pub session : SessionContext
  pub identity : IdentityContext
  pub context : EnvironmentContext

pub record PolicyObligation : Type 0 where
  pub action : String
  pub params : Dict String

pub record PolicyDecision : Type 0 where
  pub allow : Bool
  pub violations : List String
  pub matched_rule : String
  pub obligations : List PolicyObligation

pub record EvaluationResult : Type 0 where
  pub decision : PolicyDecision
  pub input : PolicyInput
  pub eval_time : ℕ
  pub cache_hit : Bool
  pub cache_tier : String
  pub policy_mode : String

-- NewInputBuilder().Build(), at time `now`
unfoldable pub new_input : ℕ → PolicyInput
new_input now = record {
  agent = record { id = ""; name = ""; capabilities = []; model = ""; publisher = ""; tags = [] };
  request = record { method = ""; tool = ""; arguments = end; intent = "" };
  session = record {
    id = "";
    request_count = 0;
    started_at = 0;
    cumulative_reads = 0;
    cumulative_writes = 0;
  };
  identity = record {
    verified = false;
    did = "";
    signature_alg = "";
    issued_at = 0;
    has_log_proof = false;
  };
  context = record { timestamp = now; source_ip = ""; environment = ""; proxy_region = "" };
}

unfoldable pub with_agent : String → String → List String → PolicyInput → PolicyInput
with_agent id name capabilities b = record b {
  agent = record {
    id = id;
    name = name;
    capabilities = capabilities;
    model = "";
    publisher = "";
    tags = [];
  };
}

unfoldable pub with_agent_details : String → String → List String → PolicyInput → PolicyInput
with_agent_details model publisher tags b = record b {
  agent = record b.agent { model = model; publisher = publisher; tags = tags };
}

-- Arguments that are nil and an empty object are both `end`.
unfoldable pub with_request : String → String → Fields → PolicyInput → PolicyInput
with_request method tool arguments b = record b {
  request = record { method = method; tool = tool; arguments = arguments; intent = "" };
}

unfoldable pub with_session : String → ℕ → ℕ → PolicyInput → PolicyInput
with_session id request_count started_at b = record b {
  session = record {
    id = id;
    request_count = request_count;
    started_at = started_at;
    cumulative_reads = 0;
    cumulative_writes = 0;
  };
}

unfoldable pub with_identity : Bool → String → PolicyInput → PolicyInput
with_identity verified did b = record b {
  identity = record {
    verified = verified;
    did = did;
    signature_alg = "";
    issued_at = 0;
    has_log_proof = false;
  };
}

unfoldable pub with_environment : String → String → String → PolicyInput → PolicyInput
with_environment source_ip environment region b = record b {
  context = record b.context {
    source_ip = source_ip;
    environment = environment;
    proxy_region = region;
  };
}
