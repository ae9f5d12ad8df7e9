-- ===== src/Config/Tests.antt =====
-- A file that sets little, and the theorems at it.
use mcp_proxy.Prelude.{String, [], false, if◌then◌else◌, refl, true, ◌==◌, ◌≡◌, ◌∷◌, ◌↔◌}
use Prim.Native.String.{◌++◌ as ◌++ˢ◌}
use mcp_proxy.Prelude.Int.{pos, negsuc}
use mcp_proxy.Config.{Result, ok, load, decoded, validate, finish_load, checked, mask_sensitive}
use mcp_proxy.Config.Types.{Config}
use mcp_proxy.Config.Defaults.{apply_defaults, or_int, or_text}
use mcp_proxy.Config.Overrides.{apply_env_overrides, atoi, parse_bool, parse_int, split_commas}
use mcp_proxy.Config.Loading.{IsValid, load-ok_iff}
use mcp_proxy.Config.Precedence.{load-json_policy_dir}

abbrev empty : Config
empty = record {
  version = "";
  server = record {
    listen = record { address = ""; port = pos 0 };
    transport = "";
    read_timeout = pos 0;
    write_timeout = pos 0;
    idle_timeout = pos 0;
    graceful_shutdown = pos 0;
    max_connections = pos 0;
    security = record { cors_allowed_origins = []; enable_security_headers = false };
  };
  upstream = record {
    url = "";
    transport = "";
    timeout = pos 0;
    connection_pool = record { max_idle = pos 0; max_open = pos 0; idle_timeout = pos 0 };
    retry = record {
      enabled = false;
      max_attempts = pos 0;
      initial_delay = pos 0;
      max_delay = pos 0;
      backoff = "";
    };
    circuit_breaker = record { enabled = false; threshold = pos 0; timeout = pos 0 };
  };
  agent = record { id = ""; name = ""; capabilities = []; model = ""; publisher = ""; tags = [] };
  agentfacts = record {
    mode = "";
    max_age = pos 0;
    clock_skew = pos 0;
    allowed_dids = [];
    verify_log_proof = false;
    cache = record { enabled = false; ttl = pos 0; max_entries = pos 0 };
  };
  policy = record {
    enabled = false;
    mode = "";
    policy_dir = "";
    json_policy_dir = "";
    data_file = "";
    watch_for_changes = false;
    environment = "";
    cache = record { enabled = false; ttl = pos 0; max_entries = pos 0 };
    evaluation = record { timeout = pos 0; strict_builtin_errors = false };
  };
  audit = record {
    enabled = false;
    db_path = "";
    buffer_size = pos 0;
    flush_interval = pos 0;
    retention_days = pos 0;
    capture = record { request_arguments = false; response_summary = false };
  };
  metrics = record { enabled = false; address = ""; port = pos 0; path = "" };
  health = record {
    enabled = false;
    address = "";
    port = pos 0;
    liveness_path = "";
    readiness_path = "";
  };
  logging = record {
    level = "";
    format = "";
    output = "";
    file = record { path = ""; max_size = pos 0; max_backups = pos 0; max_age = pos 0 };
  };
  tls = record {
    enabled = false;
    cert_file = "";
    key_file = "";
    ca_file = "";
    min_version = "";
    client_auth = "";
  };
}

abbrev join : String → String → String
join a b = a ++ˢ "/" ++ˢ b

abbrev getenv : String → String
getenv name =
    if name == "MCP_SERVER_PORT"
    then "4000"
    else if name == "MCP_POLICY_RULES_DIR"
    then "rules"
    else ""

abbrev loaded : Config
loaded = apply_env_overrides getenv (apply_defaults join empty)

parse_int_negative : parse_int "-12" (pos 7) ≡ negsuc 11
unfolding parse_int
parse_int_negative = refl

parse_int_tail : parse_int "12x" (pos 7) ≡ pos 7
unfolding parse_int
parse_int_tail = refl

parse_int_large : parse_int "9223372036854775808" (pos 7) ≡ pos 7
unfolding parse_int
parse_int_large = refl

parse_bool_upper : parse_bool "TRUE" ≡ true
unfolding parse_bool
parse_bool_upper = refl

parse_bool_on : parse_bool "on" ≡ false
unfolding parse_bool
parse_bool_on = refl

split_commas_test : split_commas "a,b,," ≡ "a" ∷ "b" ∷ "" ∷ "" ∷ []
unfolding split_commas
split_commas_test = refl

loaded_ok : load join getenv (decoded empty) ≡ ok loaded
unfolding load validate apply_env_overrides mcp_proxy.Config.Overrides.override
    mcp_proxy.Config.Overrides.override_all mcp_proxy.Config.Overrides.env_mappings apply_defaults
    mcp_proxy.Config.Defaults.apply_server_defaults
    mcp_proxy.Config.Defaults.apply_agentfacts_defaults
    mcp_proxy.Config.Defaults.apply_policy_defaults mcp_proxy.Config.Defaults.apply_logging_defaults
loaded_ok = refl

load-ok_iff_example :
    (load join getenv (decoded empty) ≡ ok loaded)
    ↔ (apply_env_overrides getenv (apply_defaults join empty) ≡ loaded) × IsValid loaded
load-ok_iff_example = load-ok_iff join getenv empty loaded

load-json_policy_dir_example :
    loaded.policy.json_policy_dir ≡ or_text "" (join (or_text "" "policies") "json")
load-json_policy_dir_example = load-json_policy_dir join getenv empty loaded loaded_ok
