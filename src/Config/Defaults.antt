-- ===== src/Config/Defaults.antt =====
-- internal/config/config.go: the default values.
--
-- `join` is the standard library's filepath.Join.
use mcp_proxy.Prelude.{String, if◌then◌else◌, true, zero, ◌*◌, ◌==◌, ℕ}
use mcp_proxy.Prelude.Int.{pos, ℤ}
use mcp_proxy.Config.Types.{
  AgentFactsConfig, AuditConfig, Config, HealthConfig, LoggingConfig, MetricsConfig, PolicyConfig,
  ServerConfig, TlsConfig, UpstreamConfig,
}

abbrev pub millisecond : ℕ
millisecond = 1000000

abbrev pub second : ℕ
second = 1000 * millisecond

abbrev pub minute : ℕ
minute = 60 * second

abbrev pub hour : ℕ
hour = 60 * minute

-- An empty string is replaced by the default.
unfoldable pub or_text : String → String → String
or_text s default = if s == "" then default else s

-- So is the number 0.
unfoldable pub or_int : ℤ → ℤ → ℤ
or_int (pos zero) default = default
or_int n default = n

unfoldable pub apply_server_defaults : ServerConfig → ServerConfig
unfolding or_text or_int
apply_server_defaults s = record s {
  listen = record s.listen {
    address = or_text s.listen.address "0.0.0.0";
    port = or_int s.listen.port (pos 3000);
  };
  transport = or_text s.transport "sse";
  read_timeout = or_int s.read_timeout (pos (30 * second));
  write_timeout = or_int s.write_timeout (pos (30 * second));
  idle_timeout = or_int s.idle_timeout (pos (120 * second));
  graceful_shutdown = or_int s.graceful_shutdown (pos (30 * second));
  max_connections = or_int s.max_connections (pos 1000);
  security = record s.security { enable_security_headers = true };
}

unfoldable pub apply_upstream_defaults : UpstreamConfig → UpstreamConfig
unfolding or_text or_int
apply_upstream_defaults u = record u {
  transport = or_text u.transport "sse";
  timeout = or_int u.timeout (pos (30 * second));
  connection_pool = record u.connection_pool {
    max_idle = or_int u.connection_pool.max_idle (pos 10);
    max_open = or_int u.connection_pool.max_open (pos 100);
    idle_timeout = or_int u.connection_pool.idle_timeout (pos (90 * second));
  };
  retry = record u.retry {
    max_attempts = or_int u.retry.max_attempts (pos 3);
    initial_delay = or_int u.retry.initial_delay (pos (100 * millisecond));
    max_delay = or_int u.retry.max_delay (pos (5 * second));
    backoff = or_text u.retry.backoff "exponential";
  };
  circuit_breaker = record u.circuit_breaker {
    threshold = or_int u.circuit_breaker.threshold (pos 5);
    timeout = or_int u.circuit_breaker.timeout (pos (30 * second));
  };
}

unfoldable pub apply_agentfacts_defaults : AgentFactsConfig → AgentFactsConfig
unfolding or_text or_int
apply_agentfacts_defaults af = record af {
  mode = or_text af.mode "optional";
  max_age = or_int af.max_age (pos (24 * hour));
  clock_skew = or_int af.clock_skew (pos (5 * minute));
  cache = record af.cache {
    ttl = or_int af.cache.ttl (pos (5 * minute));
    max_entries = or_int af.cache.max_entries (pos 1000);
  };
}

unfoldable pub apply_policy_defaults : (String → String → String) → PolicyConfig → PolicyConfig
unfolding or_text or_int
apply_policy_defaults join p = record p {
  mode = or_text p.mode "enforce";
  policy_dir = or_text p.policy_dir "policies";
  json_policy_dir = or_text p.json_policy_dir (join (or_text p.policy_dir "policies") "json");
  data_file = or_text p.data_file "config/policy_data.json";
  cache = record p.cache {
    ttl = or_int p.cache.ttl (pos (5 * minute));
    max_entries = or_int p.cache.max_entries (pos 10000);
  };
  evaluation = record p.evaluation {
    timeout = or_int p.evaluation.timeout (pos (100 * millisecond));
  };
}

unfoldable pub apply_audit_defaults : AuditConfig → AuditConfig
unfolding or_text or_int
apply_audit_defaults a = record a {
  db_path = or_text a.db_path "audit.db";
  buffer_size = or_int a.buffer_size (pos 100);
  flush_interval = or_int a.flush_interval (pos second);
  retention_days = or_int a.retention_days (pos 30);
}

unfoldable pub apply_metrics_defaults : MetricsConfig → MetricsConfig
unfolding or_text or_int
apply_metrics_defaults m = record m {
  address = or_text m.address "0.0.0.0";
  port = or_int m.port (pos 9090);
  path = or_text m.path "/metrics";
}

unfoldable pub apply_health_defaults : HealthConfig → HealthConfig
unfolding or_text or_int
apply_health_defaults h = record h {
  address = or_text h.address "0.0.0.0";
  port = or_int h.port (pos 8080);
  liveness_path = or_text h.liveness_path "/health";
  readiness_path = or_text h.readiness_path "/ready";
}

unfoldable pub apply_logging_defaults : LoggingConfig → LoggingConfig
unfolding or_text or_int
apply_logging_defaults l = record l {
  level = or_text l.level "info";
  format = or_text l.format "json";
  output = or_text l.output "stdout";
}

unfoldable pub apply_tls_defaults : TlsConfig → TlsConfig
unfolding or_text or_int
apply_tls_defaults t = record t {
  min_version = or_text t.min_version "1.2";
  client_auth = or_text t.client_auth "none";
}

unfoldable pub apply_defaults : (String → String → String) → Config → Config
apply_defaults join c = record c {
  version = or_text c.version "1.0";
  server = apply_server_defaults c.server;
  upstream = apply_upstream_defaults c.upstream;
  agentfacts = apply_agentfacts_defaults c.agentfacts;
  policy = apply_policy_defaults join c.policy;
  audit = apply_audit_defaults c.audit;
  metrics = apply_metrics_defaults c.metrics;
  health = apply_health_defaults c.health;
  logging = apply_logging_defaults c.logging;
  tls = apply_tls_defaults c.tls;
}
