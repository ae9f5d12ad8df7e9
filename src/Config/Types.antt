-- ===== src/Config/Types.antt =====
-- internal/config/types.go: the configuration. Go's int and time.Duration (nanoseconds) are ℤ.
use mcp_proxy.Prelude.{Bool, List, String}
use mcp_proxy.Prelude.Int.{ℤ}

pub record ListenConfig : Type 0 where
  pub address : String
  pub port : ℤ

pub record SecurityConfig : Type 0 where
  pub cors_allowed_origins : List String
  pub enable_security_headers : Bool

pub record ServerConfig : Type 0 where
  pub listen : ListenConfig
  pub transport : String
  pub read_timeout : ℤ
  pub write_timeout : ℤ
  pub idle_timeout : ℤ
  pub graceful_shutdown : ℤ
  pub max_connections : ℤ
  pub security : SecurityConfig

pub record ConnectionPoolConfig : Type 0 where
  pub max_idle : ℤ
  pub max_open : ℤ
  pub idle_timeout : ℤ

pub record RetryConfig : Type 0 where
  pub enabled : Bool
  pub max_attempts : ℤ
  pub initial_delay : ℤ
  pub max_delay : ℤ
  pub backoff : String

pub record CircuitBreakerConfig : Type 0 where
  pub enabled : Bool
  pub threshold : ℤ
  pub timeout : ℤ

pub record UpstreamConfig : Type 0 where
  pub url : String
  pub transport : String
  pub timeout : ℤ
  pub connection_pool : ConnectionPoolConfig
  pub retry : RetryConfig
  pub circuit_breaker : CircuitBreakerConfig

pub record AgentConfig : Type 0 where
  pub id : String
  pub name : String
  pub capabilities : List String
  pub model : String
  pub publisher : String
  pub tags : List String

pub record CacheConfig : Type 0 where
  pub enabled : Bool
  pub ttl : ℤ
  pub max_entries : ℤ

pub record AgentFactsConfig : Type 0 where
  pub mode : String
  pub max_age : ℤ
  pub clock_skew : ℤ
  pub allowed_dids : List String
  pub verify_log_proof : Bool
  pub cache : CacheConfig

pub record EvaluationConfig : Type 0 where
  pub timeout : ℤ
  pub strict_builtin_errors : Bool

pub record PolicyConfig : Type 0 where
  pub enabled : Bool
  pub mode : String
  pub policy_dir : String
  pub json_policy_dir : String
  pub data_file : String
  pub watch_for_changes : Bool
  pub environment : String
  pub cache : CacheConfig
  pub evaluation : EvaluationConfig

pub record CaptureConfig : Type 0 where
  pub request_arguments : Bool
  pub response_summary : Bool

pub record AuditConfig : Type 0 where
  pub enabled : Bool
  pub db_path : String
  pub buffer_size : ℤ
  pub flush_interval : ℤ
  pub retention_days : ℤ
  pub capture : CaptureConfig

pub record MetricsConfig : Type 0 where
  pub enabled : Bool
  pub address : String
  pub port : ℤ
  pub path : String

pub record HealthConfig : Type 0 where
  pub enabled : Bool
  pub address : String
  pub port : ℤ
  pub liveness_path : String
  pub readiness_path : String

pub record FileConfig : Type 0 where
  pub path : String
  pub max_size : ℤ
  pub max_backups : ℤ
  pub max_age : ℤ

pub record LoggingConfig : Type 0 where
  pub level : String
  pub format : String
  pub output : String
  pub file : FileConfig

pub record TlsConfig : Type 0 where
  pub enabled : Bool
  pub cert_file : String
  pub key_file : String
  pub ca_file : String
  pub min_version : String
  pub client_auth : String

pub record Config : Type 0 where
  pub version : String
  pub server : ServerConfig
  pub upstream : UpstreamConfig
  pub agent : AgentConfig
  pub agentfacts : AgentFactsConfig
  pub policy : PolicyConfig
  pub audit : AuditConfig
  pub metrics : MetricsConfig
  pub health : HealthConfig
  pub logging : LoggingConfig
  pub tls : TlsConfig
