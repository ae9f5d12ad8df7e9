-- ===== src/Config/Repeated.antt =====
-- Applying the default values again.
use mcp_proxy.Prelude.{String, arith, eq_iff, ◌≡◌}
use mcp_proxy.Prelude.Int.{ℤ}
use mcp_proxy.Config.Types.{
  Config, PolicyConfig, ServerConfig, UpstreamConfig, AgentFactsConfig, AuditConfig, MetricsConfig,
  HealthConfig, LoggingConfig, TlsConfig,
}
use mcp_proxy.Config.Defaults.{
  apply_server_defaults, apply_upstream_defaults, apply_agentfacts_defaults, apply_policy_defaults,
  apply_audit_defaults, apply_metrics_defaults, apply_health_defaults, apply_logging_defaults,
  apply_tls_defaults, or_int, or_text, apply_defaults,
}

or_text_idem : (s d : String) → or_text (or_text s d) d ≡ or_text s d
unfolding or_text
or_text_idem s d = ground (arith, eq_iff d "")

or_int_idem : (n d : ℤ) → or_int (or_int n d) d ≡ or_int n d
unfolding or_int
or_int_idem n d = ground arith

apply_server_defaults_idem :
    (c : ServerConfig) → apply_server_defaults (apply_server_defaults c) ≡ apply_server_defaults c
unfolding apply_server_defaults
apply_server_defaults_idem c = simp (or_text_idem, or_int_idem)

apply_upstream_defaults_idem :
    (c : UpstreamConfig)
    → apply_upstream_defaults (apply_upstream_defaults c) ≡ apply_upstream_defaults c
unfolding apply_upstream_defaults
apply_upstream_defaults_idem c = simp (or_text_idem, or_int_idem)

apply_agentfacts_defaults_idem :
    (c : AgentFactsConfig)
    → apply_agentfacts_defaults (apply_agentfacts_defaults c) ≡ apply_agentfacts_defaults c
unfolding apply_agentfacts_defaults
apply_agentfacts_defaults_idem c = simp (or_text_idem, or_int_idem)

apply_policy_defaults_idem :
    (join : String → String → String) (c : PolicyConfig)
    → apply_policy_defaults join (apply_policy_defaults join c) ≡ apply_policy_defaults join c
unfolding apply_policy_defaults
apply_policy_defaults_idem join c = simp (or_text_idem, or_int_idem)

apply_audit_defaults_idem :
    (c : AuditConfig) → apply_audit_defaults (apply_audit_defaults c) ≡ apply_audit_defaults c
unfolding apply_audit_defaults
apply_audit_defaults_idem c = simp (or_text_idem, or_int_idem)

apply_metrics_defaults_idem :
    (c : MetricsConfig)
    → apply_metrics_defaults (apply_metrics_defaults c) ≡ apply_metrics_defaults c
unfolding apply_metrics_defaults
apply_metrics_defaults_idem c = simp (or_text_idem, or_int_idem)

apply_health_defaults_idem :
    (c : HealthConfig) → apply_health_defaults (apply_health_defaults c) ≡ apply_health_defaults c
unfolding apply_health_defaults
apply_health_defaults_idem c = simp (or_text_idem, or_int_idem)

apply_logging_defaults_idem :
    (c : LoggingConfig)
    → apply_logging_defaults (apply_logging_defaults c) ≡ apply_logging_defaults c
unfolding apply_logging_defaults
apply_logging_defaults_idem c = simp or_text_idem

apply_tls_defaults_idem :
    (c : TlsConfig) → apply_tls_defaults (apply_tls_defaults c) ≡ apply_tls_defaults c
unfolding apply_tls_defaults
apply_tls_defaults_idem c = simp or_text_idem

-- Default values applied twice are those applied once.
pub apply_defaults_idem :
    (join : String → String → String) (c : Config)
    → apply_defaults join (apply_defaults join c) ≡ apply_defaults join c
unfolding apply_defaults
apply_defaults_idem join c = simp (
  or_text_idem, apply_server_defaults_idem, apply_upstream_defaults_idem,
  apply_agentfacts_defaults_idem, apply_policy_defaults_idem, apply_audit_defaults_idem,
  apply_metrics_defaults_idem, apply_health_defaults_idem, apply_logging_defaults_idem,
  apply_tls_defaults_idem,
)
