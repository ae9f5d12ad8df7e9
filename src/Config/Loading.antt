-- ===== src/Config/Loading.antt =====
-- When a decoded file loads.
use mcp_proxy.Prelude.{
  subst, ◌⊎◌, ◌↔◌, Bool, List, Option, String, [], arith, eq_iff, false, if◌then◌else◌, none, not,
  some, sym, true, ◌≡◌, ◌∷◌, ◌||◌,
}
use mcp_proxy.Prelude.Int.{ltb_ℤ, pos, ℤ, ◌≤ℤ◌}
use mcp_proxy.Config.{
  checked, ok, load, decoded, any_of, validate, valid_transports, valid_modes, valid_policy_modes,
  valid_levels, finish_load, ConfigError,
}
use mcp_proxy.Config.Types.{Config}
use mcp_proxy.Config.Defaults.{apply_defaults}
use mcp_proxy.Config.Overrides.{apply_env_overrides}

-- One of the words of a list.
abbrev pub OneOf : String → List String → Type 0
OneOf s [] = ⊥
OneOf s (x ∷ xs) = (x ≡ s) ⊎ OneOf s xs

pub record IsValid (c : Config) : Type 0 where
  pub port_least : pos 1 ≤ℤ c.server.listen.port
  pub port_most : c.server.listen.port ≤ℤ pos 65535
  pub transport : OneOf c.server.transport valid_transports
  pub agentfacts_mode : OneOf c.agentfacts.mode valid_modes
  pub policy_mode : OneOf c.policy.mode valid_policy_modes
  pub level : OneOf c.logging.level valid_levels

any_of_iff : (xs : List String) (s : String) → (any_of xs s ≡ true) ↔ OneOf s xs
unfolding any_of
any_of_iff [] s = ((λ e. cc), (λ h. absurd h))
any_of_iff (x ∷ xs) s = ground (arith, any_of_iff xs s, eq_iff x s)

all_pass :
    (p a b d e : Bool) (P Q R S T : ConfigError)
    → ((if p
          then some P
          else if not a
          then some Q
          else if not b
          then some R
          else if not d
          then some S
          else if not e
          then some T
          else none)
        ≡ none)
      ↔ (p ≡ false) × (a ≡ true) × (b ≡ true) × (d ≡ true) × (e ≡ true)
all_pass p a b d e P Q R S T = ground arith

port_iff :
    (n : ℤ) → ((ltb_ℤ n (pos 1) || ltb_ℤ (pos 65535) n) ≡ false) ↔ (pos 1 ≤ℤ n) × (n ≤ℤ pos 65535)
port_iff n = ground arith

-- A configuration passes exactly when it is valid.
validate_iff : (c : Config) → (validate c ≡ none) ↔ IsValid c
unfolding validate
validate_iff c =
    let port = port_iff c.server.listen.port in
    let transport = any_of_iff valid_transports c.server.transport in
    let agentfacts = any_of_iff valid_modes c.agentfacts.mode in
    let policy = any_of_iff valid_policy_modes c.policy.mode in
    let level = any_of_iff valid_levels c.logging.level in
    let pass = all_pass _ _ _ _ _ _ _ _ _ _ in
    (
      λ e.
          let (p, a, b, d, l) = pass.0 e in
          record {
            port_least = (port.0 p).0;
            port_most = (port.0 p).1;
            transport = transport.0 a;
            agentfacts_mode = agentfacts.0 b;
            policy_mode = policy.0 d;
            level = level.0 l;
          },
      λ v. pass.1 (
        port.1 (v.port_least, v.port_most),
        transport.1 v.transport,
        agentfacts.1 v.agentfacts_mode,
        policy.1 v.policy_mode,
        level.1 v.level,
      ),
    )

checked_iff : (o : Option ConfigError) (d c : Config) → (checked o d ≡ ok c) ↔ (o ≡ none) × (d ≡ c)
unfolding checked
checked_iff none d c = ground arith
checked_iff (some e) d c = ground arith

-- A decoded file loads exactly when the defaults, overridden by the environment, are a valid configuration, which is then what is loaded: the port from 1 to 65535, and the transport, the two modes and the logging level among the words allowed.
pub load-ok_iff :
    (join : String → String → String) (getenv : String → String) (file c : Config)
    → (load join getenv (decoded file) ≡ ok c)
      ↔ (apply_env_overrides getenv (apply_defaults join file) ≡ c) × IsValid c
unfolding load finish_load
load-ok_iff join getenv file c =
    let final = apply_env_overrides getenv (apply_defaults join file) in
    let valid = validate_iff final in
    let done = checked_iff (validate final) final c in
    (
      λ e. let (none_found, same) = done.0 e in (same, subst IsValid same (valid.0 none_found)),
      λ p. done.1 (valid.1 (subst IsValid (sym p.0) p.1), p.0),
    )
