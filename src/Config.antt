-- ===== src/Config.antt =====
-- internal/config/config.go: loading and checking the configuration.
--
-- The file and its YAML are the library's: `parse` is what reading and decoding them gives.
pub mod Types
pub mod Defaults
pub mod Overrides
pub mod Loading
pub mod Repeated
pub mod Precedence
pub mod Tests
use mcp_proxy.Prelude.{
  Bool, List, Option, String, [], false, if◌then◌else◌, none, some, not, ◌==◌, ◌||◌, ◌∷◌,
}
use mcp_proxy.Prelude.Int.{leb_ℤ, ltb_ℤ, pos, ℤ}
use mcp_proxy.Config.Types.{Config, TlsConfig}
use mcp_proxy.Config.Defaults.{apply_defaults}
use mcp_proxy.Config.Overrides.{apply_env_overrides}

pub data ConfigError : Type 0 where
  read_failed parse_failed : ConfigError
  invalid_port : ℤ → ConfigError
  invalid_transport invalid_agentfacts_mode invalid_policy_mode invalid_logging_level :
      String → ConfigError

pub data Result : Type 0 where
  ok : Config → Result
  err : ConfigError → Result

-- A set written as a map to true.
unfoldable pub any_of : List String → String → Bool
any_of [] s = false
any_of (x ∷ xs) s = x == s || any_of xs s

abbrev pub valid_transports : List String
valid_transports = "sse" ∷ "stdio" ∷ "http" ∷ []

abbrev pub valid_modes : List String
valid_modes = "disabled" ∷ "optional" ∷ "required" ∷ []

abbrev pub valid_policy_modes : List String
valid_policy_modes = "audit" ∷ "enforce" ∷ []

abbrev pub valid_levels : List String
valid_levels = "debug" ∷ "info" ∷ "warn" ∷ "error" ∷ []

unfoldable pub validate : Config → Option ConfigError
unfolding any_of
validate c =
    if ltb_ℤ c.server.listen.port (pos 1) || ltb_ℤ (pos 65535) c.server.listen.port
    then some (invalid_port c.server.listen.port)
    else if not (any_of valid_transports c.server.transport)
    then some (invalid_transport c.server.transport)
    else if not (any_of valid_modes c.agentfacts.mode)
    then some (invalid_agentfacts_mode c.agentfacts.mode)
    else if not (any_of valid_policy_modes c.policy.mode)
    then some (invalid_policy_mode c.policy.mode)
    else if not (any_of valid_levels c.logging.level)
    then some (invalid_logging_level c.logging.level)
    else none

checked : Option ConfigError → Config → Result
checked none c = ok c
checked (some e) c = err e

-- Load, after reading and decoding.
unfoldable pub finish_load : (String → String → String) → (String → String) → Config → Result
unfolding checked
finish_load join getenv file =
    let c = apply_env_overrides getenv (apply_defaults join file) in checked (validate c) c

-- What reading the file and decoding it may give.
pub data File : Type 0 where
  unreadable undecodable : File
  decoded : Config → File

unfoldable pub load : (String → String → String) → (String → String) → File → Result
unfolding finish_load
load join getenv unreadable = err read_failed
load join getenv undecodable = err parse_failed
load join getenv (decoded file) = finish_load join getenv file

mask_tls : TlsConfig → TlsConfig
mask_tls t = if t.key_file == "" then t else record t { key_file = "****" }

unfoldable pub mask_sensitive : Config → Config
unfolding mask_tls
mask_sensitive c = record c { tls = mask_tls c.tls }
