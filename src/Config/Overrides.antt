-- ===== src/Config/Overrides.antt =====
-- internal/config/config.go: what the environment overrides.
--
-- `getenv` is os.Getenv, with "" for a variable that is not set.
use Prim.Native.Char.{Char, code}
use mcp_proxy.Prelude.{
  Bool, Dict, List, Option, String, [], eqb, false, if◌then◌else◌, leb, none, some, zero, suc, ℕ,
  ◌&&◌, ◌*◌, ◌+◌, ◌-◌, ◌==◌, ◌||◌, ◌∷◌,
}
use mcp_proxy.Prelude.Int.{negsuc, pos, ℤ}
use mcp_proxy.Config.Types.{Config}

-- The decimal digits of `s`, read after `n`.
unfoldable pub digits : ℕ → String → Option ℕ
digits n String.[] = some n
digits n (String.◌∷◌ c s) =
    let rest = digits (10 * n + (code c - b'0')) s in
    if leb b'0' (code c) && leb (code c) b'9' then rest else none

unfoldable pub unsigned : String → Option ℕ
unfolding digits
unsigned String.[] = none
unsigned (String.◌∷◌ c s) = digits 0 (String.◌∷◌ c s)

-- 2^63
abbrev pub int_bound : ℕ
int_bound = 9223372036854775808

unfoldable pub positive : Option ℕ → Option ℤ
positive none = none
positive (some n) = if leb int_bound n then none else some (pos n)

unfoldable pub negative : Option ℕ → Option ℤ
negative none = none
negative (some zero) = some (pos 0)
negative (some (suc n)) = if leb int_bound n then none else some (negsuc n)

-- strconv.Atoi: an optional sign and decimal digits, in the range of an int.
unfoldable pub atoi : String → Option ℤ
unfolding unsigned positive negative
atoi String.[] = none
atoi (String.◌∷◌ c s) =
    if eqb (code c) b'-'
    then negative (unsigned s)
    else if eqb (code c) b'+'
    then positive (unsigned s)
    else positive (unsigned (String.◌∷◌ c s))

unfoldable pub parse_int : String → ℤ → ℤ
unfolding atoi
parse_int s default = elim (atoi s) [ none ↦ default | some n ↦ n ]

-- unicode.ToLower, for ASCII letters: no other character becomes one of a word below.
unfoldable pub lower_code : ℕ → ℕ
lower_code c = if leb b'A' c && leb c b'Z' then c + 32 else c

-- strings.ToLower(s) == word
unfoldable pub lowers_to : String → String → Bool
unfolding lower_code
lowers_to word String.[] = word == ""
lowers_to String.[] (String.◌∷◌ c s) = false
lowers_to (String.◌∷◌ d word) (String.◌∷◌ c s) =
    eqb (lower_code (code c)) (code d) && lowers_to word s

unfoldable pub parse_bool : String → Bool
unfolding lowers_to
parse_bool s = lowers_to "true" s || lowers_to "1" s || lowers_to "yes" s

-- A character put before the first part.
unfoldable pub push_char : Char → List String → List String
push_char c [] = String.◌∷◌ c String.[] ∷ []
push_char c (s ∷ ss) = String.◌∷◌ c s ∷ ss

-- strings.Split(s, ",")
unfoldable pub split_commas : String → List String
unfolding push_char
split_commas String.[] = "" ∷ []
split_commas (String.◌∷◌ c s) =
    let rest = split_commas s in if eqb (code c) b',' then "" ∷ rest else push_char c rest

abbrev pub Setter : Type 0
Setter = String → Config → Config

unfoldable pub set_port : Setter
unfolding parse_int
set_port v c = record c {
  server = record c.server {
    listen = record c.server.listen { port = parse_int v c.server.listen.port };
  };
}

-- The table `envMappings` after its first entry, in one order of its random ones: no two setters
-- write the same field.
unfoldable pub other_mappings : Dict Setter
unfolding parse_int parse_bool
other_mappings =
    (
      "MCP_SERVER_ADDRESS",
      λ v c. record c {
        server = record c.server { listen = record c.server.listen { address = v } };
      },
    )
    ∷ ("MCP_SERVER_TRANSPORT", λ v c. record c { server = record c.server { transport = v } })
    ∷ ("MCP_UPSTREAM_URL", λ v c. record c { upstream = record c.upstream { url = v } })
    ∷ ("MCP_AGENT_ID", λ v c. record c { agent = record c.agent { id = v } })
    ∷ ("MCP_AGENT_NAME", λ v c. record c { agent = record c.agent { name = v } })
    ∷ ("MCP_AGENTFACTS_MODE", λ v c. record c { agentfacts = record c.agentfacts { mode = v } })
    ∷ ("MCP_POLICY_MODE", λ v c. record c { policy = record c.policy { mode = v } })
    ∷ ("MCP_POLICY_RULES_DIR", λ v c. record c { policy = record c.policy { policy_dir = v } })
    ∷ ("MCP_POLICY_DATA_FILE", λ v c. record c { policy = record c.policy { data_file = v } })
    ∷ ("MCP_AUDIT_ENABLED", λ v c. record c { audit = record c.audit { enabled = parse_bool v } })
    ∷ ("MCP_AUDIT_DB_PATH", λ v c. record c { audit = record c.audit { db_path = v } })
    ∷ (
      "MCP_METRICS_ENABLED",
      λ v c. record c { metrics = record c.metrics { enabled = parse_bool v } },
    )
    ∷ (
      "MCP_METRICS_PORT",
      λ v c. record c { metrics = record c.metrics { port = parse_int v c.metrics.port } },
    )
    ∷ (
      "MCP_HEALTH_ENABLED",
      λ v c. record c { health = record c.health { enabled = parse_bool v } },
    )
    ∷ (
      "MCP_HEALTH_PORT",
      λ v c. record c { health = record c.health { port = parse_int v c.health.port } },
    )
    ∷ ("MCP_LOGGING_LEVEL", λ v c. record c { logging = record c.logging { level = v } })
    ∷ ("MCP_LOGGING_FORMAT", λ v c. record c { logging = record c.logging { format = v } })
    ∷ ("MCP_TLS_ENABLED", λ v c. record c { tls = record c.tls { enabled = parse_bool v } })
    ∷ ("MCP_TLS_CERT_FILE", λ v c. record c { tls = record c.tls { cert_file = v } })
    ∷ ("MCP_TLS_KEY_FILE", λ v c. record c { tls = record c.tls { key_file = v } })
    ∷ []

unfoldable pub env_mappings : Dict Setter
unfolding other_mappings set_port
env_mappings = ("MCP_SERVER_PORT", set_port) ∷ other_mappings

-- The setter of a variable that is set, and of no other.
unfoldable pub override : (String → String) → String → Setter → Config → Config
override getenv name setter c = if getenv name == "" then c else setter (getenv name) c

unfoldable pub override_all : (String → String) → Dict Setter → Config → Config
unfolding override
override_all getenv [] c = c
override_all getenv ((name, setter) ∷ table) c =
    override_all getenv table (override getenv name setter c)

unfoldable pub set_capabilities : Setter
unfolding split_commas
set_capabilities v c = record c { agent = record c.agent { capabilities = split_commas v } }

unfoldable pub set_allowed_dids : Setter
unfolding split_commas
set_allowed_dids v c = record c {
  agentfacts = record c.agentfacts { allowed_dids = split_commas v };
}

unfoldable pub apply_env_overrides : (String → String) → Config → Config
apply_env_overrides getenv c =
    override getenv "MCP_AGENTFACTS_ALLOWED_DIDS" set_allowed_dids (
      override getenv "MCP_AGENT_CAPABILITIES" set_capabilities
        (override_all getenv env_mappings c))
