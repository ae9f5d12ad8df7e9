-- ===== src/Config/Precedence.antt =====
-- Which of environment, file and default value wins.
use mcp_proxy.Prelude.{Dict, String, ap, [], arith, if◌then◌else◌, refl, sym, ◌≡◌, ◌==◌, ◌∙◌, ◌∷◌}
use mcp_proxy.Prelude.Int.{pos}
use mcp_proxy.Config.{ok, load, decoded}
use mcp_proxy.Config.Types.{Config}
use mcp_proxy.Config.Defaults.{
  apply_server_defaults, apply_policy_defaults, or_int, or_text, apply_defaults,
}
use mcp_proxy.Config.Overrides.{
  other_mappings, set_port, set_capabilities, set_allowed_dids, apply_env_overrides, env_mappings,
  override_all, override, parse_int,
}
use mcp_proxy.Config.Loading.{load-ok_iff}

module _ {A : Type 0} (f : Config → A) where
  -- No setter of the table changes `f`.
  abbrev Keeps : Dict (String → Config → Config) → Type 0
  Keeps [] = Unit
  Keeps ((name, setter) ∷ table) = ((v : String) (c : Config) → f (setter v c) ≡ f c) × Keeps table

  override_kept :
      (getenv : String → String) (name : String) (setter : String → Config → Config) (c : Config)
      → ((v : String) (d : Config) → f (setter v d) ≡ f d)
      → f (override getenv name setter c) ≡ f c
  unfolding override
  override_kept getenv name setter c h = ground (arith, h (getenv name) c)

  override_all_kept :
      (getenv : String → String) (table : Dict (String → Config → Config)) (c : Config)
      → Keeps table
      → f (override_all getenv table c) ≡ f c
  unfolding override_all
  override_all_kept getenv [] c h = refl
  override_all_kept getenv ((name, setter) ∷ table) c h =
      override_all_kept getenv table (override getenv name setter c) h.1
      ∙ override_kept getenv name setter c h.0

-- A variable that is set.
abbrev pub or_else {ℓ} : {A : Type ℓ} → String → A → A → A
or_else value set unset = if value == "" then unset else set

override-port :
    (getenv : String → String) (c : Config)
    → (override getenv "MCP_SERVER_PORT" set_port c).server.listen.port
      ≡ or_else
          (getenv "MCP_SERVER_PORT")
          (parse_int (getenv "MCP_SERVER_PORT") c.server.listen.port)
          c.server.listen.port
unfolding override set_port
override-port getenv c = ground arith

-- What no entry of the table but the first sets, and neither of the two lists.
kept_after :
    {A : Type 0} (f : Config → A) (getenv : String → String) (c : Config)
    → Keeps f other_mappings
    → ((v : String) (d : Config) → f (set_capabilities v d) ≡ f d)
    → ((v : String) (d : Config) → f (set_allowed_dids v d) ≡ f d)
    → f (apply_env_overrides getenv c) ≡ f (override getenv "MCP_SERVER_PORT" set_port c)
unfolding apply_env_overrides env_mappings override_all
kept_after f getenv c table caps dids =
    override_kept f getenv "MCP_AGENTFACTS_ALLOWED_DIDS" set_allowed_dids _ dids
    ∙ override_kept f getenv "MCP_AGENT_CAPABILITIES" set_capabilities _ caps
    ∙ override_all_kept f getenv other_mappings _ table

-- The port that is loaded is the number in MCP_SERVER_PORT, where that is set and is one; else the port of the file, where that is not 0; else 3000.
pub load-port :
    (join : String → String → String) (getenv : String → String) (file c : Config)
    → load join getenv (decoded file) ≡ ok c
    → let from_file = or_int file.server.listen.port (pos 3000) in
      c.server.listen.port
      ≡ or_else
          (getenv "MCP_SERVER_PORT")
          (parse_int (getenv "MCP_SERVER_PORT") from_file)
          from_file
unfolding apply_defaults apply_server_defaults other_mappings set_capabilities set_allowed_dids
load-port join getenv file c h =
    let start = apply_defaults join file in
    ap (λ d. d.server.listen.port) (sym ((load-ok_iff join getenv file c).0 h).0)
    ∙ kept_after (λ d. d.server.listen.port) getenv start
        (
          λ v c. refl,
          (
            λ v c. refl,
            (
              λ v c. refl,
              (
                λ v c. refl,
                (
                  λ v c. refl,
                  (
                    λ v c. refl,
                    (
                      λ v c. refl,
                      (
                        λ v c. refl,
                        (
                          λ v c. refl,
                          (
                            λ v c. refl,
                            (
                              λ v c. refl,
                              (
                                λ v c. refl,
                                (
                                  λ v c. refl,
                                  (
                                    λ v c. refl,
                                    (
                                      λ v c. refl,
                                      (
                                        λ v c. refl,
                                        (
                                          λ v c. refl,
                                          (λ v c. refl, (λ v c. refl, (λ v c. refl, tt))),
                                        ),
                                      ),
                                    ),
                                  ),
                                ),
                              ),
                            ),
                          ),
                        ),
                      ),
                    ),
                  ),
                ),
              ),
            ),
          ),
        )
        (λ v d. refl) (λ v d. refl)
    ∙ override-port getenv start

-- Whatever the environment sets, the rules directory included, the directory of JSON policies that is loaded is the one of the file, or else the part `json` of the rules directory of the file, or of `policies`.
pub load-json_policy_dir :
    (join : String → String → String) (getenv : String → String) (file c : Config)
    → load join getenv (decoded file) ≡ ok c
    → c.policy.json_policy_dir
      ≡ or_text file.policy.json_policy_dir
          (join (or_text file.policy.policy_dir "policies") "json")
unfolding apply_defaults apply_policy_defaults other_mappings set_port set_capabilities
    set_allowed_dids
load-json_policy_dir join getenv file c h =
    let start = apply_defaults join file in
    ap (λ d. d.policy.json_policy_dir) (sym ((load-ok_iff join getenv file c).0 h).0)
    ∙ kept_after (λ d. d.policy.json_policy_dir) getenv start
        (
          λ v c. refl,
          (
            λ v c. refl,
            (
              λ v c. refl,
              (
                λ v c. refl,
                (
                  λ v c. refl,
                  (
                    λ v c. refl,
                    (
                      λ v c. refl,
                      (
                        λ v c. refl,
                        (
                          λ v c. refl,
                          (
                            λ v c. refl,
                            (
                              λ v c. refl,
                              (
                                λ v c. refl,
                                (
                                  λ v c. refl,
                                  (
                                    λ v c. refl,
                                    (
                                      λ v c. refl,
                                      (
                                        λ v c. refl,
                                        (
                                          λ v c. refl,
                                          (λ v c. refl, (λ v c. refl, (λ v c. refl, tt))),
                                        ),
                                      ),
                                    ),
                                  ),
                                ),
                              ),
                            ),
                          ),
                        ),
                      ),
                    ),
                  ),
                ),
              ),
            ),
          ),
        )
        (λ v d. refl) (λ v d. refl)
    ∙ override_kept (λ d. d.policy.json_policy_dir) getenv "MCP_SERVER_PORT" set_port start
        (λ v d. refl)
