-- ===== src/Lib.antt =====
-- agentfacts/mcp-proxy: a proxy that stands between agents and an MCP server, checks each JSON-RPC
-- message against a policy, forwards what the policy permits and audits what happened.
--
-- The parts and how they interact. A transport hands a message and the client's session to the
-- router (internal/router). The parser reads and validates it, the router fills a request context
-- from the registry of methods, and the method's handler forwards it, or first asks the policy
-- evaluator. That is the policy engine (internal/policy), which answers from its decision cache or
-- from OPA; cmd/proxy joins the two. The audit logger gets the outcome; its writer (internal/audit)
-- buffers records for the store. Sessions live in the session manager (internal/session), which the
-- transports share. Policies are checked by a validator (internal/policy/compiler) before they are
-- compiled for the engine.
--
-- Files:
--   Prelude, Prelude/*   shared names; the tests and lists over the native numbers, Go maps as
--                        association lists (Maps), Go ints as integers (Int)
--   Session              internal/session/types.go: Session, its methods, and its buffered channel
--   Manager, Manager/*   internal/session/manager.go: create, get, delete, increment_request,
--                        cleanup, stop and list_sessions are the methods of the same names; the
--                        session objects stand in a heap, since pointers to them are shared
--   Json                 decoded JSON values
--   Decision             internal/policy/types.go
--   Cache, Cache/*       internal/policy/cache.go: get, set_decision (Set), evict_oldest, cleanup,
--                        invalidate and compute_key
--   Engine, Engine/*     internal/policy/engine.go: load_policies, set_policy_data, evaluate,
--                        is_allowed and parse_decision, over the parameters Opa
--   Protocol             internal/router/types.go and response.go
--   Parser, Parser/*     internal/router/parser.go, over the parameters Codec
--   Handlers             internal/router/router.go: the handlers and the callbacks
--   Router, Router/*     internal/router/router.go: Route, from the message to reply and audit
--   Proxy, Proxy/*       cmd/proxy/main.go: the policy evaluator that joins router and engine
--   Validation, Validation/*
--                        internal/policy/compiler/validation.go and schema.go: Validate
--   Expression, Expression/*
--                        internal/policy/compiler/expression.go: Compile (compile), its logical
--                        operators, its other conditions (Leaves) and its values (Values)
--   Blocklist, Blocklist/*
--                        internal/policy/compiler/blocklist.go: CompileBlocklistRules, with the
--                        template of templates.go and sanitizeRuleID of capability.go
--   Custom, Custom/*     internal/policy/compiler/custom.go: CompileCustomRules, with its template
--   Writer, Writer/*     internal/audit/writer.go: write and flush, whole and in two steps
--   Query, Query/*       internal/audit/store.go: the query that Query builds
--   Config, Config/*     internal/config: the records (Types), the default values, the environment
--                        overrides, and Load with its validation
--   Stdio, Stdio/*       internal/transport/stdio: the reader and writer of frames, the read loop and
--                        the server
--   Health, Health/*     internal/observability/health.go: the checkers, checkAll and the endpoints
--   Upstream, Upstream/*
--                        internal/upstream/client.go: connect, disconnect, Send as begin, post_and_wait
--                        and release, the reader of events (Events), and the steps of concurrent calls
--   Sse, Sse/*           internal/transport/sse/handler.go: posted messages, the stream and its events
--   the modules Tests    runs of the theorems at concrete data
--
-- Conventions. A method that changes its receiver returns the new one. An operation reads the clock
-- once, and is one step: locks and sync.Map make it so, but for the one interleaving of
-- Manager/Race. Times and durations are nanoseconds on ℕ, counters are ℕ or ℤ without a bound, since
-- they stay far below 2^63. Texts are sequences of characters, and a limit in bytes counts their
-- UTF-8 form. `range` over a Go map and a `select` with several ready cases leave a choice open: the
-- one is the order of the association list, the other is an argument. Random IDs, clock readings
-- and pooled objects are arguments too. The recursion of ReadMessage runs on fuel, one more than the
-- tokens that are left, and the loop of the stdio server on a list of what its rounds find on their
-- signals; Stdio/Ending proves both enough. Every other loop is structural.
--
-- OPA, goccy/go-json, SHA-256, the printing of numbers, and the three callbacks of the router are
-- parameters. Nothing is assumed of them, but that a printed number has no `?` in
-- Query/Placeholders. Not modelled are the database, the metrics, the HTTP servers and the rest of the
-- command, which are calls of libraries for the most part, and not yet the policy loader and, of the
-- policy compiler, the collection of modules and the capability and rate limit rules.
pub mod Blocklist
pub mod Custom
pub mod Prelude
pub mod Session
pub mod Manager
pub mod Json
pub mod Decision
pub mod Cache
pub mod Engine
pub mod Protocol
pub mod Parser
pub mod Handlers
pub mod Router
pub mod Validation
pub mod Proxy
pub mod Stdio
pub mod Expression
pub mod Sse
pub mod Upstream
pub mod Config
pub mod Health
pub mod Writer
pub mod Query
