-- ===== src/Query.antt =====
-- internal/audit/store.go: the query that Query builds for the database.
--
-- The database gets the text and, apart from it, the arguments for its placeholders. The numbers
-- are printed by the parameter `decimal`, fmt.Sprintf's "%d"; times are points on one clock.
pub mod Texts
pub mod Placeholders
pub mod Injection
pub mod Tests
use mcp_proxy.Prelude.{
  Bool, Dict, false, List, Option, String, [], if◌then◌else◌, lookup, none, not, some, true, ℕ,
  ◌++◌, ◌==◌, ◌∷◌,
}
use mcp_proxy.Prelude.Int.{ltb_ℤ, pos, ℤ}
use Prim.Native.String.{◌++◌ as ◌++ˢ◌}
use mcp_proxy.Cache.{join}

-- What a placeholder may stand for.
pub data Arg : Type 0 where
  time : ℕ → Arg
  text : String → Arg
  flag : Bool → Arg

pub record QueryOptions : Type 0 where
  pub start_time : Option ℕ
  pub end_time : Option ℕ
  pub agent_id : String
  pub session_id : String
  pub method : String
  pub tool : String
  pub allowed : Option Bool
  pub limit : ℤ
  pub offset : ℤ
  pub order_by : String
  pub order_desc : Bool

-- The slices `conditions` and `args`.
pub record Filters : Type 0 where
  pub conditions : List String
  pub args : List Arg

unfoldable pub no_filters : Filters
no_filters = record { conditions = []; args = [] }

unfoldable pub add_filter : String → Arg → Filters → Filters
add_filter condition arg f = record {
  conditions = f.conditions ++ condition ∷ [];
  args = f.args ++ arg ∷ [];
}

unfoldable pub add_text : String → String → Filters → Filters
unfolding add_filter
add_text condition value f = if not (value == "") then add_filter condition (text value) f else f

unfoldable pub add_time : String → Option ℕ → Filters → Filters
unfolding add_filter
add_time condition none f = f
add_time condition (some t) f = add_filter condition (time t) f

unfoldable pub add_flag : String → Option Bool → Filters → Filters
unfolding add_filter
add_flag condition none f = f
add_flag condition (some b) f = add_filter condition (flag b) f

unfoldable pub filters : QueryOptions → Filters
unfolding no_filters add_text add_time add_flag
filters opts = add_flag "allowed = ?" opts.allowed (
    add_text "tool = ?" opts.tool (
      add_text "method = ?" opts.method (
        add_text "session_id = ?" opts.session_id (
          add_text "agent_id = ?" opts.agent_id (
            add_time "timestamp <= ?" opts.end_time
              (add_time "timestamp >= ?" opts.start_time no_filters))))))

abbrev pub select_from : String
select_from =
    "SELECT id, request_id, session_id, timestamp, latency_ms, agent_id, agent_name, capabilities, method, tool, resource_uri, arguments, identity_verified, did, allowed, matched_rule, violations, policy_mode, source_ip, environment FROM audit_log"

unfoldable pub where_clause : List String → String
where_clause [] = ""
where_clause (c ∷ cs) = " WHERE " ++ˢ join (c ∷ cs) " AND "

unfoldable pub allowed_order_by_columns : Dict Bool
allowed_order_by_columns =
    ("id", true)
    ∷ ("timestamp", true)
    ∷ ("agent_id", true)
    ∷ ("session_id", true)
    ∷ ("method", true)
    ∷ ("tool", true)
    ∷ ("allowed", true)
    ∷ ("latency_ms", true)
    ∷ ("source_ip", true)
    ∷ []

-- What m[k] is for a map to bool: a missing key has the zero value.
unfoldable pub indexed : Option Bool → Bool
indexed none = false
indexed (some b) = b

-- The column to order by, if it may be used.
unfoldable pub order_column : String → Option String
unfolding allowed_order_by_columns indexed
order_column order_by =
    if order_by == ""
    then some "timestamp"
    else if indexed (lookup order_by allowed_order_by_columns)
    then some order_by
    else none

unfoldable pub direction : Bool → String
direction desc = if desc then "DESC" else "ASC"

unfoldable pub page : (ℤ → String) → String → ℤ → String
page decimal word n = if ltb_ℤ (pos 0) n then word ++ˢ decimal n else ""

unfoldable pub query_text : (ℤ → String) → QueryOptions → String → String
unfolding filters where_clause direction page
query_text decimal opts column =
    select_from
    ++ˢ where_clause (filters opts).conditions
    ++ˢ " ORDER BY "
    ++ˢ column
    ++ˢ " "
    ++ˢ direction opts.order_desc
    ++ˢ page decimal " LIMIT " opts.limit
    ++ˢ page decimal " OFFSET " opts.offset

-- The text and the arguments that go to the database, or none for a column that is not allowed.
unfoldable pub build_query : (ℤ → String) → QueryOptions → Option (String × List Arg)
unfolding query_text order_column
build_query decimal opts = elim (order_column opts.order_by) [
  | none ↦ none
  | some column ↦ some (query_text decimal opts column, (filters opts).args)
]
