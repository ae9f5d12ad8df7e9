-- ===== src/Query/Tests.antt =====
-- Two queries with the same filters, and the theorems at them.
use mcp_proxy.Prelude.{lookup, true, false, none, some, refl, ◌≡◌, String, length}
use mcp_proxy.Prelude.Int.{pos, ℤ}
use mcp_proxy.Query.{QueryOptions, filters, query_text, build_query}
use mcp_proxy.Query.Texts.{placeholders}
use mcp_proxy.Query.Placeholders.{build_query-placeholders}
use mcp_proxy.Query.Injection.{SameShape, text_of, build_query_text}

-- All numbers are printed alike here.
abbrev decimal : ℤ → String
decimal n = "5"

abbrev by_agent : String → QueryOptions
by_agent agent = record {
  start_time = none;
  end_time = some 9;
  agent_id = agent;
  session_id = "";
  method = "";
  tool = "";
  allowed = some false;
  limit = pos 5;
  offset = pos 0;
  order_by = "agent_id";
  order_desc = true;
}

decimal_plain : (n : ℤ) → placeholders (decimal n) ≡ 0
unfolding placeholders
decimal_plain n = refl

by_agent_built :
    build_query decimal (by_agent "bob")
    ≡ some (query_text decimal (by_agent "bob") "agent_id", (filters (by_agent "bob")).args)
unfolding build_query lookup
by_agent_built = refl

build_query-placeholders_example :
    placeholders (query_text decimal (by_agent "bob") "agent_id")
    ≡ length (filters (by_agent "bob")).args
build_query-placeholders_example =
    build_query-placeholders decimal (by_agent "bob")
      (query_text decimal (by_agent "bob") "agent_id") (filters (by_agent "bob")).args decimal_plain
      by_agent_built

same_shape : SameShape (by_agent "bob") (by_agent "' OR 1=1 --")
same_shape = record {
  start_time = refl;
  end_time = refl;
  agent_id = refl;
  session_id = refl;
  method = refl;
  tool = refl;
  allowed = refl;
  limit = refl;
  offset = refl;
  order_by = refl;
  order_desc = refl;
}

build_query_text_example :
    text_of (build_query decimal (by_agent "bob"))
    ≡ text_of (build_query decimal (by_agent "' OR 1=1 --"))
build_query_text_example =
    build_query_text decimal (by_agent "bob") (by_agent "' OR 1=1 --") same_shape
