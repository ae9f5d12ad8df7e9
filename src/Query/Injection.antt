-- ===== src/Query/Injection.antt =====
-- What a caller puts into the filters never gets into the query's text.
use mcp_proxy.Prelude.{
  Option-cases, Bool, List, Option, String, [], true, false, none, some, refl, inl, inr, Bool-cases,
  ℕ, ◌++◌, ◌∷◌, ◌≡◌, ◌==◌, arith, ap, ◌∙◌,
}
use mcp_proxy.Prelude.Int.{ℤ}
use mcp_proxy.Query.{
  QueryOptions, Filters, filters, no_filters, add_filter, add_text, add_time, add_flag, query_text,
  build_query, order_column, Arg, time, text, flag,
}

abbrev pub is_given {ℓ} : {A : Type ℓ} → Option A → Bool
is_given none = false
is_given (some _) = true

-- The same filters are set, to whatever values, and the order and the page are the same.
pub record SameShape (a b : QueryOptions) : Type 0 where
  pub start_time : is_given a.start_time ≡ is_given b.start_time
  pub end_time : is_given a.end_time ≡ is_given b.end_time
  pub agent_id : (a.agent_id == "") ≡ (b.agent_id == "")
  pub session_id : (a.session_id == "") ≡ (b.session_id == "")
  pub method : (a.method == "") ≡ (b.method == "")
  pub tool : (a.tool == "") ≡ (b.tool == "")
  pub allowed : is_given a.allowed ≡ is_given b.allowed
  pub limit : a.limit ≡ b.limit
  pub offset : a.offset ≡ b.offset
  pub order_by : a.order_by ≡ b.order_by
  pub order_desc : a.order_desc ≡ b.order_desc

module _ (condition : String) (f g : Filters) (same : f.conditions ≡ g.conditions) where
  conditions-add_filter :
      (x y : Arg) → (add_filter condition x f).conditions ≡ (add_filter condition y g).conditions
  unfolding add_filter
  conditions-add_filter x y = ap (λ cs. cs ++ condition ∷ []) same

  conditions-add_text :
      (v u : String)
      → (v == "") ≡ (u == "")
      → (add_text condition v f).conditions ≡ (add_text condition u g).conditions
  unfolding add_text
  conditions-add_text v u e = elim (Bool-cases (u == "")) [
    | inl empty ↦ rw (e, empty) same
    | inr given ↦ rw (e, given) (conditions-add_filter (text v) (text u))
  ]

  conditions-add_time :
      (t u : Option ℕ)
      → is_given t ≡ is_given u
      → (add_time condition t f).conditions ≡ (add_time condition u g).conditions
  unfolding add_time
  conditions-add_time none none e = same
  conditions-add_time (some t) (some u) e = conditions-add_filter (time t) (time u)
  conditions-add_time none (some u) e = absurd (ground arith)
  conditions-add_time (some t) none e = absurd (ground arith)

  conditions-add_flag :
      (t u : Option Bool)
      → is_given t ≡ is_given u
      → (add_flag condition t f).conditions ≡ (add_flag condition u g).conditions
  unfolding add_flag
  conditions-add_flag none none e = same
  conditions-add_flag (some t) (some u) e = conditions-add_filter (flag t) (flag u)
  conditions-add_flag none (some u) e = absurd (ground arith)
  conditions-add_flag (some t) none e = absurd (ground arith)

conditions-filters :
    (a b : QueryOptions) → SameShape a b → (filters a).conditions ≡ (filters b).conditions
unfolding filters
conditions-filters a b s =
    let c1 =
      conditions-add_time "timestamp >= ?" no_filters no_filters refl a.start_time b.start_time
        s.start_time in
    let c2 = conditions-add_time "timestamp <= ?" _ _ c1 a.end_time b.end_time s.end_time in
    let c3 = conditions-add_text "agent_id = ?" _ _ c2 a.agent_id b.agent_id s.agent_id in
    let c4 = conditions-add_text "session_id = ?" _ _ c3 a.session_id b.session_id s.session_id in
    let c5 = conditions-add_text "method = ?" _ _ c4 a.method b.method s.method in
    let c6 = conditions-add_text "tool = ?" _ _ c5 a.tool b.tool s.tool in
    conditions-add_flag "allowed = ?" _ _ c6 a.allowed b.allowed s.allowed

query_text_same :
    (decimal : ℤ → String) (a b : QueryOptions) (column : String)
    → SameShape a b
    → query_text decimal a column ≡ query_text decimal b column
unfolding query_text
query_text_same decimal a b column s =
    rw (conditions-filters a b s, s.limit, s.offset, s.order_desc)

-- `build_query` from the column that `order_column` gives.
abbrev built : (ℤ → String) → QueryOptions → Option String → Option (String × List Arg)
built decimal opts none = none
built decimal opts (some column) = some (query_text decimal opts column, (filters opts).args)

build_query_refused :
    (decimal : ℤ → String) (opts : QueryOptions)
    → order_column opts.order_by ≡ none
    → build_query decimal opts ≡ none
unfolding build_query
build_query_refused decimal opts e = ap (built decimal opts) e

build_query_allowed :
    (decimal : ℤ → String) (opts : QueryOptions) (column : String)
    → order_column opts.order_by ≡ some column
    → build_query decimal opts ≡ some (query_text decimal opts column, (filters opts).args)
unfolding build_query
build_query_allowed decimal opts column e = ap (built decimal opts) e

-- The text of a query, if one is built.
abbrev pub text_of : Option (String × List Arg) → Option String
text_of none = none
text_of (some (query, args)) = some query

-- Two sets of options that set the same filters, in the same order and page, give the same query text, or are refused both, whatever values the filters have.
pub build_query_text :
    (decimal : ℤ → String) (a b : QueryOptions)
    → SameShape a b
    → text_of (build_query decimal a) ≡ text_of (build_query decimal b)
build_query_text decimal a b s = elim (Option-cases (order_column b.order_by)) [
  | inl refused ↦ rw (
    build_query_refused decimal a (ap order_column s.order_by ∙ refused),
    build_query_refused decimal b refused,
  )
  | inr (column, allowed) ↦
      rw
        (
          build_query_allowed decimal a column (ap order_column s.order_by ∙ allowed),
          build_query_allowed decimal b column allowed,
        )
        (ap some (query_text_same decimal a b column s))
]
