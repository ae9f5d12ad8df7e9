-- ===== src/Query/Placeholders.antt =====
-- The placeholders in the query's text and the arguments that go with it.
use Prim.Native.String.{◌++◌ as ◌++ˢ◌}
use mcp_proxy.Prelude.{
  Bool, Dict, List, Option, Option-cases, String, [], true, false, none, some, refl, inl, inr,
  Bool-cases, ℕ, ◌∷◌, ◌≡◌, ◌==◌, arith, lookup, eq_iff, not, length, length-append, ap, sym, ◌∙◌,
}
use mcp_proxy.Prelude.Int.{ltb_ℤ, pos, ℤ}
use mcp_proxy.Query.{
  Arg, QueryOptions, Filters, filters, no_filters, add_filter, add_text, add_time, add_flag,
  where_clause, allowed_order_by_columns, order_column, direction, page, query_text, build_query,
  select_from, time, text, flag,
}
use mcp_proxy.Cache.{join}
use mcp_proxy.Query.Texts.{
  placeholders, placeholders-append, all_placeholders, all_placeholders-append, placeholders-join,
}

-- The conditions have one placeholder for each argument.
record IsMatched (f : Filters) : Type 0 where
  matched : all_placeholders f.conditions ≡ length f.args

no_filters-IsMatched : IsMatched no_filters
unfolding no_filters
no_filters-IsMatched = record { matched = refl }

module _ (condition : String) (one : placeholders condition ≡ 1) (f : Filters)
    (m : IsMatched f) where
  add_filter-IsMatched : (arg : Arg) → IsMatched (add_filter condition arg f)
  unfolding add_filter
  add_filter-IsMatched arg = record {
    matched = omega (
      arith,
      one,
      m.matched,
      all_placeholders-append f.conditions (condition ∷ []),
      length-append f.args (arg ∷ []),
    );
  }

  add_text-IsMatched : (value : String) → IsMatched (add_text condition value f)
  unfolding add_text
  add_text-IsMatched value = elim (Bool-cases (not (value == ""))) [
    | inl given ↦ rw given (add_filter-IsMatched (text value))
    | inr empty ↦ rw empty m
  ]

  add_time-IsMatched : (t : Option ℕ) → IsMatched (add_time condition t f)
  unfolding add_time
  add_time-IsMatched none = m
  add_time-IsMatched (some t) = add_filter-IsMatched (time t)

  add_flag-IsMatched : (b : Option Bool) → IsMatched (add_flag condition b f)
  unfolding add_flag
  add_flag-IsMatched none = m
  add_flag-IsMatched (some b) = add_filter-IsMatched (flag b)

filters-IsMatched : (opts : QueryOptions) → IsMatched (filters opts)
unfolding filters placeholders
filters-IsMatched opts =
    let m1 =
      add_time-IsMatched "timestamp >= ?" refl no_filters no_filters-IsMatched opts.start_time in
    let m2 = add_time-IsMatched "timestamp <= ?" refl _ m1 opts.end_time in
    let m3 = add_text-IsMatched "agent_id = ?" refl _ m2 opts.agent_id in
    let m4 = add_text-IsMatched "session_id = ?" refl _ m3 opts.session_id in
    let m5 = add_text-IsMatched "method = ?" refl _ m4 opts.method in
    let m6 = add_text-IsMatched "tool = ?" refl _ m5 opts.tool in
    add_flag-IsMatched "allowed = ?" refl _ m6 opts.allowed

placeholders-where_clause :
    (cs : List String) → placeholders (where_clause cs) ≡ all_placeholders cs
unfolding where_clause placeholders
placeholders-where_clause [] = refl
placeholders-where_clause (c ∷ cs) = omega (
  arith,
  placeholders-append " WHERE " (join (c ∷ cs) " AND "),
  placeholders-join (c ∷ cs) " AND " refl,
)

abbrev AllPlain : Dict Bool → Type 0
AllPlain [] = Unit {0}
AllPlain ((k, b) ∷ d) = (placeholders k ≡ 0) × AllPlain d

lookup-AllPlain :
    (d : Dict Bool) (k : String) (b : Bool) → AllPlain d → lookup k d ≡ some b → placeholders k ≡ 0
unfolding lookup
lookup-AllPlain [] k b plain h = absurd (ground arith)
lookup-AllPlain ((j, c) ∷ d) k b plain h = elim (Bool-cases (j == k)) [
  | inl same ↦ ap placeholders (sym ((eq_iff j k).0 same)) ∙ plain.0
  | inr other ↦ lookup-AllPlain d k b plain.1 (rw other at h)
]

columns-AllPlain : AllPlain allowed_order_by_columns
unfolding allowed_order_by_columns placeholders
columns-AllPlain = (refl, (refl, (refl, (refl, (refl, (refl, (refl, (refl, (refl, tt)))))))))

some_injective : {A : Type 0} (a b : A) → some a ≡ some b → a ≡ b
some_injective a b e = ap (λ o. elim o [ none ↦ a | some x ↦ x ]) e

none-some : {A : Type 0} (a : A) → none ≡ some a → ⊥
none-some a e = ground arith

order_column_plain :
    (order_by column : String) → order_column order_by ≡ some column → placeholders column ≡ 0
unfolding order_column placeholders
order_column_plain order_by column h = elim (Bool-cases (order_by == "")) [
  | inl unset ↦ ap placeholders (some_injective column "timestamp" (sym h ∙ rw unset))
  | inr given ↦ elim (Option-cases (lookup order_by allowed_order_by_columns)) [
    | inl missing ↦ absurd (none-some column (sym (rw (given, missing)) ∙ h))
    | inr (false, refused) ↦ absurd (none-some column (sym (rw (given, refused)) ∙ h))
    | inr (true, there) ↦
        ap placeholders (some_injective column order_by (sym h ∙ rw (given, there)))
        ∙ lookup-AllPlain allowed_order_by_columns order_by true columns-AllPlain there
  ]
]

direction_plain : (desc : Bool) → placeholders (direction desc) ≡ 0
unfolding direction placeholders
direction_plain true = refl
direction_plain false = refl

page_plain :
    (decimal : ℤ → String) (word : String) (n : ℤ)
    → placeholders word ≡ 0
    → placeholders (decimal n) ≡ 0
    → placeholders (page decimal word n) ≡ 0
unfolding page placeholders
page_plain decimal word n h k = elim (Bool-cases (ltb_ℤ (pos 0) n)) [
  | inl shown ↦ rw shown (omega (arith, placeholders-append word (decimal n), h, k))
  | inr left_out ↦ rw left_out refl
]

placeholders-query_text :
    (decimal : ℤ → String) (opts : QueryOptions) (column : String)
    → ((n : ℤ) → placeholders (decimal n) ≡ 0)
    → placeholders column ≡ 0
    → placeholders (query_text decimal opts column) ≡ length (filters opts).args
unfolding query_text placeholders
placeholders-query_text decimal opts column plain h =
    let limit = page decimal " LIMIT " opts.limit in
    let offset = page decimal " OFFSET " opts.offset in
    let way = direction opts.order_desc in
    let conditions = where_clause (filters opts).conditions in
    omega (
      arith,
      placeholders-append select_from
          (conditions ++ˢ " ORDER BY " ++ˢ column ++ˢ " " ++ˢ way ++ˢ limit ++ˢ offset),
      placeholders-append conditions (" ORDER BY " ++ˢ column ++ˢ " " ++ˢ way ++ˢ limit ++ˢ offset),
      placeholders-append " ORDER BY " (column ++ˢ " " ++ˢ way ++ˢ limit ++ˢ offset),
      placeholders-append column (" " ++ˢ way ++ˢ limit ++ˢ offset),
      placeholders-append " " (way ++ˢ limit ++ˢ offset),
      placeholders-append way (limit ++ˢ offset),
      placeholders-append limit offset,
      placeholders-where_clause (filters opts).conditions,
      (filters-IsMatched opts).matched,
      direction_plain opts.order_desc,
      page_plain decimal " LIMIT " opts.limit refl (plain opts.limit),
      page_plain decimal " OFFSET " opts.offset refl (plain opts.offset),
      h,
    )

-- If printed numbers have no `?`, then a query that is built has as many placeholders as there are arguments for them.
pub build_query-placeholders :
    (decimal : ℤ → String) (opts : QueryOptions) (query : String) (args : List Arg)
    → ((n : ℤ) → placeholders (decimal n) ≡ 0)
    → build_query decimal opts ≡ some (query, args)
    → placeholders query ≡ length args
unfolding build_query
build_query-placeholders decimal opts query args plain h =
    elim (Option-cases (order_column opts.order_by)) [
      | inl refused ↦ absurd (none-some (query, args) (sym (rw (build_query, refused)) ∙ h))
      | inr (column, allowed) ↦
          let same : (query, args) ≡ (query_text decimal opts column, (filters opts).args) =
            some_injective _ _ (sym h ∙ rw (build_query, allowed)) in
          ap (λ q. placeholders q.0) same
          ∙ placeholders-query_text decimal opts column plain
              (order_column_plain opts.order_by column allowed)
          ∙ ap (λ q. length q.1) (sym same)
    ]
