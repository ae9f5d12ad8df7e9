-- ===== src/Router/Details.antt =====
-- Which methods are enforced, and what the details of an accepted message are.
use mathlib.Core.Bool.{false≢true}
use mcp_proxy.Prelude.{
  ◌==◌, lookup, Bool-cases, String, arith, eq_iff, refl, true, false, ◌≡◌, ◌≢◌, ◌↔◌, ◌⊎◌, inl, inr,
  Option, some, none, ap, ◌∙◌, sym,
}
use mcp_proxy.Protocol.{
  MetaParams, method_registry, RequestContext, full_enforce, config_for, new_request_context_at,
  Request, ToolCallParams, ResourceReadParams,
}
use mcp_proxy.Parser.{
  Outcome, failed, check_tool_call, check_resource_read, parse_tool_call, parse_resource_read,
  Codec, done, ok, err, Result, extract_meta,
}
use mcp_proxy.Handlers.{Draws}
use mcp_proxy.Router.{extract_request_details, map_ok, tool_details, resource_details, with_meta}
use mcp_proxy.Router.Enforcement.{Accepted}

enforced_only :
    (method : String)
    → (config_for method).handler ≡ full_enforce
    → (method ≡ "tools/call") ⊎ (method ≡ "resources/read") ⊎ (method ≡ "resources/subscribe")
unfolding config_for lookup method_registry
enforced_only method h = ground (
  arith,
  eq_iff "tools/call" method,
  eq_iff "tools/list" method,
  eq_iff "resources/read" method,
  eq_iff "resources/list" method,
  eq_iff "resources/subscribe" method,
)

-- The methods that the policy is asked about are the tool call, the reading of a resource and the subscription to one, and no others.
pub config_for-full_enforce :
    (method : String)
    → ((config_for method).handler ≡ full_enforce)
      ↔ ((method ≡ "tools/call") ⊎ (method ≡ "resources/read") ⊎ (method ≡ "resources/subscribe"))
unfolding config_for lookup method_registry
config_for-full_enforce method = (
  enforced_only method,
  λ e. elim e [
    | inl call ↦ ap (λ m. (config_for m).handler) call
    | inr (inl read) ↦ ap (λ m. (config_for m).handler) read
    | inr (inr subscribe) ↦ ap (λ m. (config_for m).handler) subscribe
  ],
)

check_tool_call_named :
    (o : Outcome ToolCallParams) (p : ToolCallParams) → check_tool_call o ≡ ok p → p.name ≢ ""
unfolding check_tool_call
check_tool_call_named (done q) p e = ground (arith, eq_iff q.name "")
check_tool_call_named (failed t) p e = ground arith

parse_tool_call_named :
    (codec : Codec) (params : Option String) (p : ToolCallParams)
    → parse_tool_call codec params ≡ ok p
    → p.name ≢ ""
unfolding parse_tool_call
parse_tool_call_named codec none p e = ground arith
parse_tool_call_named codec (some t) p e = check_tool_call_named (codec.unmarshal_tool_call t) p e

check_resource_read_named :
    (o : Outcome ResourceReadParams) (p : ResourceReadParams)
    → check_resource_read o ≡ ok p
    → p.uri ≢ ""
unfolding check_resource_read
check_resource_read_named (done q) p e = ground (arith, eq_iff q.uri "")
check_resource_read_named (failed t) p e = ground arith

parse_resource_read_named :
    (codec : Codec) (params : Option String) (p : ResourceReadParams)
    → parse_resource_read codec params ≡ ok p
    → p.uri ≢ ""
unfolding parse_resource_read
parse_resource_read_named codec none p e = ground arith
parse_resource_read_named codec (some t) p e =
    check_resource_read_named (codec.unmarshal_resource_read t) p e

distinct : ◌≢◌ {A = String} "tools/call" "resources/read"
distinct e = false≢true ((eq_iff "tools/call" "resources/read").1 e)

-- What the details of a request may be: those of a tool call, of a resource, or none.
record Detailed (codec : Codec) (req : Request) (ctx detailed : RequestContext) : Type 0 where
  method_kept : detailed.method ≡ ctx.method
  config_kept : detailed.config ≡ ctx.config
  tool_named : req.method ≡ "tools/call" → detailed.tool ≢ ""
  resource_named : req.method ≡ "resources/read" → detailed.resource_uri ≢ ""

with_meta_keeps :
    (meta : Option MetaParams) (ctx : RequestContext)
    → (with_meta meta ctx).tool ≡ ctx.tool
      × ((with_meta meta ctx).resource_uri ≡ ctx.resource_uri)
      × ((with_meta meta ctx).method ≡ ctx.method)
      × ((with_meta meta ctx).config ≡ ctx.config)
unfolding with_meta
with_meta_keeps none ctx = (refl, refl, refl, refl)
with_meta_keeps (some m) ctx = (refl, refl, refl, refl)

ok_injective : {A : Type 0} (a b : A) → ok a ≡ ok b → a ≡ b
ok_injective a b e = ap (λ r. elim r [ ok x ↦ x | err _ ↦ a ]) e

map_ok-ok :
    {A B : Type 0} (f : A → B) (o : Result A) (b : B)
    → map_ok f o ≡ ok b
    → (a : A) × (o ≡ ok a) × (f a ≡ b)
unfolding map_ok
map_ok-ok f (ok a) b e = (a, refl, ok_injective (f a) b e)
map_ok-ok f (err x) b e = absurd (ground arith)

module _ (codec : Codec) (req : Request) (ctx detailed : RequestContext) where
  details_tool :
      (req.method == "tools/call") ≡ true
      → extract_request_details codec req ctx ≡ ok detailed
      → Detailed codec req ctx detailed
  unfolding extract_request_details tool_details
  details_tool is_call e =
      let (p, named, q) =
        map_ok-ok (tool_details ctx) (parse_tool_call codec req.params) detailed
          (sym (rw is_call) ∙ e) in
      let (tool_kept, _, method_kept, config_kept) =
        with_meta_keeps p.meta (record ctx { tool = p.name; arguments = p.arguments }) in
      let is_tool = (eq_iff req.method "tools/call").0 is_call in
      record {
        method_kept = ap (λ c. c.method) (sym q) ∙ method_kept;
        config_kept = ap (λ c. c.config) (sym q) ∙ config_kept;
        tool_named = λ _ empty.
            parse_tool_call_named codec req.params p named
              (sym (ap (λ c. c.tool) (sym q) ∙ tool_kept) ∙ empty);
        resource_named = λ is_read. absurd (distinct (sym is_tool ∙ is_read));
      }

  details_resource :
      (req.method == "tools/call") ≡ false
      → (req.method == "resources/read") ≡ true
      → extract_request_details codec req ctx ≡ ok detailed
      → Detailed codec req ctx detailed
  unfolding extract_request_details resource_details
  details_resource no_call is_read e =
      let (p, named, q) =
        map_ok-ok (resource_details ctx) (parse_resource_read codec req.params) detailed
          (sym (rw (no_call, is_read)) ∙ e) in
      let (_, uri_kept, method_kept, config_kept) =
        with_meta_keeps p.meta (record ctx { resource_uri = p.uri }) in
      let is_resource = (eq_iff req.method "resources/read").0 is_read in
      record {
        method_kept = ap (λ c. c.method) (sym q) ∙ method_kept;
        config_kept = ap (λ c. c.config) (sym q) ∙ config_kept;
        tool_named = λ is_call. absurd (distinct (sym is_call ∙ is_resource));
        resource_named = λ _ empty.
            parse_resource_read_named codec req.params p named
              (sym (ap (λ c. c.resource_uri) (sym q) ∙ uri_kept) ∙ empty);
      }

  details_plain :
      (req.method == "tools/call") ≡ false
      → (req.method == "resources/read") ≡ false
      → extract_request_details codec req ctx ≡ ok detailed
      → Detailed codec req ctx detailed
  unfolding extract_request_details
  details_plain no_call no_read e =
      let q = ok_injective ctx detailed (sym (rw (no_call, no_read)) ∙ e) in
      record {
        method_kept = ap (λ c. c.method) (sym q);
        config_kept = ap (λ c. c.config) (sym q);
        tool_named = λ is_call. ground (arith, eq_iff req.method "tools/call");
        resource_named = λ is_read. ground (arith, eq_iff req.method "resources/read");
      }

  details_of : extract_request_details codec req ctx ≡ ok detailed → Detailed codec req ctx detailed
  details_of e = elim (Bool-cases (req.method == "tools/call")) [
    | inl is_call ↦ details_tool is_call e
    | inr no_call ↦ elim (Bool-cases (req.method == "resources/read")) [
      | inl is_read ↦ details_resource no_call is_read e
      | inr no_read ↦ details_plain no_call no_read e
    ]
  ]

-- A valid message has the configuration of its method; as a tool call it names a tool, and as the reading of a resource it names a URI.
pub Accepted-details :
    (codec : Codec) (draws : Draws) (message : String) (ctx : RequestContext)
    → Accepted codec draws message ctx
    → (ctx.config ≡ config_for ctx.method)
      × ((ctx.method ≡ "tools/call" → ctx.tool ≢ "")
          × (ctx.method ≡ "resources/read" → ctx.resource_uri ≢ ""))
unfolding new_request_context_at
Accepted-details codec draws message ctx a =
    let d =
      details_of codec a.req (new_request_context_at draws.hex a.req draws.start) a.detailed
        a.details in
    let (tool_kept, uri_kept, method_kept, config_kept) =
      with_meta_keeps (extract_meta codec a.req.params) a.detailed in
    let c = a.context in
    let is_method : ctx.method ≡ a.req.method =
      ap (λ x. x.method) (sym c) ∙ method_kept ∙ d.method_kept in
    (
      ap (λ x. x.config) (sym c) ∙ config_kept ∙ d.config_kept ∙ ap config_for (sym is_method),
      (
        (λ is_call empty.
            d.tool_named (sym is_method ∙ is_call) (sym tool_kept ∙ ap (λ x. x.tool) c ∙ empty)),
        (λ is_read empty.
            d.resource_named (sym is_method ∙ is_read)
              (sym uri_kept ∙ ap (λ x. x.resource_uri) c ∙ empty)),
      ),
    )
