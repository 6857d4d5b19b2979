-- ===== src/Catalog/Publish/Published.antt =====
-- What a publication by src/nexusmcp/modules/catalog/publish.py has changed when it returns, and
-- that it refuses what is not what the reviewer approved.
use nexus_mcp.Base.{
  ℕ, ◌<◌, ◌+◌, String, true, false, Option, some, ◌≡◌, ◌≢◌, ◌⊎◌, sym, ap, ◌∙◌, subst, arith, inl,
  inr, ◌==◌, Bool-cases,
}
use nexus_mcp.Dict.{Dict, get, put}
use nexus_mcp.Dict.Laws.{get-put, get-put_self}
use nexus_mcp.Dict.Keyed.{Keyed, Keyed-get, find-get}
use nexus_mcp.Json.{Value}
use nexus_mcp.Errors.{Exc}
use nexus_mcp.Result.{ok, err}
use nexus_mcp.Store.{Ports}
use nexus_mcp.Connectors.{ToolBinding, calculate_binding_digest, is_draft}
use nexus_mcp.Connectors.Store.{id_of, binding_of_version}
use nexus_mcp.Registry.{UpstreamService, is_active}
use nexus_mcp.Catalog.{Tool, ToolVersion, is_published, is_review}
use nexus_mcp.Catalog.Store.{id_of_tool, id_of_version}
use nexus_mcp.Catalog.Publish.{
  CatalogStores, CatalogWorld, PublishToolCommand, PublishToolResult, publish_tool,
  calculate_schema_digest,
}
use nexus_mcp.Catalog.Publish.Steps.{
  Steps, transaction-Steps, retire_current_version-cases, validated,
}
use nexus_mcp.Catalog.Publish.Writes.{
  retired_version, published_version_of, published_binding, active_tool,
}
use nexus_mcp.Catalog.Publish.Single.{Inv, publish_tool-cases}

-- Another version than the published one is as it was, or was the tool's published version of a
-- smaller number, and is retired now.
abbrev Left : Option String → ℕ → ToolVersion → CatalogStores → String → ToolVersion → Type 0
Left retired at target e k v =
    (get k e.versions ≡ some v)
    ⊎ ((retired ≡ some k)
        × (is_published v.status ≡ true)
        × (v.tool_id ≡ target.tool_id)
        × (v.version < target.version)
        × (get k e.versions ≡ some (retired_version v at)))

found_binding :
    (tenant_id version_id : String) (b : ToolBinding) (d : Dict ToolBinding)
    → Keyed id_of d
    → binding_of_version tenant_id version_id d ≡ some b
    → get b.id d ≡ some b
unfolding binding_of_version
found_binding tenant_id version_id b d k h = find-get id_of _ b d k h

module _ (sha256_json : Value → String) where
  pub record Published (c : PublishToolCommand) (at : ℕ) (d e : CatalogStores)
      (r : PublishToolResult) : Type 0 where
    tool : Tool
    version : ToolVersion
    binding : ToolBinding
    upstream : UpstreamService
    -- What was there: a reviewed version of the tool, whose schema and binding have the digests of
    -- the command.
    before : get c.tool_version_id d.versions ≡ some version
    reviewed : is_review version.status ≡ true
    of_tool : version.tool_id ≡ c.tool_id
    schema :
        calculate_schema_digest sha256_json version.input_schema version.output_schema
        ≡ c.expected_schema_digest
    config : calculate_binding_digest sha256_json binding ≡ c.expected_binding_digest
    -- The binding is a draft of this version, of the tenant, and was stored.
    its_version : binding.tool_version_id ≡ c.tool_version_id
    its_tenant : binding.tenant_id ≡ c.context.tenant_id
    drafted : is_draft binding.status ≡ true
    bound_before : get binding.id d.bindings ≡ some binding
    running : is_active upstream.status ≡ true
    -- What is there now.
    after : get c.tool_version_id e.versions ≡ some (published_version_of version at)
    bound : get binding.id e.bindings ≡ some (published_binding binding at)
    served : get binding.upstream_service_id e.upstreams ≡ some upstream
    activated : get c.tool_id e.tools ≡ some (active_tool tool)
    others :
        (k : String) (v : ToolVersion)
        → get k d.versions ≡ some v
        → k ≢ c.tool_version_id
        → Left r.retired_tool_version_id at version e k v

  module _ (c : PublishToolCommand) (at : ℕ) (d e : CatalogStores) (r : PublishToolResult)
      (i : Inv d) (x : Steps sha256_json c at d e r) where
    same_id : c.tool_version_id ≡ x.snapshot.version.id
    same_id =
        Keyed-get id_of_version c.tool_version_id x.snapshot.version d.versions i.versions
          x.located.version

    same_tool : c.tool_id ≡ x.snapshot.tool.id
    same_tool = Keyed-get id_of_tool c.tool_id x.snapshot.tool d.tools i.tools x.located.tool

    get-written :
        (k : String)
        → get k e.versions
          ≡ get k (
              put x.snapshot.version.id
                (published_version_of x.snapshot.version at)
                x.kept.versions)
    get-written k = ap (get k) x.written.versions

    others-Left :
        (k : String) (v : ToolVersion)
        → get k d.versions ≡ some v
        → k ≢ c.tool_version_id
        → Left r.retired_tool_version_id at x.snapshot.version e k v
    others-Left k v p n =
        let new = published_version_of x.snapshot.version at in
        let now = get-written k ∙ get-put x.snapshot.version.id k new x.kept.versions in
        let id = same_id in
        let p' = validated sha256_json c x.snapshot x.located.valid in
        elim (retire_current_version-cases sha256_json c.context.tenant_id x.snapshot.tool
          x.snapshot.version at d x.kept r.retired_tool_version_id i.versions x.retiring) [
            | inl (_, _, same) ↦ inl (ground (arith, ap (λ s. get k s.versions) same))
            | inr (current, b, chosen, o, old) ↦
                let was =
                  ap (get k) old.versions
                  ∙ get-put current.id k (retired_version current at) d.versions in
                elim (Bool-cases (current.id == k)) [
                  | inl here ↦
                      let same : current ≡ v = ground (arith, old.locked) in
                      subst (Left r.retired_tool_version_id at x.snapshot.version e k) same (
                        inr (
                          ground arith,
                          ground arith,
                          ground (arith, p'.of_tool),
                          old.older,
                          ground arith,
                        ))
                  | inr there ↦ inl (ground arith)
                ]
          ]

    same_upstreams : e.upstreams ≡ d.upstreams
    same_upstreams =
        elim (retire_current_version-cases sha256_json c.context.tenant_id x.snapshot.tool
          x.snapshot.version at d x.kept r.retired_tool_version_id i.versions x.retiring) [
            | inl (_, _, same) ↦ x.written.upstreams ∙ ap (λ s. s.upstreams) same
            | inr (current, b, chosen, o, old) ↦ x.written.upstreams ∙ old.upstreams
          ]

    steps-Published : Published c at d e r
    steps-Published =
        let s = x.snapshot in
        let p = validated sha256_json c s x.located.valid in
        let new = published_version_of s.version at in
        record {
          tool = s.tool;
          version = s.version;
          binding = s.binding;
          upstream = s.upstream;
          before = x.located.version;
          reviewed = p.reviewed;
          of_tool = p.of_tool ∙ sym same_tool;
          schema = p.schema;
          config = p.config;
          its_version = p.of_version ∙ sym same_id;
          its_tenant = p.binding_tenant;
          drafted = p.drafted;
          bound_before =
              found_binding c.context.tenant_id s.version.id s.binding d.bindings i.bindings
                x.located.binding;
          running = p.running;
          after =
              get-written c.tool_version_id
              ∙ ap (λ k. get k (put s.version.id new x.kept.versions)) same_id
              ∙ get-put_self s.version.id new x.kept.versions;
          bound =
              ap (get s.binding.id) x.written.bindings
              ∙ get-put_self s.binding.id (published_binding s.binding at) x.kept.bindings;
          served = ap (get s.binding.upstream_service_id) same_upstreams ∙ x.located.upstream;
          activated =
              ap (get c.tool_id) x.written.tools
              ∙ ap (λ k. get k (put s.tool.id (active_tool s.tool) x.kept.tools)) same_tool
              ∙ get-put_self s.tool.id (active_tool s.tool) x.kept.tools;
          others = others-Left;
        }

module _ (ports : Ports) (sha256_json : Value → String) where
  -- Where everything committed stands under its identifier and no tool has two published versions,
  -- a publication that returns found a reviewed version of the tool, a stored draft binding of this
  -- very version and of the tenant, and a running upstream; the schema and the binding have the
  -- digests that the command expects. Afterwards this version and this binding are published at the
  -- time of the clock, and the tool is active; every other version is as it was, but for at most
  -- one, the result's, which was the tool's published one, has a smaller number and is retired now.
  pub publish_tool-Published :
      (c : PublishToolCommand) (w w' : CatalogWorld) (r : PublishToolResult)
      → Inv w.stores
      → publish_tool ports sha256_json c w ≡ (ok r, w')
      → Published sha256_json c (ports.times w.ticks) w.stores w'.stores r
  publish_tool-Published c w w' r i h = elim (publish_tool-cases ports sha256_json c w i) [
    | inl (r', e, p, q) ↦
        let at = ports.times w.ticks in
        let both = sym q ∙ h in
        let same : r' ≡ r = ground arith in
        subst (λ s. Published sha256_json c at w.stores s r) (ap (λ o. o.1.stores) both)
          (subst (Published sha256_json c at w.stores e) same (
            steps-Published sha256_json c at w.stores e r' i
              (transaction-Steps sha256_json c at w.stores e r' p)))
    | inr (x, q) ↦ ground arith
  ]

  -- A publication raises, and leaves all that is committed as it was, where the stored version is
  -- not under review or its schema does not have the digest that the command expects.
  pub publish_tool_unapproved :
      (c : PublishToolCommand) (w : CatalogWorld) (v : ToolVersion)
      → Inv w.stores
      → get c.tool_version_id w.stores.versions ≡ some v
      → (is_review v.status ≡ false)
        ⊎ (calculate_schema_digest sha256_json v.input_schema v.output_schema
            ≢ c.expected_schema_digest)
      → (x : Exc) × (publish_tool ports sha256_json c w
          ≡ (err x, record { stores = w.stores; ticks = w.ticks + 1 }))
  publish_tool_unapproved c w v i p n = elim (publish_tool-cases ports sha256_json c w i) [
    | inr (x, q) ↦ (x, q)
    | inl (r, e, s, q) ↦
        let at = ports.times w.ticks in
        let done =
          steps-Published sha256_json c at w.stores e r i
            (transaction-Steps sha256_json c at w.stores e r s) in
        let same : done.version ≡ v = ground (arith, done.before) in
        elim n [
          | inl m ↦ ground (arith, done.reviewed, ap (λ y. is_review y.status) same)
          | inr m ↦ ground (
            arith,
            m,
            ap (λ y. calculate_schema_digest sha256_json y.input_schema y.output_schema) (sym same)
                ∙ done.schema,
          )
        ]
  ]
