-- ===== src/Catalog/Publish/Single.antt =====
-- A publication by src/nexusmcp/modules/catalog/publish.py keeps one published version of a tool.
use nexus_mcp.Base.{ℕ, String, true, Option, ◌≡◌, refl, sym, ◌∙◌, subst, arith, inl, inr, ◌⊎◌, ◌+◌}
use nexus_mcp.Dict.{Dict}
use nexus_mcp.Dict.Keyed.{Keyed, put-Keyed, index-values}
use nexus_mcp.Json.{Value}
use nexus_mcp.Result.{ok, err, Result-cases}
use nexus_mcp.Errors.{Exc}
use nexus_mcp.Action.Rules.{Keeps}
use nexus_mcp.Store.{Ports}
use nexus_mcp.Connectors.Store.{clone_bindings, binding_of_version}
use nexus_mcp.Registry.{clone_upstreams}
use nexus_mcp.Catalog.{ToolVersion, is_published}
use nexus_mcp.Catalog.Store.{id_of_tool, id_of_version, publishes}
use nexus_mcp.Catalog.Publish.{
  Snapshot, retire_current_version, CatalogStores, CatalogWorld, PublishToolCommand,
  PublishToolResult, publish_tool, publish_tool_in_transaction, clone_stores, in_transaction,
}
use nexus_mcp.Catalog.Publish.Steps.{
  Retired, Written, transaction-Steps, retire_current_version-cases, validated, Publishable,
}
use nexus_mcp.Catalog.Publish.Writes.{
  retired_version, published_version_of, published_binding, disabled_binding, active_tool,
}
use nexus_mcp.Catalog.Versions.{
  Single, Unpublished, put-Single_hidden, put-Single_first, put-Unpublished, published_version-none,
}

-- Everything stands under its identifier, and no tool has two published versions.
pub record Inv (d : CatalogStores) : Type 0 where
  pub tools : Keyed id_of_tool d.tools
  pub versions : Keyed id_of_version d.versions
  pub bindings : Keyed nexus_mcp.Connectors.Store.id_of d.bindings
  pub upstreams : Keyed nexus_mcp.Registry.id_of d.upstreams
  pub single : Single d.versions

clone_bindings-ok :
    (d e : CatalogStores)
    → Inv d
    → (b : Dict nexus_mcp.Connectors.ToolBinding) → clone_bindings d.bindings ≡ ok b
    → d.bindings ≡ b
unfolding clone_bindings
clone_bindings-ok d e v b h =
    sym (index-values nexus_mcp.Connectors.Store.id_of d.bindings v.bindings) ∙ ground arith

-- A copy that is made is the same.
pub clone_stores-ok : (d e : CatalogStores) → Inv d → clone_stores d ≡ ok e → d ≡ e
unfolding clone_stores clone_upstreams
clone_stores-ok d e v h =
    let t = index-values id_of_tool d.tools v.tools in
    let n = index-values id_of_version d.versions v.versions in
    let u = index-values nexus_mcp.Registry.id_of d.upstreams v.upstreams in
    elim (Result-cases (clone_bindings d.bindings)) [
      | inr (x, q) ↦ ground arith
      | inl (b, q) ↦ let same = clone_bindings-ok d e v b q in ground arith
    ]

module _ (sha256_json : Value → String) (tenant_id : String) (target : ToolVersion)
    (tool : nexus_mcp.Catalog.Tool) (at : ℕ) (d e : CatalogStores) (v : Inv d) where
  -- After the retirement no version of the tool is published.
  after_retiring-Inv :
      (current : ToolVersion) (b : nexus_mcp.Connectors.ToolBinding)
      → publishes tenant_id tool.id current ≡ true
      → Retired sha256_json tenant_id target at d e current b
      → Inv e × Unpublished tenant_id tool.id e.versions
  after_retiring-Inv current b p r =
      let old = retired_version current at in
      (
        record {
          tools = subst (Keyed id_of_tool) (sym r.tools) v.tools;
          versions =
              subst (Keyed id_of_version) (sym r.versions)
                (put-Keyed id_of_version old d.versions v.versions);
          bindings = subst (Keyed nexus_mcp.Connectors.Store.id_of) (sym r.bindings) (
              put-Keyed nexus_mcp.Connectors.Store.id_of (disabled_binding b) d.bindings
                v.bindings);
          upstreams = subst (Keyed nexus_mcp.Registry.id_of) (sym r.upstreams) v.upstreams;
          single =
              subst Single (sym r.versions)
                (put-Single_hidden current.id old d.versions refl v.single);
        },
        subst (Unpublished tenant_id tool.id) (sym r.versions)
            (put-Unpublished tenant_id tool.id current old d.versions v.single r.locked p refl),
      )

  retiring-Inv :
      (o : Option String)
      → retire_current_version sha256_json tenant_id tool target at d ≡ ok (o, e)
      → Inv e × Unpublished tenant_id tool.id e.versions
  retiring-Inv o h =
      elim (retire_current_version-cases sha256_json tenant_id tool target at d e o v.versions h) [
        | inl (n, _, same) ↦
            subst (λ x. Inv x × Unpublished tenant_id tool.id x.versions) (sym same)
              (v, published_version-none tenant_id tool.id d.versions n)
        | inr (current, b, p, _, r) ↦ after_retiring-Inv current b p r
      ]

module _ (sha256_json : Value → String) (c : PublishToolCommand) (at : ℕ) where
  written-Inv :
      (d e : CatalogStores) (s : Snapshot)
      → Inv d
      → Publishable sha256_json c s
      → Unpublished c.context.tenant_id s.tool.id d.versions
      → Written sha256_json s at d e
      → Inv e
  written-Inv d e s v p n w = record {
    tools =
        subst (Keyed id_of_tool) (sym w.tools)
          (put-Keyed id_of_tool (active_tool s.tool) d.tools v.tools);
    versions =
        subst (Keyed id_of_version) (sym w.versions)
          (put-Keyed id_of_version (published_version_of s.version at) d.versions v.versions);
    bindings = subst (Keyed nexus_mcp.Connectors.Store.id_of) (sym w.bindings) (
        put-Keyed nexus_mcp.Connectors.Store.id_of (published_binding s.binding at) d.bindings
          v.bindings);
    upstreams = subst (Keyed nexus_mcp.Registry.id_of) (sym w.upstreams) v.upstreams;
    single = subst Single (sym w.versions) (
        put-Single_first s.version.id (published_version_of s.version at) d.versions
          (subst (λ t. Unpublished t s.version.tool_id d.versions) (sym p.tenant)
            (subst (λ t. Unpublished c.context.tenant_id t d.versions) (sym p.of_tool) n))
          v.single);
  }

  pub transaction-Inv :
      (d e : CatalogStores) (r : PublishToolResult)
      → Inv d
      → publish_tool_in_transaction sha256_json c at d ≡ ok (r, e)
      → Inv e
  transaction-Inv d e r v h =
      let x = transaction-Steps sha256_json c at d e r h in
      let (i, n) =
        retiring-Inv sha256_json c.context.tenant_id x.snapshot.version x.snapshot.tool at d x.kept
          v r.retired_tool_version_id x.retiring in
      written-Inv x.kept e x.snapshot i (validated sha256_json c x.snapshot x.located.valid) n
        x.written

abbrev pub Sound : CatalogWorld → Type 0
Sound w = Inv w.stores

module _ (ports : Ports) (sha256_json : Value → String) where
  -- The publication, made in one transaction, with what a return and a raise leave.
  pub publish_tool-cases :
      (c : PublishToolCommand) (w : CatalogWorld)
      → Sound w
      → ((r : PublishToolResult) × (e : CatalogStores) × (publish_tool_in_transaction sha256_json c
              (ports.times w.ticks)
              w.stores
            ≡ ok (r, e))
          × (publish_tool ports sha256_json c w
              ≡ (ok r, record { stores = e; ticks = w.ticks + 1 })))
        ⊎ ((x : Exc) × (publish_tool ports sha256_json c w
              ≡ (err x, record { stores = w.stores; ticks = w.ticks + 1 })))
  unfolding publish_tool in_transaction
  publish_tool-cases c w v = elim (Result-cases (clone_stores w.stores)) [
    | inr (x, q) ↦ inr (x, rw q refl)
    | inl (d, q) ↦
        let same = clone_stores-ok w.stores d v q in
        elim (Result-cases
          (publish_tool_in_transaction sha256_json c (ports.times w.ticks) w.stores)) [
            | inr (x, p) ↦ inr (x, rw (q, sym same, p) refl)
            | inl ((r, e), p) ↦ inl (r, e, p, rw (q, sym same, p) refl)
          ]
  ]

  pub publish_tool-Sound : (c : PublishToolCommand) → Keeps Sound (publish_tool ports sha256_json c)
  publish_tool-Sound c = record {
    kept = λ w v. elim (publish_tool-cases c w v) [
      | inl (r, e, p, q) ↦
          rw q (transaction-Inv sha256_json c (ports.times w.ticks) w.stores e r v p)
      | inr (x, q) ↦ rw q v
    ];
  }
