-- ===== src/Catalog/Publish/Steps.antt =====
-- What the steps of `publish_tool_in_transaction` of src/nexusmcp/modules/catalog/publish.py have
-- established where they return.
use nexus_mcp.Base.{
  ℕ, ◌<◌, String, true, Option, none, some, ◌≡◌, ◌⊎◌, sym, ap, ◌∙◌, arith, inl, inr, Option-cases,
}
use nexus_mcp.Dict.{Dict, get, put}
use nexus_mcp.Dict.Keyed.{Keyed}
use nexus_mcp.Json.{Value}
use nexus_mcp.Result.{ok, Result-cases}
use nexus_mcp.Connectors.{ToolBinding, ToolBindingStatus, new_binding, calculate_binding_digest}
use nexus_mcp.Connectors.Store.{save_binding, binding_of_version}
use nexus_mcp.Registry.{is_active}
use nexus_mcp.Catalog.{Tool, ToolVersion, activate, retire, publish, is_review}
use nexus_mcp.Catalog.Store.{published_version, save_tool, save_version, publishes, id_of_version}
use nexus_mcp.Catalog.Publish.{
  CatalogStores, PublishToolCommand, Snapshot, read_snapshot, validate_publish_snapshot,
  publish_tool_in_transaction, PublishToolResult, retire_version, retire_current_version,
  write_snapshot, calculate_schema_digest,
}
use nexus_mcp.Catalog.Versions.{publish-ok, retire-ok, save_version-ok, published_version-stored}
use nexus_mcp.Catalog.Publish.Writes.{
  publish_binding-ok, disable_binding-ok, save_binding-ok, activate-ok, save_tool-ok,
  retired_version, published_version_of, published_binding, disabled_binding, active_tool,
}

module _ (sha256_json : Value → String) where
  -- The conditions of a publication.
  pub record Publishable (c : PublishToolCommand) (s : Snapshot) : Type 0 where
    pub tenant : s.version.tenant_id ≡ c.context.tenant_id
    pub of_tool : s.version.tool_id ≡ s.tool.id
    pub of_version : s.binding.tool_version_id ≡ s.version.id
    pub binding_tenant : s.binding.tenant_id ≡ c.context.tenant_id
    pub reviewed : is_review s.version.status ≡ true
    pub drafted : nexus_mcp.Connectors.is_draft s.binding.status ≡ true
    pub running : is_active s.upstream.status ≡ true
    pub schema :
        calculate_schema_digest sha256_json s.version.input_schema s.version.output_schema
        ≡ c.expected_schema_digest
    pub config : calculate_binding_digest sha256_json s.binding ≡ c.expected_binding_digest

  pub validated :
      (c : PublishToolCommand) (s : Snapshot)
      → validate_publish_snapshot sha256_json c s ≡ ok tt
      → Publishable c s
  unfolding validate_publish_snapshot
  validated c s h = record {
    tenant = ground arith;
    of_tool = ground arith;
    of_version = ground arith;
    binding_tenant = ground arith;
    reviewed = ground arith;
    drafted = ground arith;
    running = ground arith;
    schema = ground arith;
    config = ground arith;
  }

  -- Where the four aggregates stand.
  pub record Located (c : PublishToolCommand) (d : CatalogStores) (s : Snapshot) : Type 0 where
    pub tool : get c.tool_id d.tools ≡ some s.tool
    pub version : get c.tool_version_id d.versions ≡ some s.version
    pub binding : binding_of_version c.context.tenant_id s.version.id d.bindings ≡ some s.binding
    pub upstream : get s.binding.upstream_service_id d.upstreams ≡ some s.upstream
    pub valid : validate_publish_snapshot sha256_json c s ≡ ok tt

  pub read_snapshot-Located :
      (c : PublishToolCommand) (d : CatalogStores) (s : Snapshot)
      → read_snapshot sha256_json c d ≡ ok s
      → Located c d s
  unfolding read_snapshot
  read_snapshot-Located c d s h = record {
    tool = ground arith;
    version = ground arith;
    binding = ground arith;
    upstream = ground arith;
    valid = ground arith;
  }

  -- What the retirement of the current version has done, if there was one.
  pub record Retired (tenant_id : String) (target : ToolVersion) (at : ℕ) (d e : CatalogStores)
      (current : ToolVersion) (b : ToolBinding) : Type 0 where
    pub older : current.version < target.version
    pub locked : get current.id d.versions ≡ some current
    pub binding : binding_of_version tenant_id current.id d.bindings ≡ some b
    pub versions : e.versions ≡ put current.id (retired_version current at) d.versions
    pub bindings : e.bindings ≡ put b.id (disabled_binding b) d.bindings
    pub tools : e.tools ≡ d.tools
    pub upstreams : e.upstreams ≡ d.upstreams

  -- The last writes of the retirement, of results that are known.
  retire_writes :
      (tenant_id : String) (current target : ToolVersion) (b disabled : ToolBinding) (at : ℕ)
      (d e : CatalogStores) (retired : ToolVersion) (versions : Dict ToolVersion)
      (bindings : Dict ToolBinding) (o : Option String)
      → get current.id d.versions ≡ some current
      → binding_of_version tenant_id current.id d.bindings ≡ some b
      → retire current at ≡ ok retired
      → save_version tenant_id retired d.versions ≡ ok versions
      → nexus_mcp.Connectors.disable b ≡ ok disabled
      → save_binding tenant_id disabled d.bindings ≡ ok bindings
      → retire_version sha256_json tenant_id current target at d ≡ ok (o, e)
      → (o ≡ some current.id)
        × (current.version < target.version)
        × (record d { versions = versions; bindings = bindings } ≡ e)
  unfolding retire_version
  retire_writes tenant_id current target b disabled at d e retired versions bindings o p q r s t u
        h =
      (ground arith, ground arith, ground arith)

  retire_version-Retired :
      (tenant_id : String) (current target : ToolVersion) (at : ℕ) (d e : CatalogStores)
      (o : Option String)
      → get current.id d.versions ≡ some current
      → retire_version sha256_json tenant_id current target at d ≡ ok (o, e)
      → (o ≡ some current.id) × ((b : ToolBinding) × Retired tenant_id target at d e current b)
  unfolding retire_version
  retire_version-Retired tenant_id current target at d e o p h =
      elim (Option-cases (binding_of_version tenant_id current.id d.bindings)) [
        | inl n ↦ ground arith
        | inr (b, q) ↦ elim (Result-cases (retire current at)) [
          | inr (x, n) ↦ ground arith
          | inl (retired, r) ↦ elim (Result-cases (save_version tenant_id retired d.versions)) [
            | inr (x, n) ↦ ground arith
            | inl (versions, s) ↦ elim (Result-cases (nexus_mcp.Connectors.disable b)) [
              | inr (x, n) ↦ ground arith
              | inl (disabled, u) ↦
                  elim (Result-cases (save_binding tenant_id disabled d.bindings)) [
                    | inr (x, n) ↦ ground arith
                    | inl (bindings, v) ↦
                        let (same, older, result) =
                          retire_writes tenant_id current target b disabled at d e retired versions
                            bindings o p q r s u v h in
                        (
                          same,
                          (
                            b,
                            record {
                              older = older;
                              locked = p;
                              binding = q;
                              versions =
                                  ap (λ x. x.versions) (sym result)
                                  ∙ sym (save_version-ok tenant_id retired d.versions versions s)
                                  ∙ ap (λ x. put x.id x d.versions)
                                      (sym (retire-ok current retired at r));
                              bindings =
                                  ap (λ x. x.bindings) (sym result)
                                  ∙ sym (save_binding-ok tenant_id disabled d.bindings bindings v)
                                  ∙ ap (λ x. put x.id x d.bindings)
                                      (sym (disable_binding-ok b disabled u));
                              tools = ap (λ x. x.tools) (sym result);
                              upstreams = ap (λ x. x.upstreams) (sym result);
                            },
                          ),
                        )
                  ]
            ]
          ]
        ]
      ]

  -- What the writes that end the publication have done.
  pub record Written (s : Snapshot) (at : ℕ) (d e : CatalogStores) : Type 0 where
    pub versions : e.versions ≡ put s.version.id (published_version_of s.version at) d.versions
    pub bindings : e.bindings ≡ put s.binding.id (published_binding s.binding at) d.bindings
    pub tools : e.tools ≡ put s.tool.id (active_tool s.tool) d.tools
    pub upstreams : e.upstreams ≡ d.upstreams

  pub write_snapshot-Written :
      (tenant_id : String) (s : Snapshot) (at : ℕ) (d e : CatalogStores)
      → write_snapshot sha256_json tenant_id s at d ≡ ok e
      → Written s at d e
  unfolding write_snapshot
  write_snapshot-Written tenant_id s at d e h = elim (Result-cases (publish s.version at)) [
    | inr (x, n) ↦ ground arith
    | inl (version, p) ↦ elim (Result-cases (save_version tenant_id version d.versions)) [
      | inr (x, n) ↦ ground arith
      | inl (versions, q) ↦ elim (Result-cases (nexus_mcp.Connectors.publish s.binding at)) [
        | inr (x, n) ↦ ground arith
        | inl (binding, r) ↦ elim (Result-cases (save_binding tenant_id binding d.bindings)) [
          | inr (x, n) ↦ ground arith
          | inl (bindings, u) ↦ elim (Result-cases (activate s.tool)) [
            | inr (x, n) ↦ ground arith
            | inl (tool, v) ↦ elim (Result-cases (save_tool tenant_id tool d.tools)) [
              | inr (x, n) ↦ ground arith
              | inl (tools, w) ↦
                  let e_versions : e.versions ≡ versions = ground arith in
                  let e_bindings : e.bindings ≡ bindings = ground arith in
                  let e_tools : e.tools ≡ tools = ground arith in
                  record {
                    versions =
                        e_versions
                        ∙ sym (save_version-ok tenant_id version d.versions versions q)
                        ∙ ap (λ x. put x.id x d.versions) (sym (publish-ok s.version version at p));
                    bindings =
                        e_bindings
                        ∙ sym (save_binding-ok tenant_id binding d.bindings bindings u)
                        ∙ ap (λ x. put x.id x d.bindings)
                            (sym (publish_binding-ok s.binding binding at r));
                    tools =
                        e_tools
                        ∙ sym (save_tool-ok tenant_id tool d.tools tools w)
                        ∙ ap (λ x. put x.id x d.tools) (sym (activate-ok s.tool tool v));
                    upstreams = ground arith;
                  }
            ]
          ]
        ]
      ]
    ]
  ]

  -- The two ways of the retirement: no version was published, or the published one was replaced.
  pub retire_current_version-cases :
      (tenant_id : String) (tool : Tool) (target : ToolVersion) (at : ℕ) (d e : CatalogStores)
      (o : Option String)
      → Keyed id_of_version d.versions
      → retire_current_version sha256_json tenant_id tool target at d ≡ ok (o, e)
      → ((published_version tenant_id tool.id d.versions ≡ none) × (o ≡ none) × (e ≡ d))
        ⊎ ((current : ToolVersion) × (b : ToolBinding) × (publishes tenant_id tool.id current
              ≡ true)
            × (o ≡ some current.id)
            × Retired tenant_id target at d e current b)
  unfolding retire_current_version
  retire_current_version-cases tenant_id tool target at d e o k h =
      elim (Option-cases (published_version tenant_id tool.id d.versions)) [
        | inl n ↦ inl (n, ground arith, ground arith)
        | inr (current, p) ↦
            let (stored, chosen) =
              published_version-stored tenant_id tool.id current d.versions k p in
            let (same, (b, r)) =
              retire_version-Retired tenant_id current target at d e o stored (ground arith) in
            inr (current, b, chosen, same, r)
      ]

  -- The three steps of a publication, with the state between them.
  pub record Steps (c : PublishToolCommand) (at : ℕ) (d e : CatalogStores) (r : PublishToolResult)
      : Type 0 where
    pub snapshot : Snapshot
    pub kept : CatalogStores
    pub located : Located c d snapshot
    pub retiring :
        retire_current_version sha256_json c.context.tenant_id snapshot.tool snapshot.version at d
        ≡ ok (r.retired_tool_version_id, kept)
    pub written : Written snapshot at kept e

  pub transaction-Steps :
      (c : PublishToolCommand) (at : ℕ) (d e : CatalogStores) (r : PublishToolResult)
      → publish_tool_in_transaction sha256_json c at d ≡ ok (r, e)
      → Steps c at d e r
  unfolding publish_tool_in_transaction
  transaction-Steps c at d e r h = elim (Result-cases (read_snapshot sha256_json c d)) [
    | inr (x, n) ↦ ground arith
    | inl (s, p) ↦
        elim (Result-cases
          (retire_current_version sha256_json c.context.tenant_id s.tool s.version at d)) [
            | inr (x, n) ↦ ground arith
            | inl (k, q) ↦
                elim (Result-cases (write_snapshot sha256_json c.context.tenant_id s at k.1)) [
                  | inr (x, n) ↦ ground arith
                  | inl (f, w) ↦ record {
                    snapshot = s;
                    kept = k.1;
                    located = read_snapshot-Located c d s p;
                    retiring = ground arith;
                    written = write_snapshot-Written c.context.tenant_id s at k.1 e (ground arith);
                  }
                ]
          ]
  ]
