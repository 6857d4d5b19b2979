-- ===== src/Catalog/Publish.antt =====
-- The publication of a tool version: src/nexusmcp/modules/catalog/publish.py, events.py and
-- digests.py, and the unit of work of src/nexusmcp/modules/catalog/adapters/in_memory_uow.py. No
-- step inside the transaction catches an exception, and a raise drops the working copies, so a step
-- is a function of the copies that returns the changed ones or raises.
pub mod Writes
pub mod Steps
pub mod Single
pub mod Published
use nexus_mcp.Base.{
  ℕ, ◌+◌, String, Bool, not, ◌&&◌, ◌||◌, Option, none, some, [], ◌==◌, leb, if◌then◌else◌,
}
use nexus_mcp.Dict.{Dict, values, index}
use nexus_mcp.Errors.{Exc, nexus, NexusMcpError}
use nexus_mcp.Json.{Fields, Value}
use nexus_mcp.Result.{Result, ok, err, ◌>>=◌, ◌>>◌}
use nexus_mcp.Action.{Action}
use nexus_mcp.Context.{ActorContext}
use nexus_mcp.Store.{Ports}
use nexus_mcp.Connectors.{ToolBinding, calculate_binding_digest}
use nexus_mcp.Connectors.Store.{binding_of_version, save_binding, clone_bindings}
use nexus_mcp.Registry.{UpstreamService, upstream_by_id, clone_upstreams}
use nexus_mcp.Catalog.{Tool, ToolVersion, is_review, is_published, retire, activate}
use nexus_mcp.Catalog.Store.{
  id_of_tool, id_of_version, tool_by_id, save_tool, version_by_id, published_version, save_version,
  check_catalog,
}

-- The repositories of the unit of work.
pub record CatalogStores : Type 0 where
  pub tools : Dict Tool
  pub versions : Dict ToolVersion
  pub bindings : Dict ToolBinding
  pub upstreams : Dict UpstreamService

-- What is committed, and how often the clock has been asked.
pub record CatalogWorld : Type 0 where
  pub stores : CatalogStores
  pub ticks : ℕ

pub record PublishToolCommand : Type 0 where
  pub context : ActorContext
  pub tool_id : String
  pub tool_version_id : String
  pub expected_schema_digest : String
  pub expected_binding_digest : String

pub record ToolPublished : Type 0 where
  pub tenant_id : String
  pub tool_id : String
  pub tool_version_id : String
  pub tool_binding_id : String
  pub canonical_name : String
  pub version : ℕ
  pub actor_id : String
  pub request_id : String
  pub trace_id : String
  pub occurred_at : ℕ

pub record PublishToolResult : Type 0 where
  pub event : ToolPublished
  pub retired_tool_version_id : Option String

-- The four aggregates of a publication.
pub record Snapshot : Type 0 where
  pub tool : Tool
  pub version : ToolVersion
  pub binding : ToolBinding
  pub upstream : UpstreamService

-- `if condition: raise e`
abbrev pub raise_when : Bool → NexusMcpError → Result (Unit {0})
raise_when Bool.true e = err (nexus e)
raise_when Bool.false e = ok tt

-- `if found is None: raise e`
abbrev pub require : {A : Type 0} → Option A → NexusMcpError → Result A
require none e = err (nexus e)
require (some a) e = ok a

-- The value of an optional schema.
abbrev object_or_null : Option Fields → Value
object_or_null none = Value.null
object_or_null (some f) = Value.object f

module _ (sha256_json : Value → String) where
  -- `calculate_schema_digest`
  unfoldable pub calculate_schema_digest : Fields → Option Fields → String
  calculate_schema_digest input_schema output_schema = sha256_json (
      Value.object (
        Fields.field "input_schema" (Value.object input_schema)
          (Fields.field "output_schema" (object_or_null output_schema) Fields.end)))

  -- `_validate_publish_snapshot`
  unfoldable pub validate_publish_snapshot : PublishToolCommand → Snapshot → Result (Unit {0})
  unfolding calculate_schema_digest
  validate_publish_snapshot c s = do
    raise_when
        (not (
          s.tool.tenant_id == c.context.tenant_id
          && s.version.tenant_id == c.context.tenant_id
          && s.binding.tenant_id == c.context.tenant_id
          && s.upstream.tenant_id == c.context.tenant_id))
        NexusMcpError.tenant_boundary_violation
    raise_when
        (not (s.version.tool_id == s.tool.id) || not (s.binding.tool_version_id == s.version.id))
        NexusMcpError.invalid_tool_state
    raise_when (not (is_review s.version.status)) NexusMcpError.invalid_tool_state
    raise_when (not (nexus_mcp.Connectors.is_draft s.binding.status))
        NexusMcpError.invalid_tool_state
    raise_when (not (nexus_mcp.Registry.is_active s.upstream.status))
        NexusMcpError.upstream_not_active
    raise_when
        (not (
            calculate_schema_digest s.version.input_schema s.version.output_schema
            == s.version.schema_digest)
          || not (c.expected_schema_digest == s.version.schema_digest))
        NexusMcpError.schema_digest_mismatch
    raise_when
        (not (calculate_binding_digest sha256_json s.binding == s.binding.binding_digest)
          || not (c.expected_binding_digest == s.binding.binding_digest))
        NexusMcpError.binding_digest_mismatch

  -- The reads of `publish_tool_in_transaction`, and the validation of what they found.
  unfoldable pub read_snapshot : PublishToolCommand → CatalogStores → Result Snapshot
  unfolding tool_by_id version_by_id binding_of_version upstream_by_id validate_publish_snapshot
  read_snapshot c d = do
    tool ← require (tool_by_id c.context.tenant_id c.tool_id d.tools) NexusMcpError.tool_not_found
    version ←
        require (version_by_id c.context.tenant_id c.tool_version_id d.versions)
          NexusMcpError.tool_version_not_found
    binding ←
        require (binding_of_version c.context.tenant_id version.id d.bindings)
          NexusMcpError.tool_binding_not_found
    upstream ←
        require (upstream_by_id c.context.tenant_id binding.upstream_service_id d.upstreams)
          NexusMcpError.tenant_boundary_violation
    let s : Snapshot = record {
      tool = tool;
      version = version;
      binding = binding;
      upstream = upstream;
    }
    validate_publish_snapshot c s
    ok s

  -- `_retire_current_version`, once a published version has been read.
  unfoldable pub retire_version :
      String
      → ToolVersion
      → ToolVersion
      → ℕ
      → CatalogStores
      → Result (Option String × CatalogStores)
  unfolding version_by_id binding_of_version
  retire_version tenant_id current target retired_at d = do
    raise_when (leb target.version current.version) NexusMcpError.publish_conflict
    locked ← require (version_by_id tenant_id current.id d.versions) NexusMcpError.publish_conflict
    raise_when (not (is_published locked.status)) NexusMcpError.publish_conflict
    binding ←
        require (binding_of_version tenant_id locked.id d.bindings)
          NexusMcpError.tool_binding_not_found
    raise_when (not (nexus_mcp.Connectors.is_published binding.status))
        NexusMcpError.invalid_tool_state
    retired ← retire locked retired_at
    versions ← save_version tenant_id retired d.versions
    disabled ← nexus_mcp.Connectors.disable binding
    bindings ← save_binding tenant_id disabled d.bindings
    ok (some locked.id, record d { versions = versions; bindings = bindings })

  abbrev pub retire_if_any :
      String
      → Option ToolVersion
      → ToolVersion
      → ℕ
      → CatalogStores
      → Result (Option String × CatalogStores)
  retire_if_any tenant_id none target retired_at d = ok (none, d)
  retire_if_any tenant_id (some current) target retired_at d =
      retire_version tenant_id current target retired_at d

  -- `_retire_current_version`
  unfoldable pub retire_current_version :
      String → Tool → ToolVersion → ℕ → CatalogStores → Result (Option String × CatalogStores)
  unfolding published_version
  retire_current_version tenant_id tool target retired_at d =
      retire_if_any tenant_id (published_version tenant_id tool.id d.versions) target retired_at d

  -- The writes that end `publish_tool_in_transaction`.
  unfoldable pub write_snapshot : String → Snapshot → ℕ → CatalogStores → Result CatalogStores
  write_snapshot tenant_id s published_at d = do
    version ← nexus_mcp.Catalog.publish s.version published_at
    versions ← save_version tenant_id version d.versions
    binding ← nexus_mcp.Connectors.publish s.binding published_at
    bindings ← save_binding tenant_id binding d.bindings
    tool ← activate s.tool
    tools ← save_tool tenant_id tool d.tools
    ok (record d { versions = versions; bindings = bindings; tools = tools })

  -- The event that a publication returns.
  abbrev event_of : PublishToolCommand → Snapshot → ℕ → ToolPublished
  event_of c s at = record {
    tenant_id = c.context.tenant_id;
    tool_id = s.tool.id;
    tool_version_id = s.version.id;
    tool_binding_id = s.binding.id;
    canonical_name = s.tool.canonical_name;
    version = s.version.version;
    actor_id = c.context.principal_id;
    request_id = c.context.request_id;
    trace_id = c.context.trace_id;
    occurred_at = at;
  }

  -- `publish_tool_in_transaction`
  unfoldable pub publish_tool_in_transaction :
      PublishToolCommand → ℕ → CatalogStores → Result (PublishToolResult × CatalogStores)
  unfolding read_snapshot retire_current_version write_snapshot
  publish_tool_in_transaction c published_at d = do
    s ← read_snapshot c d
    (retired, kept) ← retire_current_version c.context.tenant_id s.tool s.version published_at d
    written ← write_snapshot c.context.tenant_id s published_at kept
    ok (record { event = event_of c s published_at; retired_tool_version_id = retired }, written)

-- The clones of `__aenter__`.
unfoldable pub clone_stores : CatalogStores → Result CatalogStores
clone_stores d = do
  check_catalog (index id_of_tool [] (values d.tools)) (index id_of_version [] (values d.versions))
  bindings ← clone_bindings d.bindings
  ok (record {
    tools = index id_of_tool [] (values d.tools);
    versions = index id_of_version [] (values d.versions);
    bindings = bindings;
    upstreams = clone_upstreams d.upstreams;
  })

module _ {A : Type 0} where
  abbrev pub settle_transaction : Result (A × CatalogStores) → Action CatalogWorld A
  settle_transaction (ok (a, d)) w = (ok a, record w { stores = d })
  settle_transaction (err e) w = (err e, w)

  -- `async with factory() as unit_of_work:`, the steps and `commit`.
  unfoldable pub in_transaction :
      (CatalogStores → Result (A × CatalogStores)) → Action CatalogWorld A
  in_transaction steps w = settle_transaction (clone_stores w.stores >>= steps) w

-- `PublishTool.execute`. The clock answers with an aware time.
unfoldable pub publish_tool :
    Ports → (Value → String) → PublishToolCommand → Action CatalogWorld PublishToolResult
unfolding in_transaction
publish_tool ports sha256_json c w =
    in_transaction (publish_tool_in_transaction sha256_json c (ports.times w.ticks))
      (record w { ticks = w.ticks + 1 })
