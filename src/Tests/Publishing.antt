-- ===== src/Tests/Publishing.antt =====
-- The publication of src/nexusmcp/modules/catalog/publish.py at concrete inputs: a tool with a
-- published version and a reviewed one that is to replace it.
use nexus_mcp.Base.{
  String, none, some, [], ◌∷◌, ◌≡◌, refl, arith, inl, is_blank, starts_with, String_discrete, List,
}
use nexus_mcp.Dict.{get, put, values, find, index, repeats}
use nexus_mcp.Errors.{Exc}
use nexus_mcp.Json.{Value, Fields, field_of}
use nexus_mcp.Kinds.{ToolVisibility, ToolSideEffect}
use nexus_mcp.Result.{ok, err}
use nexus_mcp.Connectors.{
  ToolBinding, ToolBindingType, ToolBindingStatus, calculate_binding_digest, new_binding,
}
use nexus_mcp.Connectors.Store.{binding_of_version, binding_by_id, save_binding, clone_bindings}
use nexus_mcp.Registry.{
  UpstreamService, UpstreamServiceType, UpstreamStatus, clone_upstreams, upstream_by_id,
}
use nexus_mcp.Catalog.{
  Tool, ToolStatus, ToolVersion, ToolVersionStatus, retire, new_version, validate_input_schema,
  validate_lifecycle_timestamps, activate, new_tool, is_reserved_tool_namespace,
}
use nexus_mcp.Catalog.Store.{
  check_catalog, tool_by_id, version_by_id, published_version, save_version, save_tool,
  tool_by_name,
}
use nexus_mcp.Catalog.Publish.{
  CatalogStores, CatalogWorld, PublishToolCommand, PublishToolResult, publish_tool, in_transaction,
  clone_stores, publish_tool_in_transaction, read_snapshot, validate_publish_snapshot,
  calculate_schema_digest, retire_current_version, retire_version, write_snapshot,
}
use nexus_mcp.Catalog.Publish.Single.{Inv}
use nexus_mcp.Catalog.Reachable.{CatalogOp, run, step, published_single}
use nexus_mcp.Catalog.Review.{SubmitToolVersionForReviewCommand, submit_tool_version, read_draft}
use nexus_mcp.Catalog.Publish.Published.{Published, publish_tool-Published, publish_tool_unapproved}
use nexus_mcp.Tests.Toolsets.{ports, admin}

abbrev sha256_json : Value → String
sha256_json v = "sha"

abbrev schema : Fields
schema = Fields.field "type" (Value.text "object") Fields.end

abbrev tool : Tool
tool = record {
  id = "t";
  tenant_id = "acme";
  namespace = "crm";
  canonical_name = "crm.find";
  owner = "ann";
  status = ToolStatus.disabled;
}

abbrev old_version : ToolVersion
old_version = record {
  id = "v1";
  tenant_id = "acme";
  tool_id = "t";
  version = 1;
  display_name = "Find";
  description = "";
  input_schema = schema;
  output_schema = none;
  schema_digest = "sha";
  tags = [];
  side_effect = ToolSideEffect.read_only;
  visibility = ToolVisibility.public;
  status = ToolVersionStatus.published;
  created_by = "ann";
  created_at = 0;
  reviewed_at = some 0;
  published_at = some 0;
  retired_at = none;
}

abbrev reviewed_version : ToolVersion
reviewed_version = record old_version {
  id = "v2";
  version = 2;
  status = ToolVersionStatus.review;
  published_at = none;
}

abbrev old_binding : ToolBinding
old_binding = record {
  id = "b1";
  tenant_id = "acme";
  tool_version_id = "v1";
  upstream_service_id = "u";
  imported_operation_id = none;
  binding_type = ToolBindingType.http;
  binding_config = Fields.end;
  binding_digest = "sha";
  status = ToolBindingStatus.published;
  created_at = 0;
  published_at = some 0;
}

abbrev draft_binding : ToolBinding
draft_binding = record old_binding {
  id = "b2";
  tool_version_id = "v2";
  status = ToolBindingStatus.draft;
  published_at = none;
}

abbrev upstream : UpstreamService
upstream = record {
  id = "u";
  tenant_id = "acme";
  namespace = "crm";
  name = "crm";
  description = none;
  owner = "ann";
  service_type = UpstreamServiceType.http;
  transport_type = "http";
  endpoint = "https://crm";
  protocol_min = none;
  protocol_max = none;
  auth_scheme = none;
  config = Fields.end;
  status = UpstreamStatus.active;
}

abbrev stores : CatalogStores
stores = record {
  tools = ("t", tool) ∷ [];
  versions = ("v1", old_version) ∷ ("v2", reviewed_version) ∷ [];
  bindings = ("b1", old_binding) ∷ ("b2", draft_binding) ∷ [];
  upstreams = ("u", upstream) ∷ [];
}

abbrev opening : CatalogWorld
opening = record { stores = stores; ticks = 5 }

abbrev command : PublishToolCommand
command = record {
  context = admin;
  tool_id = "t";
  tool_version_id = "v2";
  expected_schema_digest = "sha";
  expected_binding_digest = "sha";
}

opening-Inv : Inv stores
unfolding get String_discrete
opening-Inv = record {
  tools = (refl, refl, tt);
  versions = (refl, refl, (refl, refl, tt));
  bindings = (refl, refl, (refl, refl, tt));
  upstreams = (refl, refl, tt);
  single = λ j k v u e f p q t o. ground arith;
}

abbrev shown : ToolVersion
shown = record reviewed_version { status = ToolVersionStatus.published; published_at = some 5 }

abbrev after : CatalogWorld
after = record {
  stores = record {
    tools = ("t", record tool { status = ToolStatus.active }) ∷ [];
    versions =
        ("v1", record old_version { status = ToolVersionStatus.retired; retired_at = some 5 })
        ∷ ("v2", shown)
        ∷ [];
    bindings =
        ("b1", record old_binding { status = ToolBindingStatus.disabled })
        ∷ (
          "b2",
          record draft_binding { status = ToolBindingStatus.published; published_at = some 5 },
        )
        ∷ [];
    upstreams = stores.upstreams;
  };
  ticks = 6;
}

abbrev result : PublishToolResult
result = record {
  event = record {
    tenant_id = "acme";
    tool_id = "t";
    tool_version_id = "v2";
    tool_binding_id = "b2";
    canonical_name = "crm.find";
    version = 2;
    actor_id = "ann";
    request_id = "r1";
    trace_id = "c1";
    occurred_at = 5;
  };
  retired_tool_version_id = some "v1";
}

command_published : publish_tool ports sha256_json command opening ≡ (ok result, after)
unfolding publish_tool in_transaction clone_stores check_catalog repeats values index get put
    clone_bindings clone_upstreams publish_tool_in_transaction read_snapshot tool_by_id
    version_by_id binding_of_version find upstream_by_id validate_publish_snapshot
    calculate_schema_digest calculate_binding_digest retire_current_version published_version
    retire_version retire new_version validate_input_schema field_of validate_lifecycle_timestamps
    is_blank save_version nexus_mcp.Connectors.disable new_binding save_binding binding_by_id
    write_snapshot nexus_mcp.Catalog.publish nexus_mcp.Connectors.publish activate new_tool
    save_tool tool_by_name is_reserved_tool_namespace starts_with String_discrete
command_published = refl

abbrev submission : SubmitToolVersionForReviewCommand
submission = record { context = admin; tool_version_id = "v2" }

-- The submission is refused, since the version is under review already.
abbrev calls : List CatalogOp
calls = CatalogOp.submitting submission ∷ CatalogOp.publishing command ∷ []

stored_shown : get "v2" (run ports sha256_json calls opening).stores.versions ≡ some shown
unfolding run step submit_tool_version read_draft publish_tool in_transaction clone_stores
    check_catalog repeats values index get put clone_bindings clone_upstreams
    publish_tool_in_transaction read_snapshot tool_by_id version_by_id binding_of_version find
    upstream_by_id validate_publish_snapshot calculate_schema_digest calculate_binding_digest
    retire_current_version published_version retire_version retire new_version validate_input_schema
    field_of validate_lifecycle_timestamps is_blank save_version nexus_mcp.Connectors.disable
    new_binding save_binding binding_by_id write_snapshot nexus_mcp.Catalog.publish
    nexus_mcp.Connectors.publish activate new_tool save_tool tool_by_name is_reserved_tool_namespace
    starts_with String_discrete
stored_shown = refl

published_single_example : shown ≡ shown
published_single_example =
    published_single ports sha256_json calls opening "v2" "v2" shown shown opening-Inv stored_shown
      stored_shown refl refl refl refl

publish_tool-Published_example : Published sha256_json command 5 stores after.stores result
publish_tool-Published_example =
    publish_tool-Published ports sha256_json command opening after result opening-Inv
      command_published

abbrev again : PublishToolCommand
again = record command { tool_version_id = "v1" }

publish_tool_unapproved_example :
    (x : Exc) × (publish_tool ports sha256_json again opening
      ≡ (err x, record { stores = stores; ticks = 6 }))
unfolding get String_discrete
publish_tool_unapproved_example =
    publish_tool_unapproved ports sha256_json again opening old_version opening-Inv refl (inl refl)
