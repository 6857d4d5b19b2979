-- ===== src/Tests/Endpoints.antt =====
-- An endpoint of a tool set with one member, and the tools it shows.
use nexus_mcp.Toolsets.{
  ToolsetKind, Toolset, ToolsetStatus, ToolsetDiscoveryMode, ToolsetMemberAvailability,
}
use nexus_mcp.Base.{
  inl, String, none, some, List, [], ◌∷◌, ◌≡◌, refl, arith, String_discrete, is_blank,
}
use nexus_mcp.Base.Order.{contains, add_element, sort_by}
use nexus_mcp.Dict.{Dict, get, put, values, find, select, repeats}
use nexus_mcp.Context.{ActorContext}
use nexus_mcp.Json.{Fields, Value}
use nexus_mcp.Kinds.{McpScopeType, ToolVisibility, ToolSideEffect}
use nexus_mcp.Result.{ok}
use nexus_mcp.Action.{Action, ◌>>=◌}
use nexus_mcp.Catalog.Published.{PublishedTool}
use nexus_mcp.Toolsets.Catalog.{ToolsetCatalogSnapshot}
use nexus_mcp.Toolsets.Validation.{new_toolset}
use nexus_mcp.Toolsets.Store.{ToolsetWorld, same_slug, with_unit_of_work, lookup_by_slug}
use nexus_mcp.Toolsets.Scopes.{McpEndpointScope, require_scoped_access}
use nexus_mcp.Toolsets.Runtime.{
  ResolvedToolsetAccess, resolve_access, require_business_tool, read_grants, access_of,
  member_snapshots,
}
use nexus_mcp.Toolsets.Invariant.{Inv}
use nexus_mcp.Toolsets.Callable.{Callable, resolve_access-Callable}
use nexus_mcp.Tests.Toolsets.{digests, filled, granted, admin}
use nexus_mcp.Toolsets.Ids.{is_slug, is_digest, normalized_ids}
use nexus_mcp.Toolsets.Profiles.{profile, derive_toolset_health}
use nexus_mcp.Toolsets.Health.{availabilities, profile-derive_toolset_health}

abbrev served : Toolset
served = record filled { status = ToolsetStatus.active; grants = granted.grants }

abbrev stored : Dict Toolset
stored = ("set", served) ∷ []

served-valid : new_toolset digests served ≡ ok served
unfolding new_toolset is_blank is_slug is_digest String_discrete contains add_element normalized_ids
served-valid = refl

stored-Inv : Inv digests stored
unfolding repeats same_slug values select get
stored-Inv = record {
  keyed = (refl, refl, tt);
  slugs = refl;
  systems = refl;
  valid = λ k t e. ground (arith, served-valid);
}

abbrev tool : PublishedTool
tool = record {
  tool_id = "crm.a";
  tool_version_id = "v1";
  tenant_id = "acme";
  canonical_name = "crm.find";
  display_name = "Find";
  description = "Find";
  input_schema = Fields.field "type" (Value.text "object") Fields.end;
  output_schema = none;
  version = 1;
  visibility = ToolVisibility.public;
  side_effect = ToolSideEffect.read_only;
  schema_digest = "d";
  owner = none;
  tags = [];
}

abbrev snapshot : ToolsetCatalogSnapshot
snapshot = record {
  tool_id = "crm.a";
  tenant_id = "acme";
  availability = ToolsetMemberAvailability.available;
  published_tool_version_id = some "v1";
  canonical_name = some "crm.find";
  description = none;
  serialized_schema_size = 10;
}

abbrev world : ToolsetWorld
world = record { toolsets = stored; snapshots = snapshot ∷ []; ticks = 9; issued = 1 }

abbrev bot : ActorContext
bot = record admin { principal_id = "bot" }

abbrev endpoint : McpEndpointScope
endpoint = record { type = McpScopeType.toolset; toolset_slug = some "crm-tools" }

abbrev catalog : String → Action ToolsetWorld (List PublishedTool)
catalog tenant_id w = (ok (tool ∷ []), w)

abbrev access : ResolvedToolsetAccess
access = record {
  endpoint_scope = endpoint;
  tools = tool ∷ [];
  unavailable_tool_names = [];
  discovery_mode = some ToolsetDiscoveryMode.direct;
  toolset_id = some "set";
  toolset_revision = some 2;
}

resolving : resolve_access catalog bot endpoint world ≡ (ok access, world)
unfolding resolve_access ◌>>=◌ with_unit_of_work values put select read_grants require_scoped_access
    lookup_by_slug find String_discrete access_of sort_by member_snapshots
resolving = refl

asking : require_business_tool access "crm.find" ≡ ok tt
unfolding require_business_tool String_discrete
asking = refl

resolve_access-Callable_example :
    (published : List PublishedTool) × (catalog "acme" world ≡ (ok published, world))
    × Callable bot stored published "crm.find"
resolve_access-Callable_example =
    resolve_access-Callable catalog bot endpoint digests world world access "crm.find" stored-Inv
      resolving asking

abbrev off : ToolsetCatalogSnapshot
off = record snapshot {
  tool_id = "crm.b";
  availability = ToolsetMemberAvailability.tool_disabled;
  published_tool_version_id = none;
}

-- The tool set of all published tools, of which one is available and one is not.
abbrev everything : Toolset
everything = record served { kind = ToolsetKind.all_published }

profile-derive_toolset_health_example :
    (profile (snapshot ∷ off ∷ []) everything).health
    ≡ derive_toolset_health (availabilities (profile (snapshot ∷ off ∷ []) everything).members)
profile-derive_toolset_health_example =
    profile-derive_toolset_health (snapshot ∷ off ∷ []) everything (inl refl)
