-- ===== src/Toolsets/Profiles.antt =====
-- The profile of a tool set, its health, and the checks that the use cases of
-- src/nexusmcp/modules/toolsets/use_cases.py share.
use Prim.Native.String.{◌++◌}
use nexus_mcp.Base.{
  ℕ, ◌+◌, String, Bool, true, false, not, ◌||◌, Option, none, some, List, [], ◌∷◌, map, length, eqb,
  if◌then◌else◌,
}
use nexus_mcp.Errors.{Exc, value_error, toolset_domain, ToolsetDomainError, nexus, NexusMcpError}
use nexus_mcp.Result.{Result, ok, err}
use nexus_mcp.Toolsets.{
  Toolset, ToolsetKind, ToolsetStatus, ToolsetDiscoveryMode, ToolsetHealth,
  ToolsetMemberAvailability, is_all_published, is_available, ids_of_members, ids_of_grants,
}
use nexus_mcp.Toolsets.Catalog.{
  ToolsetCatalogSnapshot, list_member_snapshots, list_published_snapshots,
}

-- The count of the available ones.
unfoldable pub count_available : List ToolsetMemberAvailability → ℕ
count_available [] = 0
count_available (a ∷ rest) = (if is_available a then 1 else 0) + count_available rest

-- `derive_toolset_health`, of the values of the mapping.
unfoldable pub derive_toolset_health : List ToolsetMemberAvailability → ToolsetHealth
unfolding count_available
derive_toolset_health availabilities =
    if eqb (length availabilities) 0
    then ToolsetHealth.unavailable
    else if eqb (count_available availabilities) (length availabilities)
    then ToolsetHealth.healthy
    else if eqb (count_available availabilities) 0
    then ToolsetHealth.unavailable
    else ToolsetHealth.degraded

pub record ToolsetMemberProfile : Type 0 where
  pub tool_id : String
  pub canonical_name : Option String
  pub description : Option String
  pub availability : ToolsetMemberAvailability
  pub published_tool_version_id : Option String
  pub serialized_schema_size : ℕ

pub record ToolsetProfile : Type 0 where
  pub id : String
  pub tenant_id : String
  pub slug : String
  pub name : String
  pub description : Option String
  pub kind : ToolsetKind
  pub discovery_mode : ToolsetDiscoveryMode
  pub status : ToolsetStatus
  pub revision : ℕ
  pub membership_digest : String
  pub endpoint_path : String
  pub health : ToolsetHealth
  pub tool_count : ℕ
  pub available_tool_count : ℕ
  pub serialized_schema_size : ℕ
  pub principal_ids : List String
  pub members : List ToolsetMemberProfile
  pub created_by : String
  pub created_at : ℕ
  pub updated_at : ℕ

-- `_member_profile`
unfoldable pub member_profile : ToolsetCatalogSnapshot → ToolsetMemberProfile
member_profile s = record {
  tool_id = s.tool_id;
  canonical_name = s.canonical_name;
  description = s.description;
  availability = s.availability;
  published_tool_version_id = s.published_tool_version_id;
  serialized_schema_size = s.serialized_schema_size;
}

-- `sum(profile.availability is AVAILABLE for profile in profiles)`
unfoldable pub available_members : List ToolsetMemberProfile → ℕ
available_members [] = 0
available_members (p ∷ ps) = (if is_available p.availability then 1 else 0) + available_members ps

-- `sum(profile.serialized_schema_size for profile in profiles)`
schema_size : List ToolsetMemberProfile → ℕ
schema_size [] = 0
schema_size (p ∷ ps) = p.serialized_schema_size + schema_size ps

-- The snapshots that a profile is made from.
unfoldable pub profile_snapshots :
    List ToolsetCatalogSnapshot → Toolset → List ToolsetCatalogSnapshot
unfolding list_published_snapshots list_member_snapshots
profile_snapshots snapshots t =
    if is_all_published t.kind
    then list_published_snapshots snapshots t.tenant_id
    else list_member_snapshots snapshots t.tenant_id (ids_of_members t.members)

-- The health in `_profile`, of the available and the expected count.
unfoldable pub health_of : ℕ → ℕ → ToolsetHealth
health_of available_count expected_count =
    if eqb expected_count 0 || eqb available_count 0
    then ToolsetHealth.unavailable
    else if eqb available_count expected_count
    then ToolsetHealth.healthy
    else ToolsetHealth.degraded

-- `_profile`
unfoldable pub profile : List ToolsetCatalogSnapshot → Toolset → ToolsetProfile
unfolding profile_snapshots member_profile available_members schema_size health_of
profile snapshots t =
    let profiles = map member_profile (profile_snapshots snapshots t) in
    let available_count = available_members profiles in
    let expected_count = if is_all_published t.kind then length profiles else length t.members in
    record {
      id = t.id;
      tenant_id = t.tenant_id;
      slug = t.slug;
      name = t.name;
      description = t.description;
      kind = t.kind;
      discovery_mode = t.discovery_mode;
      status = t.status;
      revision = t.revision;
      membership_digest = t.membership_digest;
      endpoint_path = "/mcp/toolsets/" ++ t.slug;
      health = health_of available_count expected_count;
      tool_count = expected_count;
      available_tool_count = available_count;
      serialized_schema_size = schema_size profiles;
      principal_ids = ids_of_grants t.grants;
      members = profiles;
      created_by = t.created_by;
      created_at = t.created_at;
      updated_at = t.updated_at;
    }

-- `any(snapshot.availability is not AVAILABLE for snapshot in snapshots)`
unfoldable pub any_unavailable : List ToolsetCatalogSnapshot → Bool
any_unavailable [] = false
any_unavailable (s ∷ ss) =
    let rest = any_unavailable ss in if is_available s.availability then rest else true

-- `expected_count is not None and len(snapshots) != expected_count`
abbrev miscounted : List ToolsetCatalogSnapshot → Option ℕ → Bool
miscounted snapshots none = false
miscounted snapshots (some n) = not (eqb (length snapshots) n)

-- `_require_available`
unfoldable pub require_available : List ToolsetCatalogSnapshot → Option ℕ → Result (Unit {0})
unfolding any_unavailable
require_available snapshots expected_count =
    if miscounted snapshots expected_count
    then err (nexus NexusMcpError.invalid_toolset_members)
    else if any_unavailable snapshots
    then err (nexus NexusMcpError.toolset_member_unavailable)
    else ok tt

-- `_require_expected_revision`
unfoldable pub require_expected_revision : Toolset → ℕ → Result (Unit {0})
require_expected_revision t expected_revision =
    if not (eqb t.revision expected_revision)
    then err (nexus NexusMcpError.toolset_revision_conflict)
    else ok tt

-- `except ValueError as error: raise _map_mutation_error(error)`; what is no `ValueError` passes.
unfoldable pub map_mutation_error : Exc → Exc
map_mutation_error (toolset_domain (ToolsetDomainError.stale_revision m)) =
    nexus NexusMcpError.toolset_revision_conflict
map_mutation_error (toolset_domain (ToolsetDomainError.system_mutation m)) =
    nexus NexusMcpError.system_toolset_immutable
map_mutation_error (value_error m) = nexus NexusMcpError.invalid_arguments
map_mutation_error e = e

-- `except ValueError as error: raise InvalidArgumentsError(str(error))`
unfoldable pub as_invalid_arguments : Exc → Exc
as_invalid_arguments (toolset_domain e) = nexus NexusMcpError.invalid_arguments
as_invalid_arguments (value_error m) = nexus NexusMcpError.invalid_arguments
as_invalid_arguments e = e

-- `except ValueError as error: raise ToolsetConflictError(str(error))`
unfoldable pub as_conflict : Exc → Exc
as_conflict (toolset_domain e) = nexus NexusMcpError.toolset_conflict
as_conflict (value_error m) = nexus NexusMcpError.toolset_conflict
as_conflict e = e
