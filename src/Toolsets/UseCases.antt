-- ===== src/Toolsets/UseCases.antt =====
-- The use cases of src/nexusmcp/modules/toolsets/use_cases.py.
use nexus_mcp.Base.{ℕ, String, not, Option, none, some, List, map, length, is_none, if◌then◌else◌}
use nexus_mcp.Base.Order.{sorted_set}
use nexus_mcp.Dict.{Dict}
use nexus_mcp.Errors.{Exc, nexus, NexusMcpError}
use nexus_mcp.Result.{Result, ok, err}
use nexus_mcp.Action.{Action, pure, raise, raise_if, lift, ◌>>=◌, ◌>>◌, try_else}
use nexus_mcp.Context.{ActorContext}
use nexus_mcp.Store.{Ports}
use nexus_mcp.Toolsets.{Toolset, ToolsetDiscoveryMode, Digests, is_active, ids_of_members}
use nexus_mcp.Toolsets.Changes.{
  create_explicit, update_profile, replace_members, replace_grants, activate, disable, same_ids,
}
use nexus_mcp.Toolsets.Catalog.{ToolsetCatalogSnapshot, list_member_snapshots}
use nexus_mcp.Toolsets.Store.{
  ToolsetWorld, ToolsetSession, now, new_id, outside, with_unit_of_work, commit, lookup_by_id,
  lookup_by_slug,
}
use nexus_mcp.Toolsets.Repository.{add, save}
use nexus_mcp.Toolsets.Profiles.{
  ToolsetProfile, profile, require_available, require_expected_revision, map_mutation_error,
  as_invalid_arguments, as_conflict,
}

pub record CreateToolsetCommand : Type 0 where
  pub context : ActorContext
  pub slug : String
  pub name : String
  pub description : Option String
  pub discovery_mode : ToolsetDiscoveryMode

pub record UpdateToolsetCommand : Type 0 where
  pub context : ActorContext
  pub toolset_id : String
  pub expected_revision : ℕ
  pub name : String
  pub description : Option String
  pub discovery_mode : ToolsetDiscoveryMode

pub record ReplaceToolsetMembersCommand : Type 0 where
  pub context : ActorContext
  pub toolset_id : String
  pub expected_revision : ℕ
  pub tool_ids : List String

pub record ReplaceToolsetGrantsCommand : Type 0 where
  pub context : ActorContext
  pub toolset_id : String
  pub expected_revision : ℕ
  pub principal_ids : List String

pub record ChangeToolsetStatusCommand : Type 0 where
  pub context : ActorContext
  pub toolset_id : String
  pub expected_revision : ℕ

-- `try: m`, `except … as error: raise translate(error)`
unfoldable pub translating :
    {A : Type 0} → (Exc → Exc) → Action ToolsetSession A → Action ToolsetSession A
translating translate m = try_else m (λ e. raise (translate e)) λ a. pure a

-- A reading of the repository.
unfoldable pub read : {A : Type 0} → (Dict Toolset → A) → Action ToolsetSession A
read f s = (ok (f s.working), s)

-- A reading of the catalogue, in the same transaction.
unfoldable pub read_catalog :
    {A : Type 0} → (List ToolsetCatalogSnapshot → A) → Action ToolsetSession A
read_catalog f s = (ok (f s.world.snapshots), s)

-- `if toolset is None: raise ToolsetNotFoundError(…)`
abbrev pub require_found : Option Toolset → Result Toolset
require_found none = err (nexus NexusMcpError.toolset_not_found)
require_found (some t) = ok t

-- `_get_locked`
unfoldable pub get_locked : ActorContext → String → Action ToolsetSession Toolset
unfolding read
get_locked context toolset_id = do
  found ← read (lookup_by_id context.tenant_id toolset_id)
  lift (require_found found)

-- `_profile` and `commit`, which end the changing use cases.
unfoldable pub conclude : Toolset → Action ToolsetSession ToolsetProfile
unfolding read_catalog
conclude updated = do
  shown ← read_catalog (λ snapshots. profile snapshots updated)
  commit
  pure shown

-- `GetToolset.execute`
unfoldable pub get_toolset : ActorContext → String → Action ToolsetWorld ToolsetProfile
unfolding read read_catalog
get_toolset context toolset_id = with_unit_of_work do
  found ← read (lookup_by_id context.tenant_id toolset_id)
  t ← lift (require_found found)
  read_catalog (λ snapshots. profile snapshots t)

module _ (ports : Ports) (digests : Digests) where
  -- The `try` of the changing use cases: the change at the time of the clock, and the save.
  unfoldable pub change_and_save : String → (ℕ → Result Toolset) → Action ToolsetSession Toolset
  unfolding translating
  change_and_save tenant_id change =
      translating map_mutation_error do
        at ← outside (now ports)
        updated ← lift (change at)
        save tenant_id updated
        pure updated

  -- The insertion of `CreateToolset.execute`.
  unfoldable pub insert_toolset : Toolset → Action ToolsetWorld (Unit {0})
  unfolding translating read
  insert_toolset t = with_unit_of_work do
    taken ← read (lookup_by_slug t.tenant_id t.slug)
    raise_if (not (is_none taken)) (nexus NexusMcpError.toolset_conflict)
    translating as_conflict (add t.tenant_id t >> commit)

  -- `CreateToolset.execute`
  unfoldable pub create_toolset : CreateToolsetCommand → Action ToolsetWorld ToolsetProfile
  create_toolset c = do
    at ← now ports
    id ← new_id ports
    t ←
        try_else
          (lift (
            create_explicit digests id c.context.tenant_id c.slug c.name c.description
              c.context.principal_id at c.discovery_mode))
          (λ e. raise (as_invalid_arguments e)) (λ t. pure t)
    insert_toolset t
    get_toolset c.context t.id

  -- `UpdateToolset.execute`
  unfoldable pub update_toolset : UpdateToolsetCommand → Action ToolsetWorld ToolsetProfile
  update_toolset c = with_unit_of_work do
    t ← get_locked c.context c.toolset_id
    updated ←
        change_and_save c.context.tenant_id
          (update_profile digests t c.expected_revision c.name c.description c.discovery_mode)
    conclude updated

  -- `ReplaceToolsetMembers.execute`, once the tool set has been read.
  unfoldable pub replace_found_members :
      ReplaceToolsetMembersCommand → Toolset → Action ToolsetSession ToolsetProfile
  unfolding read_catalog
  replace_found_members c t = do
    lift (require_expected_revision t c.expected_revision)
    snapshots ←
        read_catalog (λ all. list_member_snapshots all c.context.tenant_id (sorted_set c.tool_ids))
    raise_if (not (same_ids (sorted_set (map (λ s. s.tool_id) snapshots)) (sorted_set c.tool_ids)))
        (nexus NexusMcpError.invalid_toolset_members)
    (if is_active t.status then lift (require_available snapshots none) else pure tt)
    updated ← change_and_save c.context.tenant_id (
        replace_members digests t c.expected_revision (sorted_set c.tool_ids)
          c.context.principal_id)
    conclude updated

  -- `ReplaceToolsetMembers.execute`
  unfoldable pub replace_toolset_members :
      ReplaceToolsetMembersCommand → Action ToolsetWorld ToolsetProfile
  replace_toolset_members c =
      with_unit_of_work do t ← get_locked c.context c.toolset_id; replace_found_members c t

  -- `ReplaceToolsetGrants.execute`
  unfoldable pub replace_toolset_grants :
      ReplaceToolsetGrantsCommand → Action ToolsetWorld ToolsetProfile
  replace_toolset_grants c = with_unit_of_work do
    t ← get_locked c.context c.toolset_id
    updated ←
        change_and_save c.context.tenant_id
          (replace_grants digests t c.expected_revision c.principal_ids c.context.principal_id)
    conclude updated

  -- `ActivateToolset.execute`
  unfoldable pub activate_toolset : ChangeToolsetStatusCommand → Action ToolsetWorld ToolsetProfile
  unfolding read_catalog
  activate_toolset c = with_unit_of_work do
    t ← get_locked c.context c.toolset_id
    lift (require_expected_revision t c.expected_revision)
    snapshots ←
        read_catalog
          (λ all. list_member_snapshots all c.context.tenant_id (ids_of_members t.members))
    lift (require_available snapshots (some (length (ids_of_members t.members))))
    updated ← change_and_save c.context.tenant_id (activate digests t c.expected_revision)
    conclude updated

  -- `DisableToolset.execute`
  unfoldable pub disable_toolset : ChangeToolsetStatusCommand → Action ToolsetWorld ToolsetProfile
  disable_toolset c = with_unit_of_work do
    t ← get_locked c.context c.toolset_id
    updated ← change_and_save c.context.tenant_id (disable digests t c.expected_revision)
    conclude updated
