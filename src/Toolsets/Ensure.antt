-- ===== src/Toolsets/Ensure.antt =====
-- `EnsureAllPublishedToolset` of src/nexusmcp/modules/toolsets/use_cases.py.
use nexus_mcp.Base.{String, Option, none, some, List, ◌++◌, if◌then◌else◌}
use nexus_mcp.Base.Order.{sorted_set}
use nexus_mcp.Errors.{Exc, nexus, NexusMcpError, value_error, toolset_domain}
use nexus_mcp.Result.{Result, ok, err}
use nexus_mcp.Action.{Action, pure, raise, lift, ◌>>=◌, ◌>>◌, try_else}
use nexus_mcp.Store.{Ports}
use nexus_mcp.Toolsets.{Toolset, Digests, ids_of_grants}
use nexus_mcp.Toolsets.Validation.{is_empty_list}
use nexus_mcp.Toolsets.Changes.{create_all_published, replace_grants}
use nexus_mcp.Toolsets.Store.{
  ToolsetWorld, ToolsetSession, now, new_id, outside, with_unit_of_work, commit, rollback,
  lookup_all_published,
}
use nexus_mcp.Toolsets.Repository.{add, save}
use nexus_mcp.Toolsets.UseCases.{read}

-- `except ValueError: await unit_of_work.rollback()`; `none` means that the block is left.
unfoldable pub on_lost_race : Exc → Action ToolsetSession (Option Toolset)
on_lost_race (value_error m) = rollback >> pure none
on_lost_race (toolset_domain e) = rollback >> pure none
on_lost_race e = raise e

module _ (ports : Ports) (digests : Digests) (tenant_id : String)
    (principal_ids : List String) where
  -- The first grants, if any are asked for.
  unfoldable pub grant_first : Toolset → Action ToolsetSession Toolset
  grant_first t = if is_empty_list principal_ids then pure t else do
    at ← outside (now ports)
    lift (replace_grants digests t t.revision principal_ids "system" at)

  -- What the first unit of work does where there is no such tool set.
  unfoldable pub establish : Action ToolsetSession (Option Toolset)
  establish = do
    id ← outside (new_id ports)
    at ← outside (now ports)
    t ← lift (create_all_published digests id tenant_id "system" at)
    granted ← grant_first t
    try_else (add tenant_id granted >> commit) on_lost_race λ _. pure (some granted)

  abbrev pub establish_if_none : Option Toolset → Action ToolsetSession (Option Toolset)
  establish_if_none none = establish
  establish_if_none (some t) = pure none

  -- The first unit of work; `none` where the second is to follow.
  unfoldable pub first_unit : Action ToolsetWorld (Option Toolset)
  unfolding read
  first_unit =
      with_unit_of_work do found ← read (lookup_all_published tenant_id); establish_if_none found

  abbrev pub require_established : Option Toolset → Result Toolset
  require_established none = err (nexus NexusMcpError.toolset_conflict)
  require_established (some t) = ok t

  -- The second unit of work: the grants are added to the ones that are there.
  unfoldable pub extend_grants : Action ToolsetWorld Toolset
  unfolding read
  extend_grants = with_unit_of_work do
    found ← read (lookup_all_published tenant_id)
    t ← lift (require_established found)
    at ← outside (now ports)
    updated ← lift (
        replace_grants digests t t.revision (sorted_set (ids_of_grants t.grants ++ principal_ids))
          "system" at)
    save tenant_id updated
    commit
    pure updated

  abbrev pub or_extend : Option Toolset → Action ToolsetWorld Toolset
  or_extend (some t) = pure t
  or_extend none = extend_grants

  -- `EnsureAllPublishedToolset.execute`
  unfoldable pub ensure_all_published : Action ToolsetWorld Toolset
  ensure_all_published = do established ← first_unit; or_extend established
