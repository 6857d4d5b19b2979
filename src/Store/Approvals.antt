-- ===== src/Store/Approvals.antt =====
-- `InMemoryApprovalRepository` of src/nexusmcp/modules/approval/adapters/in_memory.py.
use nexus_mcp.Base.{String, not, Option, none, some, ◌==◌, is_some, if◌then◌else◌}
use nexus_mcp.Dict.{get, put}
use nexus_mcp.Errors.{value_error, nexus, NexusMcpError}
use nexus_mcp.Result.{ok, err}
use nexus_mcp.Action.{Action}
use nexus_mcp.Approval.{ApprovalRequest}
use nexus_mcp.Store.{Session}

abbrev pub of_tenant : String → Option ApprovalRequest → Option ApprovalRequest
of_tenant tenant_id none = none
of_tenant tenant_id (some a) = if a.tenant_id == tenant_id then some a else none

write : ApprovalRequest → Session → Session
write a s = record s { working = record s.working { approvals = put a.id a s.working.approvals } }

-- `add`
unfoldable pub add : String → ApprovalRequest → Action Session (Unit {0})
unfolding write
add tenant_id a s =
    if not (a.tenant_id == tenant_id)
    then (err (nexus NexusMcpError.tenant_boundary_violation), s)
    else if is_some (get a.id s.working.approvals)
    then (err (value_error "approval already exists"), s)
    else (ok tt, write a s)

-- `get_by_id`, and `get_for_update`, which calls it.
unfoldable pub get_by_id : String → String → Action Session (Option ApprovalRequest)
get_by_id tenant_id approval_id s =
    (ok (of_tenant tenant_id (get approval_id s.working.approvals)), s)

-- `save`
unfoldable pub save : String → ApprovalRequest → Action Session (Unit {0})
unfolding write
save tenant_id a s =
    if not (a.tenant_id == tenant_id)
    then (err (nexus NexusMcpError.tenant_boundary_violation), s)
    else if is_some (of_tenant tenant_id (get a.id s.working.approvals))
    then (ok tt, write a s)
    else (err (value_error "approval does not exist in tenant"), s)
