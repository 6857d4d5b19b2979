-- ===== src/Tests/Requests.antt =====
-- An approval that is requested and read again.
use nexus_mcp.Base.{◌≡◌, refl, is_blank, String_discrete, strip_lower, underscores, same_codes}
use nexus_mcp.Dict.{get, put}
use nexus_mcp.Approval.{new_approval}
use nexus_mcp.Approval.UseCases.{request_approval, request_event, GetApprovalQuery, get_approval}
use nexus_mcp.Store.{now, new_id, with_unit_of_work, outside, commit}
use nexus_mcp.System.{initial}
use nexus_mcp.Action.{◌>>=◌}
use nexus_mcp.Checks.{require_names}
use nexus_mcp.Audit.{new_evidence, new_event, scope_metadata}
use nexus_mcp.Store.Approvals
use nexus_mcp.Store.Audits
use nexus_mcp.Tests.Calls.{clocks, agent, asking, pending, world_1}
use nexus_mcp.Result.{ok}
use nexus_mcp.System.Requested.{get_approval-request_approval}

abbrev looking : GetApprovalQuery
looking = record { context = agent; approval_id = "approval" }

requesting : request_approval clocks 500 asking initial ≡ (ok pending, world_1)
unfolding ◌>>=◌ now new_id new_approval require_names is_blank with_unit_of_work Approvals.add
    String_discrete get put request_approval request_event outside new_evidence new_event
    scope_metadata strip_lower underscores same_codes Audits.append commit
requesting = refl

get_approval-request_approval_example : get_approval looking world_1 ≡ (ok pending, world_1)
get_approval-request_approval_example =
    get_approval-request_approval clocks 500 asking looking initial world_1 pending requesting refl
      refl
