-- ===== src/Tests/Calls.antt =====
-- A call that needs an approval, from the request to its execution, on concrete ports.
use nexus_mcp.Base.{
  ℕ, zero, suc, ◌+◌, String, true, none, some, List, [], ◌∷◌, ◌≡◌, refl, is_blank, String_discrete,
  strip_lower, underscores, same_codes,
}
use nexus_mcp.Kinds.{ToolSideEffect, McpScopeType}
use nexus_mcp.Context.{ActorContext}
use nexus_mcp.Dict.{get, put}
use nexus_mcp.Approval.{ApprovalRequest, ApprovalStatus, new_approval}
use nexus_mcp.Approval.UseCases.{
  RequestApprovalCommand, DecideApprovalCommand, request_approval, request_event,
}
use nexus_mcp.Execution.Lifecycle.{PlanExecutionCommand}
use nexus_mcp.Store.{Ports, now, new_id, with_unit_of_work, outside, commit, World, empty}
use nexus_mcp.System.{Op, step, initial}
use nexus_mcp.Action.{◌>>=◌}
use nexus_mcp.Checks.{require_names}
use nexus_mcp.Audit.{
  new_evidence, new_event, scope_metadata, AuditEvent, AuditAction, AuditOutcome, MetadataValue,
}
use nexus_mcp.Base.Int.{pos}
use nexus_mcp.Store.Approvals
use nexus_mcp.Store.Audits

abbrev name : ℕ → String
name zero = "approval"
name (suc zero) = "event_1"
name (suc (suc zero)) = "event_2"
name (suc (suc (suc zero))) = "execution"
name _ = "event_3"

abbrev pub clocks : Ports
clocks = record { times = λ n. 1000 + n; ids = name }

abbrev pub agent : ActorContext
agent = record {
  request_id = "request";
  trace_id = "trace";
  tenant_id = "tenant";
  principal_id = "agent";
  authn_method = "key";
  principal_type = "agent_service";
}

abbrev pub asking : RequestApprovalCommand
asking = record {
  context = agent;
  principal_id = "agent";
  tool_id = "tool";
  tool_version_id = "version";
  arguments_digest = "digest";
  policy_version = "1";
  idempotency_key = some "key";
  policy_reason_code = "needs_approval";
  mcp_scope_type = "root";
  toolset_id = none;
  toolset_revision = none;
}

abbrev pub deciding : DecideApprovalCommand
deciding = record {
  context = record agent { principal_id = "operator" };
  approval_id = "approval";
  approved = true;
}

abbrev pub call : PlanExecutionCommand
call = record {
  context = agent;
  principal_id = "agent";
  tool_id = "tool";
  tool_version_id = "version";
  tool_binding_id = "binding";
  arguments_digest = "digest";
  policy_version = "1";
  policy_reason_code = "needs_approval";
  side_effect = ToolSideEffect.non_idempotent_write;
  approval_id = some "approval";
  credential_binding_id = none;
  idempotency_key = some "key";
  mcp_scope_type = McpScopeType.root;
  toolset_id = none;
  toolset_revision = none;
}

abbrev pub calls : List Op
calls = Op.request 500 asking ∷ Op.decide deciding ∷ Op.planning call ∷ []

abbrev pub pending : ApprovalRequest
pending = record {
  id = "approval";
  tenant_id = "tenant";
  principal_id = "agent";
  tool_id = "tool";
  tool_version_id = "version";
  arguments_digest = "digest";
  policy_version = "1";
  status = ApprovalStatus.pending;
  requested_at = 1000;
  expires_at = 1500;
  idempotency_key = some "key";
  decided_by = none;
  decided_at = none;
  consumed_at = none;
}

abbrev pub requested : AuditEvent
requested = record {
  id = "event_1";
  tenant_id = "tenant";
  actor_id = "agent";
  action = AuditAction.tool_call;
  resource_type = "tool_version";
  resource_id = "version";
  outcome = AuditOutcome.approval_required;
  request_id = "request";
  trace_id = "trace";
  occurred_at = 1000;
  arguments_digest = some "digest";
  policy_version = some "1";
  reason_code = some "needs_approval";
  execution_id = none;
  metadata = some (
      ("mcp_scope_type", MetadataValue.text "root")
      ∷ ("scope_reason_code", MetadataValue.text "granted_toolset_union")
      ∷ []);
}

abbrev pub planned_event : AuditEvent
planned_event = record {
  id = "event_3";
  tenant_id = "tenant";
  actor_id = "agent";
  action = AuditAction.tool_call;
  resource_type = "tool_version";
  resource_id = "version";
  outcome = AuditOutcome.allowed;
  request_id = "request";
  trace_id = "trace";
  occurred_at = 1002;
  arguments_digest = some "digest";
  policy_version = some "1";
  reason_code = some "needs_approval";
  execution_id = some "execution";
  metadata = some (
      ("side_effect", MetadataValue.text "non_idempotent_write")
      ∷ ("execution_status", MetadataValue.text "running")
      ∷ ("attempt_count", MetadataValue.number (pos 0))
      ∷ ("mcp_scope_type", MetadataValue.text "root")
      ∷ ("scope_reason_code", MetadataValue.text "granted_toolset_union")
      ∷ []);
}

abbrev pub world_1 : World
world_1 = record {
  stores = record empty {
    approvals = ("approval", pending) ∷ [];
    audits = ("event_1", requested) ∷ [];
  };
  ticks = 1;
  issued = 2;
}

pub world_1_lem : step clocks (Op.request 500 asking) initial ≡ world_1
unfolding step ◌>>=◌ now new_id new_approval require_names is_blank with_unit_of_work Approvals.add
    String_discrete get put request_approval request_event outside new_evidence new_event
    scope_metadata strip_lower underscores same_codes Audits.append commit
world_1_lem = refl
