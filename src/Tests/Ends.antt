-- ===== src/Tests/Ends.antt =====
-- Units of work that raise, and one that finishes an execution.
use nexus_mcp.Base.{
  ◌+◌, none, some, [], ◌∷◌, ◌≡◌, refl, arith, String_discrete, is_blank, strip_lower, underscores,
  same_codes,
}
use nexus_mcp.Base.Int.{pos}
use nexus_mcp.Dict.{get, put}
use nexus_mcp.Kinds.{ToolSideEffect, McpScopeType}
use nexus_mcp.Errors.{nexus, NexusMcpError}
use nexus_mcp.Result.{ok, err}
use nexus_mcp.Action.{◌>>=◌, try_else}
use nexus_mcp.Checks.{require_names}
use nexus_mcp.Audit.{
  AuditEvent, AuditAction, AuditOutcome, MetadataValue, new_event, new_evidence, scope_metadata,
}
use nexus_mcp.Approval.Consume.{consume_locked_approval, require_found, commit_expiry}
use nexus_mcp.Execution.{ToolExecution, ExecutionStatus, new_execution, start, succeed}
use nexus_mcp.Execution.Scope.{check_scope}
use nexus_mcp.Execution.Lifecycle.{
  PlanExecutionCommand, plan, plan_body, planned, reject_reuse, use_approval, execution_audit,
  audit_reason, finish, finish_found, require_execution, terminal_execution, terminal_outcome,
}
use nexus_mcp.Store.{Ports, World, empty, now, new_id, outside, commit, with_unit_of_work}
use nexus_mcp.Store.Approvals
use nexus_mcp.Store.Executions
use nexus_mcp.Store.Audits
use nexus_mcp.System.{initial}
use nexus_mcp.System.Writes.{IsSound}
use nexus_mcp.System.Atomic.{SameRecords}
use nexus_mcp.System.Atomic.Planned.{plan-raised}
use nexus_mcp.System.Atomic.Finished.{finish-raised}
use nexus_mcp.System.Stored.{Finished, finish-Finished}

abbrev pub clocks : Ports
clocks = record { times = λ n. 1000 + n; ids = λ n. "id" }

abbrev call : PlanExecutionCommand
call = record {
  context = record {
    request_id = "request";
    trace_id = "trace";
    tenant_id = "tenant";
    principal_id = "agent";
    authn_method = "key";
    principal_type = "agent_service";
  };
  principal_id = "agent";
  tool_id = "tool";
  tool_version_id = "version";
  tool_binding_id = "binding";
  arguments_digest = "digest";
  policy_version = "1";
  policy_reason_code = "allowed";
  side_effect = ToolSideEffect.read_only;
  approval_id = some "missing";
  credential_binding_id = none;
  idempotency_key = none;
  mcp_scope_type = McpScopeType.root;
  toolset_id = none;
  toolset_revision = none;
}

plan_missing :
    plan clocks call initial
    ≡ (err (nexus NexusMcpError.approval_not_found), record initial { ticks = 1; issued = 1 })
unfolding plan planned now new_id new_execution require_names is_blank check_scope start
    with_unit_of_work plan_body reject_reuse use_approval consume_locked_approval
    Approvals.get_by_id get require_found commit_expiry try_else ◌>>=◌
plan_missing = refl

plan-raised_example : SameRecords empty empty
plan-raised_example =
    plan-raised clocks call initial (record initial { ticks = 1; issued = 1 })
      (nexus NexusMcpError.approval_not_found) plan_missing

finish_missing :
    finish clocks "tenant" "missing" ExecutionStatus.succeeded none none initial
    ≡ (err (nexus NexusMcpError.tool_execution_not_found), record initial { ticks = 1 })
unfolding finish now with_unit_of_work Executions.get_by_id get require_execution ◌>>=◌
finish_missing = refl

finish-raised_example : SameRecords empty empty
finish-raised_example =
    finish-raised clocks "tenant" "missing" ExecutionStatus.succeeded none none initial
      (record initial { ticks = 1 }) (nexus NexusMcpError.tool_execution_not_found) finish_missing

abbrev pub running : ToolExecution
running = record {
  id = "execution";
  tenant_id = "tenant";
  request_id = "request";
  trace_id = "trace";
  principal_id = "agent";
  tool_id = "tool";
  tool_version_id = "version";
  tool_binding_id = "binding";
  arguments_digest = "digest";
  policy_version = "1";
  policy_reason_code = "allowed";
  side_effect = ToolSideEffect.read_only;
  status = ExecutionStatus.running;
  planned_at = 1;
  approval_id = none;
  credential_binding_id = none;
  idempotency_key = none;
  started_at = some 1;
  finished_at = none;
  error_code = none;
  error_category = none;
  attempt_count = 1;
  mcp_scope_type = McpScopeType.root;
  toolset_id = none;
  toolset_revision = none;
}

abbrev pub busy : World
busy = record {
  stores = record empty { executions = ("execution", running) ∷ [] };
  ticks = 7;
  issued = 0;
}

busy-IsSound : IsSound busy
unfolding get
busy-IsSound = record {
  execution_key = λ i e p. ground arith;
  approval_key = λ i a p. ground arith;
  approval_used = λ i e k p q. ground arith;
  approval_backs = λ i e k a p q r. ground arith;
  single_use = λ i j e f k p q x y. ground arith;
  single_key = λ i j e f k p q x. ground arith;
}

abbrev done : ToolExecution
done = record running { status = ExecutionStatus.succeeded; finished_at = some 1007 }

abbrev finished_event : AuditEvent
finished_event = record {
  id = "id";
  tenant_id = "tenant";
  actor_id = "agent";
  action = AuditAction.tool_call;
  resource_type = "tool_version";
  resource_id = "version";
  outcome = AuditOutcome.succeeded;
  request_id = "request";
  trace_id = "trace";
  occurred_at = 1007;
  arguments_digest = some "digest";
  policy_version = some "1";
  reason_code = some "allowed";
  execution_id = some "execution";
  metadata = some (
      ("side_effect", MetadataValue.text "read_only")
      ∷ ("execution_status", MetadataValue.text "succeeded")
      ∷ ("attempt_count", MetadataValue.number (pos 1))
      ∷ ("mcp_scope_type", MetadataValue.text "root")
      ∷ ("scope_reason_code", MetadataValue.text "granted_toolset_union")
      ∷ []);
}

abbrev idle : World
idle = record {
  stores = record empty {
    executions = ("execution", done) ∷ [];
    audits = ("id", finished_event) ∷ [];
  };
  ticks = 8;
  issued = 1;
}

finished_lem :
    finish clocks "tenant" "execution" ExecutionStatus.succeeded none none busy ≡ (ok done, idle)
unfolding finish now with_unit_of_work Executions.get_by_id get put String_discrete
    require_execution finish_found terminal_execution terminal_outcome succeed new_execution
    require_names is_blank check_scope Executions.save execution_audit outside new_id new_evidence
    new_event scope_metadata strip_lower underscores same_codes audit_reason Audits.append commit
    ◌>>=◌
finished_lem = refl

finish-Finished_example :
    Finished clocks "execution" ExecutionStatus.succeeded none none busy done idle
finish-Finished_example =
    finish-Finished clocks "tenant" "execution" ExecutionStatus.succeeded none none busy idle done
      busy-IsSound finished_lem
