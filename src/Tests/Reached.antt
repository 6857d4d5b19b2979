-- ===== src/Tests/Reached.antt =====
-- What the calls of Tests/Calls reach.
use nexus_mcp.Base.{
  ap, ◌∙◌, String, none, some, [], ◌∷◌, ◌≡◌, refl, is_blank, String_discrete, strip_lower,
  underscores, same_codes,
}
use nexus_mcp.Dict.{get, put, find, values}
use nexus_mcp.Approval.{ApprovalRequest, ApprovalStatus, new_approval, approve, consume}
use nexus_mcp.Approval.UseCases.{decide_approval, decide_found, decide_in_time, decision_event}
use nexus_mcp.Execution.{ToolExecution, ExecutionStatus, new_execution, start}
use nexus_mcp.Execution.Lifecycle.{
  plan, planned, plan_body, reject_reuse, reject_existing, use_approval, execution_audit,
  audit_reason,
}
use nexus_mcp.Store.{now, new_id, with_unit_of_work, outside, commit, World, empty, Stores}
use nexus_mcp.System.{Op, step, run}
use nexus_mcp.System.Reachable.{
  reached, approval_single_use, execution_is_approved, idempotency_key_single,
}
use nexus_mcp.Action.{◌>>=◌, try_else}
use nexus_mcp.Checks.{require_names}
use nexus_mcp.Audit.{new_evidence, new_event, scope_metadata, AuditEvent, AuditAction, AuditOutcome}
use nexus_mcp.Approval.Consume.{
  require_found, require_pending_decision, consume_locked_approval, require_consumable_status,
  consume_in_time, require_matching_call,
}
use nexus_mcp.Execution.Scope.{check_scope}
use nexus_mcp.Store.Approvals
use nexus_mcp.Store.Executions
use nexus_mcp.Store.Audits
use nexus_mcp.System.Invariant.{SameKey, Backs}
use nexus_mcp.Tests.Calls.{
  clocks, deciding, call, calls, pending, requested, planned_event, world_1, world_1_lem,
}

abbrev stored : ToolExecution
unfolding planned
stored = record (planned call "execution" 1002) {
  status = ExecutionStatus.running;
  started_at = some 1002;
}

abbrev approved : ApprovalRequest
approved = record pending {
  status = ApprovalStatus.approved;
  decided_by = some "operator";
  decided_at = some 1001;
}

abbrev decided : AuditEvent
decided = record requested {
  id = "event_2";
  actor_id = "operator";
  action = AuditAction.approval_decision;
  resource_type = "approval";
  resource_id = "approval";
  outcome = AuditOutcome.allowed;
  occurred_at = 1001;
  reason_code = some "approval_approved";
  metadata = none;
}

abbrev world_2 : World
world_2 = record {
  stores = record empty {
    approvals = ("approval", approved) ∷ [];
    audits = ("event_1", requested) ∷ ("event_2", decided) ∷ [];
  };
  ticks = 2;
  issued = 3;
}

world_2_lem : step clocks (Op.decide deciding) world_1 ≡ world_2
unfolding step ◌>>=◌ now new_id new_approval require_names is_blank with_unit_of_work
    Approvals.get_by_id Approvals.save String_discrete get put decide_approval decide_found
    decide_in_time approve require_found require_pending_decision decision_event outside new_event
    Audits.append commit
world_2_lem = refl

abbrev world_3 : World
world_3 = record {
  stores = record world_2.stores {
    executions = ("execution", stored) ∷ [];
    approvals =
        ("approval", record approved { status = ApprovalStatus.consumed; consumed_at = some 1002 })
        ∷ [];
    audits = ("event_1", requested) ∷ ("event_2", decided) ∷ ("event_3", planned_event) ∷ [];
  };
  ticks = 3;
  issued = 5;
}

world_3_lem : step clocks (Op.planning call) world_2 ≡ world_3
unfolding step ◌>>=◌ now new_id require_names is_blank with_unit_of_work Approvals.get_by_id
    Approvals.save String_discrete get put plan planned new_execution check_scope start plan_body
    reject_reuse Executions.get_by_idempotency_key reject_existing find values use_approval
    consume_locked_approval require_found require_consumable_status consume_in_time
    require_matching_call consume new_approval try_else Executions.add execution_audit outside
    new_evidence scope_metadata new_event strip_lower underscores same_codes audit_reason
    Audits.append commit
world_3_lem = refl

reached_lem : reached clocks calls ≡ world_3.stores
unfolding run
reached_lem =
    ap (λ (w : World). w.stores)
      (ap (step clocks (Op.planning call))
          (ap (step clocks (Op.decide deciding)) world_1_lem ∙ world_2_lem)
        ∙ world_3_lem)

abbrev stored_id : String
stored_id = "execution"

found : get "execution" world_3.stores.executions ≡ some stored
unfolding get String_discrete planned
found = refl

stored_lem : get "execution" (reached clocks calls).executions ≡ some stored
stored_lem = ap (λ (s : Stores). get "execution" s.executions) reached_lem ∙ found

stored_approval : stored.approval_id ≡ some "approval"
unfolding stored planned
stored_approval = refl

same_key : SameKey stored stored "key"
unfolding stored planned
same_key = record {
  key_left = refl;
  key_right = refl;
  tenant = refl;
  principal = refl;
  version = refl;
}

execution_is_approved_example :
    (a : ApprovalRequest) × (get "approval" (reached clocks calls).approvals ≡ some a)
    × (a.status ≡ ApprovalStatus.consumed)
    × Backs a stored
execution_is_approved_example =
    execution_is_approved clocks calls "execution" stored "approval" stored_lem stored_approval

approval_single_use_example : stored_id ≡ stored_id
approval_single_use_example =
    approval_single_use clocks calls stored_id stored_id stored stored "approval" stored_lem
      stored_lem stored_approval stored_approval

idempotency_key_single_example : stored_id ≡ stored_id
idempotency_key_single_example =
    idempotency_key_single clocks calls stored_id stored_id stored stored "key" stored_lem
      stored_lem same_key
