-- ===== src/Execution/Lifecycle/Plan.antt =====
-- `plan` and `start_attempt` of src/nexusmcp/modules/execution/lifecycle.py.
use nexus_mcp.Base.{ℕ, String, Option, none, some, not, ◌==◌, if◌then◌else◌}
use nexus_mcp.Base.Int.{ℤ}
use nexus_mcp.Kinds.{ToolSideEffect, McpScopeType}
use nexus_mcp.Errors.{nexus, NexusMcpError}
use nexus_mcp.Action.{Action, pure, raise, raise_if, lift, ◌>>=◌, ◌>>◌, try_else}
use nexus_mcp.Context.{ActorContext}
use nexus_mcp.Audit.{AuditOutcome}
use nexus_mcp.Approval.Consume.{consume_locked_approval, commit_expiry}
use nexus_mcp.Execution.{
  ToolExecution, ExecutionStatus, is_running, new_execution, start, register_attempt,
}
use nexus_mcp.Execution.Attempt.{ExecutionAttempt, AttemptStatus, new_attempt}
use nexus_mcp.Store.{Ports, World, Session, now, new_id, outside, with_unit_of_work, commit}
use nexus_mcp.Store.Executions
use nexus_mcp.Store.Attempts
use nexus_mcp.Store.Audits
use nexus_mcp.Execution.Lifecycle.Events.{execution_audit}

pub record PlanExecutionCommand : Type 0 where
  pub context : ActorContext
  pub principal_id : String
  pub tool_id : String
  pub tool_version_id : String
  pub tool_binding_id : String
  pub arguments_digest : String
  pub policy_version : String
  pub policy_reason_code : String
  pub side_effect : ToolSideEffect
  pub approval_id : Option String
  pub credential_binding_id : Option String
  pub idempotency_key : Option String
  pub mcp_scope_type : McpScopeType
  pub toolset_id : Option String
  pub toolset_revision : Option ℤ

-- The error of a reused key, by the status of the execution that holds it.
reuse_error : ExecutionStatus → String → NexusMcpError
reuse_error ExecutionStatus.planned id = NexusMcpError.idempotency_in_progress id
reuse_error ExecutionStatus.running id = NexusMcpError.idempotency_in_progress id
reuse_error ExecutionStatus.succeeded id = NexusMcpError.idempotency_already_completed id
reuse_error ExecutionStatus.unknown id = NexusMcpError.idempotency_outcome_unknown id
reuse_error ExecutionStatus.failed id = NexusMcpError.idempotency_previous_failed id
reuse_error ExecutionStatus.cancelled id = NexusMcpError.idempotency_previous_failed id

-- `_raise_idempotency_reuse`: it raises on every path.
unfoldable pub idempotency_reuse : ToolExecution → String → NexusMcpError
unfolding reuse_error
idempotency_reuse e arguments_digest =
    if not (e.arguments_digest == arguments_digest)
    then NexusMcpError.idempotency_conflict e.id
    else reuse_error e.status e.id

unfoldable pub reject_existing : Option ToolExecution → String → Action Session (Unit {0})
unfolding idempotency_reuse
reject_existing none arguments_digest = pure tt
reject_existing (some e) arguments_digest = raise (nexus (idempotency_reuse e arguments_digest))

-- The block under `if command.idempotency_key is not None`.
unfoldable pub reject_reuse : Option String → PlanExecutionCommand → Action Session (Unit {0})
unfolding reject_existing
reject_reuse none command = pure tt
reject_reuse (some key) command = do
  existing ←
      Executions.get_by_idempotency_key command.context.tenant_id command.principal_id
        command.tool_version_id key
  reject_existing existing command.arguments_digest

-- The block under `if command.approval_id is not None`.
unfoldable pub use_approval : Option String → PlanExecutionCommand → ℕ → Action Session (Unit {0})
use_approval none command at = pure tt
use_approval (some approval_id) command at =
    try_else
      (consume_locked_approval
        (record {
          context = command.context;
          approval_id = approval_id;
          call = record {
            principal_id = command.principal_id;
            tool_version_id = command.tool_version_id;
            arguments_digest = command.arguments_digest;
            policy_version = command.policy_version;
            idempotency_key = command.idempotency_key;
          };
        })
        at)
      commit_expiry λ consumed. pure tt

-- The execution that `plan` builds, before `start`.
unfoldable pub planned : PlanExecutionCommand → String → ℕ → ToolExecution
planned command id at = record {
  id = id;
  tenant_id = command.context.tenant_id;
  request_id = command.context.request_id;
  trace_id = command.context.trace_id;
  principal_id = command.principal_id;
  tool_id = command.tool_id;
  tool_version_id = command.tool_version_id;
  tool_binding_id = command.tool_binding_id;
  arguments_digest = command.arguments_digest;
  policy_version = command.policy_version;
  policy_reason_code = command.policy_reason_code;
  side_effect = command.side_effect;
  status = ExecutionStatus.planned;
  planned_at = at;
  approval_id = command.approval_id;
  credential_binding_id = command.credential_binding_id;
  idempotency_key = command.idempotency_key;
  started_at = none;
  finished_at = none;
  error_code = none;
  error_category = none;
  attempt_count = 0;
  mcp_scope_type = command.mcp_scope_type;
  toolset_id = command.toolset_id;
  toolset_revision = command.toolset_revision;
}

-- `execution is None`
unfoldable pub require_execution : Option ToolExecution → Action Session ToolExecution
require_execution none = raise (nexus NexusMcpError.tool_execution_not_found)
require_execution (some e) = pure e

-- The new attempt of an execution that counts it.
unfoldable pub numbered_attempt : String → String → ToolExecution → ℕ → String → ExecutionAttempt
numbered_attempt tenant_id execution_id counted at id = record {
  id = id;
  tenant_id = tenant_id;
  execution_id = execution_id;
  attempt_number = counted.attempt_count;
  status = AttemptStatus.running;
  started_at = at;
  finished_at = none;
  error_code = none;
  error_category = none;
  upstream_status = none;
}

module _ (ports : Ports) where
  -- The unit of work of `plan`.
  unfoldable pub plan_body : PlanExecutionCommand → ToolExecution → ℕ → Action Session (Unit {0})
  plan_body command execution at = do
    reject_reuse command.idempotency_key command
    use_approval command.approval_id command at
    Executions.add command.context.tenant_id execution
    event ← execution_audit ports execution AuditOutcome.allowed at
    Audits.append event
    commit

  -- `plan`
  unfoldable pub plan : PlanExecutionCommand → Action World ToolExecution
  plan command = do
    at ← now ports
    id ← new_id ports
    draft ← lift (new_execution (planned command id at))
    execution ← lift (start draft at)
    with_unit_of_work (plan_body command execution at)
    pure execution

  -- The unit of work of `start_attempt`, once the execution has been read.
  unfoldable pub start_found : String → String → ℕ → ToolExecution → Action Session ExecutionAttempt
  start_found tenant_id execution_id at execution = do
    raise_if (not (is_running execution.status)) (nexus NexusMcpError.invalid_execution_state)
    counted ← lift (register_attempt execution)
    id ← outside (new_id ports)
    attempt ← lift (new_attempt (numbered_attempt tenant_id execution_id counted at id))
    Executions.save tenant_id counted
    Attempts.add tenant_id attempt
    commit
    pure attempt

  -- `start_attempt`
  unfoldable pub start_attempt : String → String → Action World ExecutionAttempt
  start_attempt tenant_id execution_id = do
    at ← now ports
    with_unit_of_work do
      found ← Executions.get_by_id tenant_id execution_id
      execution ← require_execution found
      start_found tenant_id execution_id at execution
