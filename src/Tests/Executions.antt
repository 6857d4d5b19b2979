-- ===== src/Tests/Executions.antt =====
-- An execution through its life.
use nexus_mcp.Execution.Attempt.{ExecutionAttempt, AttemptStatus, new_attempt}
use nexus_mcp.Execution.Attempt.Ending.{
  End, end_attempt, ended, end_attempt-ok, end_attempt_refused,
}
use nexus_mcp.Execution.Attempt.Ending
use nexus_mcp.Base.{◌≡◌, none, refl, is_blank, some}
use nexus_mcp.Kinds.{ToolSideEffect, McpScopeType}
use nexus_mcp.Result.{ok}
use nexus_mcp.Checks.{require_names}
use nexus_mcp.Execution.{ToolExecution, ExecutionStatus, new_execution, start}
use nexus_mcp.Execution.Scope.{check_scope}
use nexus_mcp.Execution.Transitions.{Move, Edge, move, moved, IsValid, move-ok, move-Edge}

abbrev draft : ToolExecution
draft = record {
  id = "execution";
  tenant_id = "tenant";
  request_id = "request";
  trace_id = "trace";
  principal_id = "agent";
  tool_id = "tool";
  tool_version_id = "version";
  tool_binding_id = "binding";
  arguments_digest = "digest";
  policy_version = "1";
  policy_reason_code = "allowed";
  side_effect = ToolSideEffect.read_only;
  status = ExecutionStatus.planned;
  planned_at = 1;
  approval_id = none;
  credential_binding_id = none;
  idempotency_key = none;
  started_at = none;
  finished_at = none;
  error_code = none;
  error_category = none;
  attempt_count = 0;
  mcp_scope_type = McpScopeType.root;
  toolset_id = none;
  toolset_revision = none;
}

draft-IsValid : IsValid draft
unfolding new_execution require_names check_scope is_blank
draft-IsValid = refl

abbrev running : ToolExecution
running = moved (Move.starting 2) draft

move-ok_example : (move (Move.starting 2) draft ≡ ok running) × IsValid running
move-ok_example = move-ok (Move.starting 2) draft draft-IsValid refl

started : move (Move.starting 2) draft ≡ ok running
unfolding move start new_execution require_names check_scope is_blank
started = refl

move-Edge_example : Edge ExecutionStatus.planned ExecutionStatus.running
move-Edge_example = move-Edge (Move.starting 2) draft running started

abbrev first : ExecutionAttempt
first = record {
  id = "attempt";
  tenant_id = "tenant";
  execution_id = "execution";
  attempt_number = 1;
  status = AttemptStatus.running;
  started_at = 2;
  finished_at = none;
  error_code = none;
  error_category = none;
  upstream_status = none;
}

first-IsValid : Ending.IsValid first
unfolding new_attempt require_names is_blank
first-IsValid = refl

end_attempt-ok_example :
    (end_attempt (End.succeeding 3 (some 200)) first
      ≡ ok (ended (End.succeeding 3 (some 200)) first))
    × Ending.IsValid (ended (End.succeeding 3 (some 200)) first)
end_attempt-ok_example = end_attempt-ok (End.succeeding 3 (some 200)) first first-IsValid refl refl
