-- ===== src/Execution.antt =====
-- `ToolExecution` and the retry decision of src/nexusmcp/modules/execution/domain.py. Times are
-- numbers of microseconds; `attempt_count` starts at 0 and only grows, so it is a natural number.
pub mod Attempt
pub mod Scope
pub mod Transitions
pub mod Disposition
pub mod Lifecycle
pub mod Retry
use nexus_mcp.Base.{
  ℕ, ◌+◌, String, Bool, true, false, not, ◌&&◌, ◌||◌, Option, none, some, List, [], ◌∷◌, is_some,
  is_none,
}
use nexus_mcp.Base.Int.{ℤ}
use nexus_mcp.Kinds.{ToolSideEffect, ExecutionErrorCategory, McpScopeType}
use nexus_mcp.Result.{Result, ok, ◌>>=◌, ◌>>◌, reject_if}
use nexus_mcp.Checks.{require_names}
use Scope.{check_scope}

pub data ExecutionStatus : Type 0 where
  planned running succeeded failed unknown cancelled : ExecutionStatus

abbrev pub is_planned : ExecutionStatus → Bool
is_planned ExecutionStatus.planned = true
is_planned _ = false

abbrev pub is_running : ExecutionStatus → Bool
is_running ExecutionStatus.running = true
is_running _ = false

abbrev pub is_succeeded : ExecutionStatus → Bool
is_succeeded ExecutionStatus.succeeded = true
is_succeeded _ = false

abbrev pub is_terminal : ExecutionStatus → Bool
is_terminal ExecutionStatus.planned = false
is_terminal ExecutionStatus.running = false
is_terminal _ = true

-- failed, unknown or cancelled
abbrev is_unsuccessful : ExecutionStatus → Bool
is_unsuccessful ExecutionStatus.failed = true
is_unsuccessful ExecutionStatus.unknown = true
is_unsuccessful ExecutionStatus.cancelled = true
is_unsuccessful _ = false

-- The value of the `StrEnum`.
abbrev pub status_value : ExecutionStatus → String
status_value ExecutionStatus.planned = "planned"
status_value ExecutionStatus.running = "running"
status_value ExecutionStatus.succeeded = "succeeded"
status_value ExecutionStatus.failed = "failed"
status_value ExecutionStatus.unknown = "unknown"
status_value ExecutionStatus.cancelled = "cancelled"

pub record ToolExecution : Type 0 where
  pub id : String
  pub tenant_id : String
  pub request_id : String
  pub trace_id : String
  pub principal_id : String
  pub tool_id : String
  pub tool_version_id : String
  pub tool_binding_id : String
  pub arguments_digest : String
  pub policy_version : String
  pub policy_reason_code : String
  pub side_effect : ToolSideEffect
  pub status : ExecutionStatus
  pub planned_at : ℕ
  pub approval_id : Option String
  pub credential_binding_id : Option String
  pub idempotency_key : Option String
  pub started_at : Option ℕ
  pub finished_at : Option ℕ
  pub error_code : Option String
  pub error_category : Option ExecutionErrorCategory
  pub attempt_count : ℕ
  pub mcp_scope_type : McpScopeType
  pub toolset_id : Option String
  pub toolset_revision : Option ℤ

-- The part of `__post_init__` that ties the status to the times and the error.
check_state :
    ExecutionStatus
    → Option ℕ
    → Option ℕ
    → Option String
    → Option ExecutionErrorCategory
    → Result (Unit {0})
check_state status started_at finished_at error_code error_category = do
  reject_if (is_planned status && (is_some started_at || is_some finished_at))
      "planned execution must not have start or finish time"
  reject_if (is_running status && is_none started_at) "running execution must have started_at"
  reject_if (is_terminal status && is_none finished_at) "terminal execution must have finished_at"
  reject_if
      ((is_planned status || is_running status) && (is_some error_code || is_some error_category))
      "non-terminal execution must not have error state"
  reject_if (is_succeeded status && (is_some error_code || is_some error_category))
      "succeeded execution must not have error state"
  reject_if (is_unsuccessful status && (is_none error_code || is_none error_category))
      "unsuccessful terminal execution must contain error state"

-- `ToolExecution(...)`: the constructor runs `__post_init__`.
unfoldable pub new_execution : ToolExecution → Result ToolExecution
unfolding check_state
new_execution e = do
  require_names (
      e.id ∷ e.tenant_id ∷ e.request_id ∷ e.trace_id ∷ e.principal_id ∷ e.tool_id
      ∷ e.tool_version_id ∷ e.tool_binding_id ∷ e.arguments_digest ∷ e.policy_version
      ∷ e.policy_reason_code ∷ [])
  check_state e.status e.started_at e.finished_at e.error_code e.error_category
  check_scope e.mcp_scope_type e.toolset_id e.toolset_revision
  ok e

-- `_require_running`
require_running : ToolExecution → Result (Unit {0})
require_running e =
    reject_if (not (is_running e.status)) "execution must be running before terminal transition"

-- `start`
unfoldable pub start : ToolExecution → ℕ → Result ToolExecution
unfolding new_execution
start e started_at = do
  reject_if (not (is_planned e.status)) "only planned execution can start"
  new_execution (record e { status = ExecutionStatus.running; started_at = some started_at })

-- `register_attempt`
unfoldable pub register_attempt : ToolExecution → Result ToolExecution
unfolding new_execution require_running
register_attempt e = do
  require_running e
  new_execution (record e { attempt_count = e.attempt_count + 1 })

-- `succeed`
unfoldable pub succeed : ToolExecution → ℕ → Result ToolExecution
unfolding new_execution require_running
succeed e finished_at = do
  require_running e
  new_execution (record e { status = ExecutionStatus.succeeded; finished_at = some finished_at })

-- `fail`
unfoldable pub fail : ToolExecution → String → ExecutionErrorCategory → ℕ → Result ToolExecution
unfolding new_execution require_running
fail e error_code category finished_at = do
  require_running e
  new_execution (record e {
    status = ExecutionStatus.failed;
    error_code = some error_code;
    error_category = some category;
    finished_at = some finished_at;
  })

-- `mark_unknown`
unfoldable pub mark_unknown : ToolExecution → String → ℕ → Result ToolExecution
unfolding new_execution require_running
mark_unknown e error_code finished_at = do
  require_running e
  new_execution (record e {
    status = ExecutionStatus.unknown;
    error_code = some error_code;
    error_category = some ExecutionErrorCategory.unknown;
    finished_at = some finished_at;
  })

-- `cancel`
unfoldable pub cancel : ToolExecution → ℕ → Result ToolExecution
unfolding new_execution
cancel e finished_at = do
  reject_if (not (is_planned e.status || is_running e.status))
      "only planned or running execution can be cancelled"
  new_execution (record e {
    status = ExecutionStatus.cancelled;
    error_code = some "execution_cancelled";
    error_category = some ExecutionErrorCategory.cancelled;
    finished_at = some finished_at;
  })
