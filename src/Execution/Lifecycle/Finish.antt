-- ===== src/Execution/Lifecycle/Finish.antt =====
-- `_finish`, `_finish_attempt` and the methods that call them, of
-- src/nexusmcp/modules/execution/lifecycle.py.
use nexus_mcp.Base.{ℕ, String, Bool, true, false, Option, none, some, not, if◌then◌else◌}
use nexus_mcp.Kinds.{ExecutionErrorCategory}
use nexus_mcp.Errors.{nexus, value_error, NexusMcpError}
use nexus_mcp.Result.{Result, err}
use nexus_mcp.Action.{Action, pure, raise, raise_if, lift, ◌>>=◌, ◌>>◌}
use nexus_mcp.Audit.{AuditOutcome}
use nexus_mcp.Execution.{ToolExecution, ExecutionStatus, is_running}
use nexus_mcp.Execution
use nexus_mcp.Execution.Attempt.{ExecutionAttempt, AttemptStatus}
use nexus_mcp.Execution.Attempt
use nexus_mcp.Store.{Ports, World, Session, now, with_unit_of_work, commit}
use nexus_mcp.Store.Executions
use nexus_mcp.Store.Attempts
use nexus_mcp.Store.Audits
use nexus_mcp.Execution.Lifecycle.Events.{execution_audit}
use nexus_mcp.Execution.Lifecycle.Plan.{require_execution}

-- The `if`/`elif` chain of `_finish` on the wanted status: the terminal execution.
unfoldable pub terminal_execution :
    ExecutionStatus
    → Option String
    → Option ExecutionErrorCategory
    → ToolExecution
    → ℕ
    → Result ToolExecution
terminal_execution ExecutionStatus.succeeded code category e at = Execution.succeed e at
terminal_execution ExecutionStatus.unknown none category e at =
    err (value_error "unknown execution requires error code")
terminal_execution ExecutionStatus.unknown (some code) category e at =
    Execution.mark_unknown e code at
terminal_execution ExecutionStatus.cancelled code category e at = Execution.cancel e at
terminal_execution _ (some code) (some category) e at = Execution.fail e code category at
terminal_execution _ _ _ e at =
    err (value_error "failed execution requires error code and category")

-- The outcome that the same chain sets.
unfoldable pub terminal_outcome : ExecutionStatus → AuditOutcome
terminal_outcome ExecutionStatus.succeeded = AuditOutcome.succeeded
terminal_outcome ExecutionStatus.unknown = AuditOutcome.unknown
terminal_outcome ExecutionStatus.cancelled = AuditOutcome.cancelled
terminal_outcome _ = AuditOutcome.failed

-- The `if`/`elif` chain of `_finish_attempt`.
unfoldable pub terminal_attempt :
    AttemptStatus
    → Option String
    → Option ExecutionErrorCategory
    → Option ℕ
    → ExecutionAttempt
    → ℕ
    → Result ExecutionAttempt
terminal_attempt AttemptStatus.succeeded code category upstream a at = Attempt.succeed a at upstream
terminal_attempt AttemptStatus.cancelled code category upstream a at = Attempt.cancel a at
terminal_attempt AttemptStatus.unknown (some code) (some category) upstream a at =
    Attempt.fail a code category at true upstream
terminal_attempt _ (some code) (some category) upstream a at =
    Attempt.fail a code category at false upstream
terminal_attempt _ _ _ upstream a at =
    err (value_error "failed attempt requires error code and category")

-- `attempt is None`
unfoldable pub require_attempt : Option ExecutionAttempt → Action Session ExecutionAttempt
require_attempt none = raise (nexus NexusMcpError.execution_attempt_not_found)
require_attempt (some a) = pure a

-- The unit of work of `_finish_attempt`, once the attempt has been read.
unfoldable pub finish_attempt_found :
    String
    → AttemptStatus
    → Option String
    → Option ExecutionErrorCategory
    → Option ℕ
    → ℕ
    → ExecutionAttempt
    → Action Session ExecutionAttempt
finish_attempt_found tenant_id status error_code category upstream_status at attempt = do
  raise_if (not (Attempt.is_running attempt.status)) (nexus NexusMcpError.invalid_execution_state)
  terminal ← lift (terminal_attempt status error_code category upstream_status attempt at)
  Attempts.save tenant_id terminal
  commit
  pure terminal

module _ (ports : Ports) where
  -- The unit of work of `_finish`, once the execution has been read.
  unfoldable pub finish_found :
      String
      → ExecutionStatus
      → Option String
      → Option ExecutionErrorCategory
      → ℕ
      → ToolExecution
      → Action Session ToolExecution
  finish_found tenant_id status error_code category at execution = do
    raise_if (not (is_running execution.status)) (nexus NexusMcpError.invalid_execution_state)
    terminal ← lift (terminal_execution status error_code category execution at)
    Executions.save tenant_id terminal
    event ← execution_audit ports terminal (terminal_outcome status) at
    Audits.append event
    commit
    pure terminal

  -- `_finish`
  unfoldable pub finish :
      String
      → String
      → ExecutionStatus
      → Option String
      → Option ExecutionErrorCategory
      → Action World ToolExecution
  finish tenant_id execution_id status error_code category = do
    at ← now ports
    with_unit_of_work do
      found ← Executions.get_by_id tenant_id execution_id
      execution ← require_execution found
      finish_found tenant_id status error_code category at execution

  -- `succeed`
  unfoldable pub succeed_execution : String → String → Action World ToolExecution
  succeed_execution tenant_id execution_id =
      finish tenant_id execution_id ExecutionStatus.succeeded none none

  -- `fail`
  unfoldable pub fail_execution :
      String → String → String → ExecutionErrorCategory → Bool → Action World ToolExecution
  fail_execution tenant_id execution_id error_code category outcome_unknown =
      finish tenant_id execution_id
        (if outcome_unknown then ExecutionStatus.unknown else ExecutionStatus.failed)
        (some error_code) (some category)

  -- `cancel`
  unfoldable pub cancel_execution : String → String → Action World ToolExecution
  cancel_execution tenant_id execution_id =
      finish tenant_id execution_id ExecutionStatus.cancelled none none

  -- `_finish_attempt`
  unfoldable pub finish_attempt :
      String
      → String
      → AttemptStatus
      → Option String
      → Option ExecutionErrorCategory
      → Option ℕ
      → Action World ExecutionAttempt
  finish_attempt tenant_id attempt_id status error_code category upstream_status = do
    at ← now ports
    with_unit_of_work do
      found ← Attempts.get_for_update tenant_id attempt_id
      attempt ← require_attempt found
      finish_attempt_found tenant_id status error_code category upstream_status at attempt

  -- `succeed_attempt`
  unfoldable pub succeed_attempt : String → String → Option ℕ → Action World ExecutionAttempt
  succeed_attempt tenant_id attempt_id upstream_status =
      finish_attempt tenant_id attempt_id AttemptStatus.succeeded none none upstream_status

  -- `fail_attempt`
  unfoldable pub fail_attempt :
      String
      → String
      → String
      → ExecutionErrorCategory
      → Bool
      → Option ℕ
      → Action World ExecutionAttempt
  fail_attempt tenant_id attempt_id error_code category outcome_unknown upstream_status =
      finish_attempt tenant_id attempt_id
        (if outcome_unknown then AttemptStatus.unknown else AttemptStatus.failed) (some error_code)
        (some category) upstream_status

  -- `cancel_attempt`
  unfoldable pub cancel_attempt : String → String → Action World ExecutionAttempt
  cancel_attempt tenant_id attempt_id =
      finish_attempt tenant_id attempt_id AttemptStatus.cancelled none none none
