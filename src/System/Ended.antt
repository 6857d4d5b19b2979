-- ===== src/System/Ended.antt =====
-- How an execution ends, apart from the code, and that the chain of `_finish` of
-- src/nexusmcp/modules/execution/lifecycle.py ends it so.
use nexus_mcp.Base.{none, refl, ℕ, String, true, Option, some, ◌≡◌, arith, if◌then◌else◌}
use nexus_mcp.Dict.{get}
use nexus_mcp.Kinds.{ExecutionErrorCategory}
use nexus_mcp.Result.{ok}
use nexus_mcp.Audit.{AuditEvent, AuditOutcome}
use nexus_mcp.Execution.{
  ToolExecution, ExecutionStatus, is_running, is_terminal, succeed, fail, mark_unknown, cancel,
  new_execution,
}
use nexus_mcp.Execution.Lifecycle.{terminal_execution, terminal_outcome}
use nexus_mcp.Store.{Stores}

-- The audit event reports an execution: what happened to it, and when.
pub record Reports (outcome : AuditOutcome) (f : ToolExecution) (at : ℕ) (a : AuditEvent)
    : Type 0 where
  pub shows : a.outcome ≡ outcome
  pub of_execution : a.execution_id ≡ some f.id
  pub of_tenant : a.tenant_id ≡ f.tenant_id
  pub occurred : a.occurred_at ≡ at

-- The status of the end: the wanted one where it is terminal, else failed.
abbrev pub final_status : ExecutionStatus → ExecutionStatus
final_status status = if is_terminal status then status else ExecutionStatus.failed

-- The error that the ended execution shows, of its error before. A success leaves that alone, a
-- cancellation and an unknown outcome have an error of their own.
abbrev pub final_error :
    ExecutionStatus
    → Option String × Option ExecutionErrorCategory
    → Option String × Option ExecutionErrorCategory
    → Option String × Option ExecutionErrorCategory
final_error ExecutionStatus.succeeded given before = before
final_error ExecutionStatus.cancelled given before =
    (some "execution_cancelled", some ExecutionErrorCategory.cancelled)
final_error ExecutionStatus.unknown given before = (given.0, some ExecutionErrorCategory.unknown)
final_error _ given before = given

-- The execution that ends `e` in the given status, and nothing else of it changed.
abbrev pub ended_as :
    ExecutionStatus
    → Option String
    → Option ExecutionErrorCategory
    → ToolExecution
    → ℕ
    → ToolExecution
ended_as status code category e at =
    let error = final_error status (code, category) (e.error_code, e.error_category) in
    record e {
      status = final_status status;
      error_code = error.0;
      error_category = error.1;
      finished_at = some at;
    }

-- The outcome that the audit shows of an ended execution.
abbrev pub final_outcome : ExecutionStatus → AuditOutcome
final_outcome ExecutionStatus.succeeded = AuditOutcome.succeeded
final_outcome ExecutionStatus.unknown = AuditOutcome.unknown
final_outcome ExecutionStatus.cancelled = AuditOutcome.cancelled
final_outcome _ = AuditOutcome.failed

-- What is committed holds the execution that ends `e`, which was running, and an audit event of it.
pub record Ended (status : ExecutionStatus) (code : Option String)
    (category : Option ExecutionErrorCategory) (at : ℕ) (e f : ToolExecution) (s : Stores)
    : Type 0 where
  pub was_running : is_running e.status ≡ true
  pub result : ended_as status code category e at ≡ f
  pub stored : get f.id s.executions ≡ some f
  pub event : AuditEvent
  pub logged : get event.id s.audits ≡ some event
  pub reports : Reports (final_outcome f.status) f at event

pub terminal_outcome-final :
    (status : ExecutionStatus) → terminal_outcome status ≡ final_outcome (final_status status)
unfolding terminal_outcome
terminal_outcome-final ExecutionStatus.succeeded = refl
terminal_outcome-final ExecutionStatus.unknown = refl
terminal_outcome-final ExecutionStatus.cancelled = refl
terminal_outcome-final ExecutionStatus.planned = refl
terminal_outcome-final ExecutionStatus.running = refl
terminal_outcome-final ExecutionStatus.failed = refl

pub terminal-ended_as :
    (status : ExecutionStatus) (code : Option String) (category : Option ExecutionErrorCategory)
    (e f : ToolExecution) (at : ℕ)
    → terminal_execution status code category e at ≡ ok f
    → ended_as status code category e at ≡ f
unfolding terminal_execution succeed fail mark_unknown cancel new_execution
terminal-ended_as ExecutionStatus.succeeded code category e f at h = ground arith
terminal-ended_as ExecutionStatus.unknown none category e f at h = cc
terminal-ended_as ExecutionStatus.unknown (some c) category e f at h = ground arith
terminal-ended_as ExecutionStatus.cancelled code category e f at h = ground arith
terminal-ended_as ExecutionStatus.planned (some c) (some k) e f at h = ground arith
terminal-ended_as ExecutionStatus.running (some c) (some k) e f at h = ground arith
terminal-ended_as ExecutionStatus.failed (some c) (some k) e f at h = ground arith
terminal-ended_as _ none category e f at h = cc
terminal-ended_as _ (some c) none e f at h = cc
