-- ===== src/Execution/Retry.antt =====
-- `ExecuteWithRetry` of src/nexusmcp/modules/execution/retrying_executor.py. The executor behind
-- it and the sleeper are ports: actions of the world. Times are microseconds; doubling a time that
-- is a floating-point number is exact, so the delays are those of the code.
pub mod Limits
pub mod Disposes
pub mod Bounds
use Limits.{RetryLimits}
use nexus_mcp.Base.{
  ℕ, zero, suc, ◌+◌, ◌-◌, ◌*◌, ◌^◌, String, Bool, true, false, not, ◌&&◌, Option, none, some,
  is_some, ltb, if◌then◌else◌,
}
use nexus_mcp.Kinds.{ToolSideEffect, ExecutionErrorCategory}
use nexus_mcp.Errors.{Exc, ExecutorFailure, runtime_error, cancelled, executor_failure}
use nexus_mcp.Action.{Action, pure, raise, ◌>>=◌, ◌>>◌, try_else}
use nexus_mcp.Execution.Attempt.{ExecutionAttempt}
use nexus_mcp.Execution.Disposition.{RetryDisposition, retry_disposition, is_read_only}
use nexus_mcp.Execution.Lifecycle.{start_attempt, succeed_attempt, fail_attempt, cancel_attempt}
use nexus_mcp.Store.{Ports, World}

abbrev pub is_retry : RetryDisposition → Bool
is_retry RetryDisposition.retry = true
is_retry _ = false

abbrev pub needs_reconciliation : RetryDisposition → Bool
needs_reconciliation RetryDisposition.require_reconciliation = true
needs_reconciliation _ = false

-- What the loop reads of the request.
pub record Call : Type 0 where
  pub tenant_id : String
  pub execution_id : String
  pub side_effect : ToolSideEffect
  pub idempotency_key : Option String

module _ {R : Type 0} (ports : Ports) (limits : RetryLimits) (sleep : ℕ → Action World (Unit {0}))
    (status_of : R → Option ℕ) (executor : Action World R) (call : Call) where
  -- The choice after a failure was recorded: sleep and go on, or raise.
  unfoldable pub after_failure : ℕ → ExecutorFailure → Action World R → Action World R
  after_failure attempt_number failure rest =
      let disposition =
        retry_disposition call.side_effect failure.category (is_some call.idempotency_key) in
      if is_retry disposition && ltb attempt_number limits.max_attempts
      then (sleep (limits.initial_backoff * 2 ^ (attempt_number - 1)) >> rest)
      else if is_read_only call.side_effect
          && failure.outcome_unknown
          && not (needs_reconciliation disposition)
      then raise (executor_failure (record failure { outcome_unknown = false }))
      else raise (executor_failure failure)

  -- The `except` clauses.
  unfoldable pub on_exception : ExecutionAttempt → ℕ → Action World R → Exc → Action World R
  on_exception attempt attempt_number rest cancelled =
      cancel_attempt ports call.tenant_id attempt.id >> raise cancelled
  on_exception attempt attempt_number rest (executor_failure failure) =
      fail_attempt ports call.tenant_id attempt.id failure.code failure.category
        failure.outcome_unknown failure.upstream_status
      >> after_failure attempt_number failure rest
  on_exception attempt attempt_number rest e =
      fail_attempt ports call.tenant_id attempt.id "unexpected_executor_failure"
        ExecutionErrorCategory.unknown true none
      >> raise e

  -- The `else` clause.
  unfoldable pub on_result : ExecutionAttempt → R → Action World R
  on_result attempt result =
      succeed_attempt ports call.tenant_id attempt.id (status_of result) >> pure result

  -- One round of the loop.
  unfoldable pub round : ℕ → Action World R → Action World R
  round attempt_number rest = do
    attempt ← start_attempt ports call.tenant_id call.execution_id
    try_else executor (on_exception attempt attempt_number rest) (on_result attempt)

  -- The rounds that are left, from the given number on; `after` is what stands behind the loop.
  unfoldable pub rounds : Action World R → ℕ → ℕ → Action World R
  rounds after zero attempt_number = after
  rounds after (suc left) attempt_number =
      round attempt_number (rounds after left (attempt_number + 1))

  -- `execute`
  unfoldable pub execute_with_retry : Action World R
  execute_with_retry =
      rounds (raise (runtime_error "retry loop exhausted without a terminal result"))
        limits.max_attempts 1
