-- ===== src/Execution/Retry/Bounds.antt =====
-- How often the loop of `ExecuteWithRetry.execute` runs, of
-- src/nexusmcp/modules/execution/retrying_executor.py.
use nexus_mcp.Base.{
  ◌&&◌, ℕ, zero, suc, ◌+◌, ◌≡◌, Bool, true, false, arith, Option, refl, is_some, ltb, not, ◌||◌,
  ◌<◌, ap,
}
use nexus_mcp.Errors.{Exc, ExecutorFailure, runtime_error}
use nexus_mcp.Action.{Action, ◌>>=◌, raise, try_else}
use nexus_mcp.Execution.Attempt.{ExecutionAttempt}
use nexus_mcp.Execution.Disposition.{is_idempotent_write, retry_disposition, is_read_only}
use nexus_mcp.Execution.Retry.{
  Call, after_failure, on_exception, round, rounds, execute_with_retry, ToolSideEffect,
  start_attempt, on_result,
}
use nexus_mcp.Execution.Retry.Limits.{RetryLimits}
use nexus_mcp.Store.{Ports, World}

-- Neither read-only nor an idempotent write with a key.
abbrev pub is_once : ToolSideEffect → Bool → Bool
is_once side_effect key = not (is_read_only side_effect || is_idempotent_write side_effect && key)

module _ {R : Type 0} (ports : Ports) (limits : RetryLimits) (sleep : ℕ → Action World (Unit {0}))
    (status_of : R → Option ℕ) (executor : Action World R) (call : Call) where
  abbrev on : ExecutionAttempt → ℕ → Action World R → Exc → Action World R
  on = on_exception ports limits sleep status_of executor call

  abbrev again : ℕ → ExecutorFailure → Action World R → Action World R
  again = after_failure ports limits sleep status_of executor call

  after_failure-last :
      (k : ℕ) (f : ExecutorFailure) (rest rest' : Action World R)
      → ltb k limits.max_attempts ≡ false
      → again k f rest ≡ again k f rest'
  unfolding after_failure
  after_failure-last k f rest rest' h = ground arith

  after_failure-once :
      (k : ℕ) (f : ExecutorFailure) (rest rest' : Action World R)
      → is_once call.side_effect (is_some call.idempotency_key) ≡ true
      → again k f rest ≡ again k f rest'
  unfolding after_failure retry_disposition
  after_failure-once k f rest rest' h = ground arith

  on_exception-rest :
      (k : ℕ) (rest rest' : Action World R)
      → ((f : ExecutorFailure) → again k f rest ≡ again k f rest')
      → (a : ExecutionAttempt) (e : Exc) → on a k rest e ≡ on a k rest' e
  unfolding on_exception
  on_exception-rest k rest rest' h a (Exc.executor_failure f) = rw (h f) refl
  on_exception-rest k rest rest' h a (Exc.value_error m) = refl
  on_exception-rest k rest rest' h a (Exc.toolset_domain m) = refl
  on_exception-rest k rest rest' h a (Exc.runtime_error m) = refl
  on_exception-rest k rest rest' h a (Exc.other m) = refl
  on_exception-rest k rest rest' h a Exc.cancelled = refl
  on_exception-rest k rest rest' h a (Exc.nexus m) = refl

  round-rest :
      (k : ℕ) (rest rest' : Action World R)
      → ((f : ExecutorFailure) → again k f rest ≡ again k f rest')
      → round ports limits sleep status_of executor call k rest
        ≡ round ports limits sleep status_of executor call k rest'
  unfolding round
  round-rest k rest rest' h =
      ap
        (λ (handler : ExecutionAttempt → Exc → Action World R).
          start_attempt ports call.tenant_id call.execution_id >>= λ a.
          try_else executor (handler a) (on_result ports limits sleep status_of executor call a))
        (λ i a e. on_exception-rest k rest rest' h a e i)

  abbrev loop : Action World R → ℕ → ℕ → Action World R
  loop = rounds ports limits sleep status_of executor call

  -- The last round does not read what stands behind the loop.
  rounds-after :
      (left k : ℕ) (after after' : Action World R)
      → k + left ≡ limits.max_attempts
      → loop after (suc left) k ≡ loop after' (suc left) k
  unfolding rounds
  rounds-after zero k after after' h =
      round-rest k after after' λ f. after_failure-last k f after after' (ground arith)
  rounds-after (suc left) k after after' h =
      ap (round ports limits sleep status_of executor call k)
        (rounds-after left (k + 1) after after' (omega arith))

  abbrev execute : Action World R
  execute = execute_with_retry ports limits sleep status_of executor call

  loop-after :
      (n : ℕ) (after after' : Action World R)
      → n ≡ limits.max_attempts
      → 0 < n
      → loop after n 1 ≡ loop after' n 1
  loop-after zero after after' h p = ground arith
  loop-after (suc n) after after' h p = rounds-after n 1 after after' (omega arith)

  -- With at least one permitted attempt, the call is the same whatever stands behind its
  -- `max_attempts` rounds: the `RuntimeError` there is never raised.
  pub execute_with_retry-after :
      (after : Action World R)
      → 0 < limits.max_attempts
      → execute ≡ loop after limits.max_attempts 1
  unfolding execute_with_retry
  execute_with_retry-after after p =
      loop-after limits.max_attempts
        (raise (runtime_error "retry loop exhausted without a terminal result")) after refl p

  loop-once :
      (n : ℕ) (after rest : Action World R)
      → 0 < n
      → is_once call.side_effect (is_some call.idempotency_key) ≡ true
      → loop after n 1 ≡ round ports limits sleep status_of executor call 1 rest
  unfolding rounds
  loop-once zero after rest p o = ground arith
  loop-once (suc n) after rest p o =
      round-rest 1 (loop after n 2) rest λ f. after_failure-once 1 f (loop after n 2) rest o

  -- With at least one permitted attempt, a call that is neither read-only nor an idempotent write
  -- with a key is its first round, whatever would be done after it: the executor is not called again.
  pub execute_with_retry-once :
      (rest : Action World R)
      → 0 < limits.max_attempts
      → is_once call.side_effect (is_some call.idempotency_key) ≡ true
      → execute ≡ round ports limits sleep status_of executor call 1 rest
  unfolding execute_with_retry
  execute_with_retry-once rest p o =
      loop-once limits.max_attempts
        (raise (runtime_error "retry loop exhausted without a terminal result")) rest p o
