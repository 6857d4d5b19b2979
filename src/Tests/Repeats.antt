-- ===== src/Tests/Repeats.antt =====
-- A call with its retries, and the attempts that it begins.
use nexus_mcp.Base.{ℕ, ◌≤◌, ◌+◌, none, some, ◌≡◌, refl, arith, String_discrete, is_blank}
use nexus_mcp.Dict.{get, put, values}
use nexus_mcp.Kinds.{ToolSideEffect}
use nexus_mcp.Action.{Action, pure, ◌>>=◌, try_else}
use nexus_mcp.Action.Rules.{Keeps-pure}
use nexus_mcp.Checks.{require_names}
use nexus_mcp.Execution.{ToolExecution, register_attempt}
use nexus_mcp.Execution.Scope.{check_scope}
use nexus_mcp.Execution.Attempt.{new_attempt}
use nexus_mcp.Execution.Attempt
use nexus_mcp.Execution.Lifecycle.{
  start_attempt, start_found, numbered_attempt, require_execution, succeed_attempt, finish_attempt,
  finish_attempt_found, require_attempt, terminal_attempt,
}
use nexus_mcp.Execution.Retry.{Call, execute_with_retry, rounds, round, on_result}
use nexus_mcp.Execution.Retry.Limits.{RetryLimits}
use nexus_mcp.Store.{World, now, new_id, outside, commit, with_unit_of_work}
use nexus_mcp.Store.Attempts
use nexus_mcp.Store.Executions
use nexus_mcp.System.Attempts.{execute_with_retry-permitted}
use nexus_mcp.Tests.Ends.{clocks, running, busy}

abbrev limits : RetryLimits
limits = record { max_attempts = 3; initial_backoff = 250000 }

abbrev reading : Call
reading = record {
  tenant_id = "tenant";
  execution_id = "execution";
  side_effect = ToolSideEffect.read_only;
  idempotency_key = none;
}

abbrev sleep : ℕ → Action World (Unit {0})
sleep delay = pure tt

abbrev answered : Action World ℕ
answered = pure 200

abbrev tried : ToolExecution
tried = record running { attempt_count = 2 }

tried_stored :
    get "execution"
      (execute_with_retry clocks limits sleep
        (λ n. some n)
        answered
        reading
        busy).1.stores.executions
    ≡ some tried
unfolding execute_with_retry get rounds round ◌>>=◌ start_attempt now with_unit_of_work
    Executions.get_by_id require_execution String_discrete start_found register_attempt
    require_names is_blank check_scope outside new_id new_attempt numbered_attempt Executions.save
    Attempts.add values commit try_else on_result succeed_attempt finish_attempt
    Attempts.get_for_update require_attempt put finish_attempt_found terminal_attempt
    Attempt.succeed Attempts.save
tried_stored = refl

execute_with_retry-permitted_example : 2 ≤ 1 + 3
unfolding get String_discrete
execute_with_retry-permitted_example =
    execute_with_retry-permitted clocks limits sleep (λ n. some n) answered reading
      (λ n delay. Keeps-pure tt) (λ n. Keeps-pure 200) busy running tried (omega arith) refl
      tried_stored
