-- ===== src/Tests/Retries.antt =====
-- A call that is retried, and one that may not be.
use nexus_mcp.Base.{ℕ, ◌≡◌, ◌⊎◌, true, arith, Option, none, some, refl, false}
use nexus_mcp.Kinds.{ToolSideEffect, ExecutionErrorCategory}
use nexus_mcp.Errors.{ExecutorFailure, executor_failure}
use nexus_mcp.Action.{Action, pure, raise, ◌>>◌}
use nexus_mcp.Execution.Retry.{Call, after_failure, execute_with_retry, rounds, round}
use nexus_mcp.Execution.Retry.Limits.{RetryLimits}
use nexus_mcp.Execution.Retry.Disposes.{MayRepeat, after_failure-MayRepeat}
use nexus_mcp.Execution.Retry.Bounds.{execute_with_retry-once, execute_with_retry-after}
use nexus_mcp.Store.{Ports, World}

abbrev clocks : Ports
clocks = record { times = λ n. n; ids = λ n. "attempt" }

abbrev limits : RetryLimits
limits = record { max_attempts = 3; initial_backoff = 250000 }

abbrev sleep : ℕ → Action World (Unit {0})
sleep delay = pure tt

abbrev status_of : ℕ → Option ℕ
status_of n = some n

-- An upstream service that does not answer.
abbrev silent : Action World ℕ
silent = raise (
    executor_failure (record {
      code = "upstream_timeout";
      category = ExecutionErrorCategory.timeout_after_send;
      outcome_unknown = true;
      upstream_status = none;
    }))

abbrev payment : Call
payment = record {
  tenant_id = "tenant";
  execution_id = "execution";
  side_effect = ToolSideEffect.non_idempotent_write;
  idempotency_key = none;
}

execute_with_retry-once_example :
    execute_with_retry clocks limits sleep status_of silent payment
    ≡ round clocks limits sleep status_of silent payment 1 silent
execute_with_retry-once_example =
    execute_with_retry-once clocks limits sleep status_of silent payment silent (omega arith) refl

execute_with_retry-after_example :
    execute_with_retry clocks limits sleep status_of silent payment
    ≡ rounds clocks limits sleep status_of silent payment silent 3 1
execute_with_retry-after_example =
    execute_with_retry-after clocks limits sleep status_of silent payment silent (omega arith)

abbrev lost : ExecutorFailure
lost = record {
  code = "network";
  category = ExecutionErrorCategory.network;
  outcome_unknown = true;
  upstream_status = none;
}

abbrev query : Call
query = record payment { side_effect = ToolSideEffect.read_only }

-- A reading that was lost, after its first attempt of three.
after_failure-MayRepeat_example :
    (MayRepeat clocks limits sleep status_of silent query 1 lost
      × (after_failure clocks limits sleep status_of silent query 1 lost silent
          ≡ (sleep 250000 >> silent)))
    ⊎ ((¬ MayRepeat clocks limits sleep status_of silent query 1 lost)
        × (after_failure clocks limits sleep status_of silent query 1 lost silent
            ≡ raise (executor_failure (record lost { outcome_unknown = false }))))
after_failure-MayRepeat_example =
    after_failure-MayRepeat clocks limits sleep status_of silent query 1 lost silent
