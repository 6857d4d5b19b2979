-- ===== src/Execution/Retry/Disposes.antt =====
-- What `ExecuteWithRetry` does after a failed attempt: src/nexusmcp/modules/execution/domain.py and
-- retrying_executor.py, against the rules of docs/adr/0007-side-effect-retry-and-unknown-outcome.md
-- and docs/adr/0012-retry-idempotency-and-attempts.md.
use nexus_mcp.Base.{
  ℕ, ◌-◌, ◌*◌, ◌^◌, ◌<◌, ◌≡◌, ◌⊎◌, refl, Bool, true, false, not, arith, is_some, ◌&&◌, ◌||◌, inl,
  inr, ltb, Bool-cases, Option,
}
use nexus_mcp.Kinds.{ToolSideEffect, ExecutionErrorCategory}
use nexus_mcp.Errors.{ExecutorFailure, executor_failure}
use nexus_mcp.Action.{Action, raise, ◌>>◌}
use nexus_mcp.Execution.Disposition.{
  retry_disposition, is_read_only, is_idempotent_write, is_transport_error,
}
use nexus_mcp.Execution.Retry.{Call, after_failure, is_retry, needs_reconciliation}
use nexus_mcp.Execution.Retry.Limits.{RetryLimits}
use nexus_mcp.Store.{Ports, World}

-- The failures that may pass: a network error, a server error, a timeout, and a failure of which
-- nothing is known.
pub data IsTransient : ExecutionErrorCategory → Type 0 where
  unreached : IsTransient ExecutionErrorCategory.timeout_before_send
  unanswered : IsTransient ExecutionErrorCategory.timeout_after_send
  network : IsTransient ExecutionErrorCategory.network
  server : IsTransient ExecutionErrorCategory.upstream_5xx
  unclear : IsTransient ExecutionErrorCategory.unknown

-- The calls that may be made again: a reading, and an idempotent write with a key.
pub data IsRepeatable : ToolSideEffect → Bool → Type 0 where
  reading : (key : Bool) → IsRepeatable ToolSideEffect.read_only key
  keyed : IsRepeatable ToolSideEffect.idempotent_write true

transport-IsTransient : (c : ExecutionErrorCategory) → is_transport_error c ≡ true → IsTransient c
transport-IsTransient ExecutionErrorCategory.timeout_before_send h = IsTransient.unreached
transport-IsTransient ExecutionErrorCategory.timeout_after_send h = IsTransient.unanswered
transport-IsTransient ExecutionErrorCategory.network h = IsTransient.network
transport-IsTransient ExecutionErrorCategory.upstream_5xx h = IsTransient.server
transport-IsTransient ExecutionErrorCategory.unknown h = IsTransient.unclear
transport-IsTransient ExecutionErrorCategory.validation h = ground arith
transport-IsTransient ExecutionErrorCategory.authentication h = ground arith
transport-IsTransient ExecutionErrorCategory.authorization h = ground arith
transport-IsTransient ExecutionErrorCategory.approval h = ground arith
transport-IsTransient ExecutionErrorCategory.credential h = ground arith
transport-IsTransient ExecutionErrorCategory.upstream_4xx h = ground arith
transport-IsTransient ExecutionErrorCategory.cancelled h = ground arith

safe-IsRepeatable :
    (s : ToolSideEffect) (key : Bool)
    → (is_read_only s || is_idempotent_write s && key) ≡ true
    → IsRepeatable s key
safe-IsRepeatable ToolSideEffect.read_only key h = IsRepeatable.reading key
safe-IsRepeatable ToolSideEffect.idempotent_write true h = IsRepeatable.keyed
safe-IsRepeatable ToolSideEffect.idempotent_write false h = ground arith
safe-IsRepeatable ToolSideEffect.non_idempotent_write key h = ground arith
safe-IsRepeatable ToolSideEffect.unknown key h = ground arith

-- Both together, as the code computes them.
retried :
    (s : ToolSideEffect) (c : ExecutionErrorCategory) (key : Bool)
    → is_retry (retry_disposition s c key) ≡ true
    → IsTransient c × IsRepeatable s key
unfolding retry_disposition
retried s c key h = (transport-IsTransient c (ground arith), safe-IsRepeatable s key (ground arith))

reading_retried :
    (s : ToolSideEffect) (c : ExecutionErrorCategory) (key : Bool)
    → IsTransient c
    → IsRepeatable s key
    → is_retry (retry_disposition s c key) ≡ true
unfolding retry_disposition
reading_retried s c key IsTransient.unreached (IsRepeatable.reading k) = refl
reading_retried s c key IsTransient.unanswered (IsRepeatable.reading k) = refl
reading_retried s c key IsTransient.network (IsRepeatable.reading k) = refl
reading_retried s c key IsTransient.server (IsRepeatable.reading k) = refl
reading_retried s c key IsTransient.unclear (IsRepeatable.reading k) = refl
reading_retried s c key IsTransient.unreached IsRepeatable.keyed = refl
reading_retried s c key IsTransient.unanswered IsRepeatable.keyed = refl
reading_retried s c key IsTransient.network IsRepeatable.keyed = refl
reading_retried s c key IsTransient.server IsRepeatable.keyed = refl
reading_retried s c key IsTransient.unclear IsRepeatable.keyed = refl

reading-reconciles :
    (s : ToolSideEffect) (c : ExecutionErrorCategory) (key : Bool)
    → is_read_only s ≡ true
    → needs_reconciliation (retry_disposition s c key) ≡ false
unfolding retry_disposition
reading-reconciles s c key h = ground arith

module _ {R : Type 0} (ports : Ports) (limits : RetryLimits) (sleep : ℕ → Action World (Unit {0}))
    (status_of : R → Option ℕ) (executor : Action World R) (call : Call) where
  -- The rules for another attempt after the k-th has failed.
  abbrev pub MayRepeat : ℕ → ExecutorFailure → Type 0
  MayRepeat k failure =
      IsTransient failure.category
      × IsRepeatable call.side_effect (is_some call.idempotency_key)
      × (k < limits.max_attempts)

  -- After the k-th attempt has failed, the loop does one of two things. Where the failure is a
  -- network error, a server error, a timeout or unknown, the call is read-only or an idempotent
  -- write with a key, and k is less than `max_attempts`, it sleeps for the first delay doubled
  -- k - 1 times and goes on. Where one of these fails, it raises the failure, with the outcome
  -- known of a read-only call and as it was of any other.
  pub after_failure-MayRepeat :
      (k : ℕ) (failure : ExecutorFailure) (rest : Action World R)
      → (MayRepeat k failure
          × (after_failure ports limits sleep status_of executor call k failure rest
              ≡ (sleep (limits.initial_backoff * 2 ^ (k - 1)) >> rest)))
        ⊎ ((¬ MayRepeat k failure)
            × (after_failure ports limits sleep status_of executor call k failure rest
                ≡ raise (
                    executor_failure (record failure {
                      outcome_unknown =
                          not (is_read_only call.side_effect) && failure.outcome_unknown;
                    }))))
  unfolding after_failure
  after_failure-MayRepeat k failure rest =
      let key = is_some call.idempotency_key in
      let again = is_retry (retry_disposition call.side_effect failure.category key) in
      elim (Bool-cases (again && ltb k limits.max_attempts)) [
        | inl on ↦
            let (t, r) = retried call.side_effect failure.category key (ground arith) in
            inl ((t, r, ground arith), ground arith)
        | inr off ↦ inr (
          λ (t, r, l).
              let h = reading_retried call.side_effect failure.category key t r in ground arith,
          elim (Bool-cases (is_read_only call.side_effect)) [
            | inl reads ↦
                let known = reading-reconciles call.side_effect failure.category key reads in
                ground arith
            | inr writes ↦ ground arith
          ],
        )
      ]
