-- ===== src/System/Attempts.antt =====
-- The attempts that `ExecuteWithRetry` of src/nexusmcp/modules/execution/retrying_executor.py
-- records: the stored count of attempts.
use nexus_mcp.Base.{
  ℕ, zero, suc, ◌+◌, ◌≤◌, ◌<◌, String, true, Option, some, ◌≡◌, sym, subst, arith, inl, inr,
  if◌then◌else◌, is_some, Bool-cases,
}
use nexus_mcp.Dict.{get}
use nexus_mcp.Errors.{Exc, ExecutorFailure, runtime_error}
use nexus_mcp.Result.{Result, ok, err}
use nexus_mcp.Action.{Action, ◌>>=◌, ◌>>◌, try_else, raise, continue, resume}
use nexus_mcp.Action.Rules.{Keeps}
use nexus_mcp.Execution.{ToolExecution}
use nexus_mcp.Execution.Attempt.{ExecutionAttempt, AttemptStatus}
use nexus_mcp.Kinds.{ExecutionErrorCategory}
use nexus_mcp.Execution.Lifecycle.{finish_attempt, succeed_attempt, fail_attempt, cancel_attempt}
use nexus_mcp.Execution.Retry.{
  Call, after_failure, on_exception, on_result, round, rounds, execute_with_retry,
}
use nexus_mcp.Execution.Retry.Bounds.{is_once, execute_with_retry-once}
use nexus_mcp.Execution.Retry.Disposes.{after_failure-MayRepeat}
use nexus_mcp.Execution.Retry.Limits.{RetryLimits}
use nexus_mcp.Store.{Ports, World}
use nexus_mcp.System.Counting.{Count, AtMost-weaken, start_attempt-Count, finish_attempt-Count}

module _ {A B : Type 0} (P Q : World → Type 0) (after : (w : World) → P w → Q w) where
  continue-to :
      (r : Result A) (f : A → Action World B) (w : World)
      → ((a : A) (t : World) → P t → Q (f a t).1)
      → P w
      → Q (continue r f w).1
  continue-to (ok a) f w k h = k a w h
  continue-to (err e) f w k h = after w h

  -- From a state in `P` to one in `Q`, by a step and what follows.
  bind-to :
      (m : Action World A) (f : A → Action World B) (w : World)
      → P (m w).1
      → ((a : A) (t : World) → P t → Q (f a t).1)
      → Q ((m >>= f) w).1
  unfolding ◌>>=◌
  bind-to m f w h k = let (r, s) = m w in continue-to r f s k h

  resume-to :
      (r : Result A) (handler : Exc → Action World B) (rest : A → Action World B) (w : World)
      → ((e : Exc) (t : World) → P t → Q (handler e t).1)
      → ((a : A) (t : World) → P t → Q (rest a t).1)
      → P w
      → Q (resume r handler rest w).1
  resume-to (ok a) handler rest w k l h = l a w h
  resume-to (err e) handler rest w k l h = k e w h

  try_else-to :
      (m : Action World A) (handler : Exc → Action World B) (rest : A → Action World B) (w : World)
      → P (m w).1
      → ((e : Exc) (t : World) → P t → Q (handler e t).1)
      → ((a : A) (t : World) → P t → Q (rest a t).1)
      → Q (try_else m handler rest w).1
  unfolding try_else
  try_else-to m handler rest w h k l = let (r, s) = m w in resume-to r handler rest s k l h

-- One attempt where the call may not be repeated, else as many as the limits permit.
abbrev pub permitted : RetryLimits → Call → ℕ
permitted limits call =
    if is_once call.side_effect (is_some call.idempotency_key) then 1 else limits.max_attempts

module _ {R : Type 0} (ports : Ports) (limits : RetryLimits) (sleep : ℕ → Action World (Unit {0}))
    (status_of : R → Option ℕ) (executor : Action World R) (call : Call)
    (sleep_quiet : (n delay : ℕ) → Keeps (Count call.execution_id n) (sleep delay))
    (executor_quiet : (n : ℕ) → Keeps (Count call.execution_id n) executor) where
  abbrev C : ℕ → World → Type 0
  C n w = Count call.execution_id n w

  more : (n m : ℕ) (w : World) → n ≤ m → C n w → C m w
  more n m w l h = AtMost-weaken call.execution_id n m w.stores l h

  after_failure-to :
      (n m k : ℕ) (failure : ExecutorFailure) (rest : Action World R)
      → n ≤ m
      → ((t : World) → C n t → C m (rest t).1)
      → (w : World) → C n w
      → C m (after_failure ports limits sleep status_of executor call k failure rest w).1
  after_failure-to n m k failure rest l go w h =
      elim (after_failure-MayRepeat ports limits sleep status_of executor call k failure rest) [
        | inl (_, again) ↦
            subst (λ (a : Action World R). C m (a w).1) (sym again)
              (bind-to (C n) (C m) (λ t. more n m t l) (sleep _) _ w ((sleep_quiet n _).kept w h)
                λ _ t. go t)
        | inr (_, raised) ↦
            subst (λ (a : Action World R). C m (a w).1) (sym raised) (more n m w l h)
      ]

  recorded :
      (n m : ℕ)
      → n ≤ m
      → (tenant_id i : String) (status : AttemptStatus) (code : Option String)
        (category : Option ExecutionErrorCategory) (upstream : Option ℕ) (e : Exc) (w : World)
      → C n w
      → C m
          ((finish_attempt ports tenant_id i status code category upstream >> raise {A = R} e) w).1
  recorded n m l tenant_id i status code category upstream e w h =
      bind-to (C n) (C m) (λ t. more n m t l) _ _ w
        ((finish_attempt-Count call.execution_id n ports tenant_id i status code category
            upstream).kept
          w h)
        λ _ t. more n m t l

  on_exception-to :
      (n m k : ℕ) (a : ExecutionAttempt) (rest : Action World R)
      → n ≤ m
      → ((t : World) → C n t → C m (rest t).1)
      → (e : Exc) (w : World) → C n w
      → C m (on_exception ports limits sleep status_of executor call a k rest e w).1
  unfolding on_exception cancel_attempt fail_attempt
  on_exception-to n m k a rest l go (Exc.executor_failure f) w h =
      bind-to (C n) (C m) (λ t. more n m t l) _ _ w
        ((finish_attempt-Count call.execution_id n ports _ _ _ _ _ _).kept w h)
        λ _ t. after_failure-to n m k f rest l go t
  on_exception-to n m k a rest l go Exc.cancelled w h = recorded n m l _ _ _ _ _ _ _ w h
  on_exception-to n m k a rest l go (Exc.value_error x) w h = recorded n m l _ _ _ _ _ _ _ w h
  on_exception-to n m k a rest l go (Exc.toolset_domain x) w h = recorded n m l _ _ _ _ _ _ _ w h
  on_exception-to n m k a rest l go (Exc.runtime_error x) w h = recorded n m l _ _ _ _ _ _ _ w h
  on_exception-to n m k a rest l go (Exc.other x) w h = recorded n m l _ _ _ _ _ _ _ w h
  on_exception-to n m k a rest l go (Exc.nexus x) w h = recorded n m l _ _ _ _ _ _ _ w h

  -- One round begins one attempt; the rest begins its own.
  round-to :
      (n m k : ℕ) (rest : Action World R)
      → n + 1 ≤ m
      → ((t : World) → C (n + 1) t → C m (rest t).1)
      → (w : World) → C n w
      → C m (round ports limits sleep status_of executor call k rest w).1
  unfolding round on_result succeed_attempt
  round-to n m k rest l go w h =
      bind-to (C (n + 1)) (C m) (λ t. more (n + 1) m t l) _ _ w
        (start_attempt-Count call.execution_id n ports call.tenant_id w h)
        λ a t v.
          try_else-to (C (n + 1)) (C m) (λ u. more (n + 1) m u l) executor _ _ t
            ((executor_quiet (n + 1)).kept t v) (λ e u. on_exception-to (n + 1) m k a rest l go e u)
            λ result u v'.
              bind-to (C (n + 1)) (C m) (λ x. more (n + 1) m x l) _ _ u
                ((finish_attempt-Count call.execution_id (n + 1) ports _ _ _ _ _ _).kept u v')
                λ _ x. more (n + 1) m x l

  rounds-to :
      (left n k : ℕ) (e : Exc) (w : World)
      → C n w
      → C (n + left) (rounds ports limits sleep status_of executor call (raise e) left k w).1
  unfolding rounds
  rounds-to zero n k e w h = more n (n + 0) w (omega arith) h
  rounds-to (suc left) n k e w h =
      let rest = rounds ports limits sleep status_of executor call (raise e) left (k + 1) in
      round-to n (n + suc left) k rest (omega arith)
        (λ t v.
          more (n + 1 + left) (n + suc left) (rest t).1 (omega arith)
            (rounds-to left (n + 1) (k + 1) e t v))
        w h

  abbrev execute : Action World R
  execute = execute_with_retry ports limits sleep status_of executor call

  execute_once :
      (n : ℕ) (w : World)
      → 0 < limits.max_attempts
      → is_once call.side_effect (is_some call.idempotency_key) ≡ true
      → C n w
      → C (n + 1) (execute w).1
  execute_once n w p once h =
      let rest : Action World R = raise (runtime_error "") in
      subst (λ (a : Action World R). C (n + 1) (a w).1)
        (sym (execute_with_retry-once ports limits sleep status_of executor call rest p once))
        (round-to n (n + 1) 1 rest (omega arith) (λ t v. v) w h)

  execute_often : (n : ℕ) (w : World) → C n w → C (n + limits.max_attempts) (execute w).1
  unfolding execute_with_retry
  execute_often n w h = rounds-to limits.max_attempts n 1 _ w h

  execute_permitted :
      (n : ℕ) (w : World)
      → 0 < limits.max_attempts
      → C n w
      → C (n + permitted limits call) (execute w).1
  execute_permitted n w p h =
      elim (Bool-cases (is_once call.side_effect (is_some call.idempotency_key))) [
        | inl once ↦ rw once (execute_once n w p once h)
        | inr often ↦ rw often (execute_often n w h)
      ]

  -- With at least one permitted attempt, and where the executor and the sleeper never raise the
  -- stored count of attempts of this execution, that count is at most `max_attempts` greater after a
  -- call with its retries, and at most one greater where the call is neither read-only nor an
  -- idempotent write with a key, whether it returns or raises.
  pub execute_with_retry-permitted :
      (w : World) (e f : ToolExecution)
      → 0 < limits.max_attempts
      → get call.execution_id w.stores.executions ≡ some e
      → get call.execution_id (execute w).1.stores.executions ≡ some f
      → f.attempt_count ≤ e.attempt_count + permitted limits call
  execute_with_retry-permitted w e f p before after =
      execute_permitted e.attempt_count w p (λ x q. ground arith) f after
