-- ===== src/System/Finishing.antt =====
-- `start_attempt`, `_finish` and `_finish_attempt` of src/nexusmcp/modules/execution/lifecycle.py
-- keep the invariant: a stored execution keeps the fields of its call.
use nexus_mcp.Base.{ℕ, String, Option, none, some, ◌≡◌, refl, arith, Bool, true, false, ap, ◌∙◌}
use nexus_mcp.Dict.{get}
use nexus_mcp.Kinds.{ExecutionErrorCategory}
use nexus_mcp.Result.{ok}
use nexus_mcp.Action.{Action, ◌>>=◌, ◌>>◌, raise_if}
use nexus_mcp.Execution.{
  ToolExecution, ExecutionStatus, succeed, fail, mark_unknown, cancel, register_attempt,
}
use nexus_mcp.Execution.Lifecycle.{
  require_execution, terminal_execution, start_found, start_attempt, finish, finish_found,
  finish_attempt, require_attempt, finish_attempt_found, numbered_attempt,
}
use nexus_mcp.Store.{Session, Ports, now, outside, new_id, Stores}
use nexus_mcp.Store.Executions
use nexus_mcp.System.Invariant.{SameCall}
use nexus_mcp.System.Session.{Safe}
use nexus_mcp.Store.Attempts
use nexus_mcp.Execution.Attempt.{AttemptStatus, ExecutionAttempt, new_attempt}
use nexus_mcp.Errors.{Exc}
use nexus_mcp.Action.Rules.{
  Post-both, Keeps, lift-Post, Post, keeps_rules, Keeps-bind, bind-Post, both-Post, Keeps-Post,
}
use nexus_mcp.System.Writes.{
  IsSound, execution_audit-Safe, now-IsSound, append-Safe, with_unit_of_work-IsSound, commit-Safe,
  save_execution-Safe, save_attempt-Safe, add_attempt-Safe, with_unit_of_work-Keeps,
}

pub terminal-SameCall :
    (status : ExecutionStatus) (code : Option String) (category : Option ExecutionErrorCategory)
    (e f : ToolExecution) (at : ℕ)
    → terminal_execution status code category e at ≡ ok f
    → SameCall e f
unfolding terminal_execution succeed fail mark_unknown cancel
terminal-SameCall ExecutionStatus.succeeded code category e f at h = ground arith
terminal-SameCall ExecutionStatus.unknown none category e f at h = cc
terminal-SameCall ExecutionStatus.unknown (some c) category e f at h = ground arith
terminal-SameCall ExecutionStatus.cancelled code category e f at h = ground arith
terminal-SameCall _ (some c) (some k) e f at h = ground arith
terminal-SameCall _ none category e f at h = cc
terminal-SameCall _ (some c) none e f at h = cc

register_attempt-SameCall : (e f : ToolExecution) → register_attempt e ≡ ok f → SameCall e f
unfolding register_attempt
register_attempt-SameCall e f h = ground arith

-- The execution that was read, or the raise where there is none.
pub require_execution-run :
    {B : Type 0} (P : Session → Type 0) (found : Option ToolExecution)
    (f : ToolExecution → Action Session B) (s : Session)
    → P s
    → ((e : ToolExecution) → found ≡ some e → P (f e s).1)
    → P ((require_execution found >>= f) s).1
unfolding require_execution ◌>>=◌
require_execution-run P none f s v k = v
require_execution-run P (some e) f s v k = k e refl

-- A write over the execution that was read, and what follows.
read_write-Safe :
    {B : Type 0} (tenant_id id : String) (body : ToolExecution → Action Session B) (s : Session)
    → Safe s
    → ((e : ToolExecution) → get e.id s.working.executions ≡ some e → Safe (body e s).1)
    → Safe ((Executions.get_by_id tenant_id id >>= λ found. require_execution found >>= body) s).1
unfolding Executions.get_by_id ◌>>=◌
read_write-Safe tenant_id id body s v k =
    require_execution-run Safe (Executions.of_tenant tenant_id (get id s.working.executions)) body s
      v (λ e q. k e (stored e q))
  where
    stored :
        (e : ToolExecution)
        → Executions.of_tenant tenant_id (get id s.working.executions) ≡ some e
        → get e.id s.working.executions ≡ some e
    stored e q = ground (arith, v.copies.execution_key id e)

-- Saving an execution that keeps the fields of its call, and what follows.
saved-Safe :
    {B : Type 0} (tenant_id : String) (e f : ToolExecution) (rest : Action Session B) (s : Session)
    → Safe s
    → get e.id s.working.executions ≡ some e
    → SameCall e f
    → Keeps Safe rest
    → Post (λ _ t. Safe t) (λ _ t. Safe t) ((Executions.save tenant_id f >> rest) s)
saved-Safe tenant_id e f rest s v h c k =
    bind-Post (λ _ t. Safe t) _ _ (Executions.save tenant_id f) _ s
      (both-Post Safe (Executions.save tenant_id f s) (save_execution-Safe tenant_id e f s v h c))
      (λ _ t w. Keeps-Post Safe rest t k w)

raise_if-Post :
    {B : Type 0} (b : Bool) (x : Exc) (m : Action Session B) (s : Session)
    → Safe s
    → Post (λ _ t. Safe t) (λ _ t. Safe t) (m s)
    → Post (λ _ t. Safe t) (λ _ t. Safe t) ((raise_if b x >> m) s)
unfolding ◌>>=◌
raise_if-Post true x m s v h = v
raise_if-Post false x m s v h = h

finish_found-Safe :
    (ports : Ports) (tenant_id : String) (status : ExecutionStatus) (code : Option String)
    (category : Option ExecutionErrorCategory) (at : ℕ) (e : ToolExecution) (s : Session)
    → Safe s
    → get e.id s.working.executions ≡ some e
    → Safe (finish_found ports tenant_id status code category at e s).1
unfolding finish_found
finish_found-Safe ports tenant_id status code category at e s v h =
    Post-both Safe (finish_found ports tenant_id status code category at e s) (
      raise_if-Post _ _ _ s v (
        lift-Post _ _ (terminal_execution status code category e at) _ s
          (λ f q.
            saved-Safe tenant_id e f _ s v h (terminal-SameCall status code category e f at q)
              (search (keeps_rules, execution_audit-Safe, append-Safe, commit-Safe)))
          (λ _ _. v)))

id_kept :
    (ports : Ports) (s : Session)
    → Safe s
    → Post (λ _ t. Safe t × (t.working ≡ s.working)) (λ _ t. Safe t) (outside (new_id ports) s)
unfolding outside new_id
id_kept ports s v = (record { committed = v.committed; copies = v.copies }, refl)

start_found-Safe :
    (ports : Ports) (tenant_id execution_id : String) (at : ℕ) (e : ToolExecution) (s : Session)
    → Safe s
    → get e.id s.working.executions ≡ some e
    → Safe (start_found ports tenant_id execution_id at e s).1
unfolding start_found
start_found-Safe ports tenant_id execution_id at e s v h =
    Post-both Safe (start_found ports tenant_id execution_id at e s) (
      raise_if-Post _ _ _ s v (
        lift-Post _ _ (register_attempt e) _ s
          (λ f q.
            bind-Post (λ _ t. Safe t × (t.working ≡ s.working)) _ _ (outside (new_id ports)) _ s
              (id_kept ports s v)
              (λ id t w.
                lift-Post _ _ (new_attempt (numbered_attempt tenant_id execution_id f at id)) _ t
                  (λ a _.
                    saved-Safe tenant_id e f _ t w.0
                      (ap (λ (x : Stores). get e.id x.executions) w.1 ∙ h)
                      (register_attempt-SameCall e f q)
                      (search (keeps_rules, add_attempt-Safe, commit-Safe)))
                  (λ _ _. w.0)))
          (λ _ _. v)))

pub finish-IsSound :
    (ports : Ports) (tenant_id execution_id : String) (status : ExecutionStatus)
    (code : Option String) (category : Option ExecutionErrorCategory)
    → Keeps IsSound (finish ports tenant_id execution_id status code category)
unfolding finish
finish-IsSound ports tenant_id execution_id status code category =
    Keeps-bind (now ports) _ (now-IsSound ports) (λ at. with_unit_of_work-IsSound _ (λ s v.
      read_write-Safe tenant_id execution_id _ s v
        (λ e h. finish_found-Safe ports tenant_id status code category at e s v h)))

pub start_attempt-IsSound :
    (ports : Ports) (tenant_id execution_id : String)
    → Keeps IsSound (start_attempt ports tenant_id execution_id)
unfolding start_attempt
start_attempt-IsSound ports tenant_id execution_id =
    Keeps-bind (now ports) _ (now-IsSound ports) (λ at. with_unit_of_work-IsSound _ (λ s v.
      read_write-Safe tenant_id execution_id _ s v
        (λ e h. start_found-Safe ports tenant_id execution_id at e s v h)))

get_for_update-Safe : (tenant_id id : String) → Keeps Safe (Attempts.get_for_update tenant_id id)
unfolding Attempts.get_for_update
get_for_update-Safe tenant_id id = record { kept = λ s v. v }

require_attempt-Safe : (found : Option ExecutionAttempt) → Keeps Safe (require_attempt found)
unfolding require_attempt
require_attempt-Safe none = record { kept = λ s v. v }
require_attempt-Safe (some a) = record { kept = λ s v. v }

raise_if-Safe : (b : Bool) (x : Exc) → Keeps Safe (raise_if b x)
raise_if-Safe true x = record { kept = λ s v. v }
raise_if-Safe false x = record { kept = λ s v. v }

finish_attempt_found-Safe :
    (tenant_id : String) (status : AttemptStatus) (code : Option String)
    (category : Option ExecutionErrorCategory) (upstream : Option ℕ) (at : ℕ) (a : ExecutionAttempt)
    → Keeps Safe (finish_attempt_found tenant_id status code category upstream at a)
unfolding finish_attempt_found
finish_attempt_found-Safe tenant_id status code category upstream at a =
    search (keeps_rules, raise_if-Safe, save_attempt-Safe, commit-Safe)

pub finish_attempt-IsSound :
    (ports : Ports) (tenant_id attempt_id : String) (status : AttemptStatus) (code : Option String)
    (category : Option ExecutionErrorCategory) (upstream : Option ℕ)
    → Keeps IsSound (finish_attempt ports tenant_id attempt_id status code category upstream)
unfolding finish_attempt
finish_attempt-IsSound ports tenant_id attempt_id status code category upstream = search (
  keeps_rules, with_unit_of_work-Keeps, now-IsSound, get_for_update-Safe, require_attempt-Safe,
  finish_attempt_found-Safe,
)
