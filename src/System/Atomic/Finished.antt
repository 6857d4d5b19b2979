-- ===== src/System/Atomic/Finished.antt =====
-- `_finish` of src/nexusmcp/modules/execution/lifecycle.py, where it raises, has written nothing.
use nexus_mcp.Base.{true, false, subst, ℕ, String, Option, none, some, ◌≡◌, refl, Bool}
use nexus_mcp.Errors.{Exc}
use nexus_mcp.Result.{err}
use nexus_mcp.Action.{pure, ◌>>=◌, raise_if, ◌>>◌}
use nexus_mcp.Action.Rules.{Keeps, Keeps-pure, Keeps-raise, Keeps-lift}
use nexus_mcp.Execution.{ToolExecution, ExecutionStatus}
use nexus_mcp.Store.{Ports, Stores, World, Session, commit}
use nexus_mcp.Store.Executions
use nexus_mcp.System.Atomic.{
  SameRecords, Unwritten, Aborted, Left, before, writing, still, unit_of_work_last, save-Committed,
  append-Committed, audit-Committed, now-Still, unwritten,
}
use nexus_mcp.Execution.Lifecycle.{require_execution, finish, finish_found}
use nexus_mcp.Kinds.{ExecutionErrorCategory}

get-Unwritten :
    (c : Stores) (tenant_id id : String) → Keeps (Unwritten c) (Executions.get_by_id tenant_id id)
unfolding Executions.get_by_id
get-Unwritten c tenant_id id = record { kept = λ s v. v }

require-Unwritten :
    (c : Stores) (o : Option ToolExecution) → Keeps (Unwritten c) (require_execution o)
unfolding require_execution
require-Unwritten c none = Keeps-raise _
require-Unwritten c (some e) = Keeps-pure e

raise_if-Unwritten : (c : Stores) (b : Bool) (e : Exc) → Keeps (Unwritten c) (raise_if b e)
raise_if-Unwritten c true e = Keeps-raise e
raise_if-Unwritten c false e = Keeps-pure tt

-- A commit, and the result.
committed_last : {A : Type 0} (c : Stores) (a : A) (s : Session) → Aborted c ((commit >> pure a) s)
unfolding commit ◌>>=◌
committed_last c a s = tt

finish_found-Aborted :
    (c : Stores) (ports : Ports) (tenant_id : String) (status : ExecutionStatus)
    (code : Option String) (category : Option ExecutionErrorCategory) (at : ℕ) (e : ToolExecution)
    (s : Session)
    → Unwritten c s
    → Aborted c (finish_found ports tenant_id status code category at e s)
unfolding finish_found
finish_found-Aborted c ports tenant_id status code category at e s v =
    before c _ _ s (raise_if-Unwritten c _ _) v λ _ t1 v1.
      before c _ _ t1 (Keeps-lift _) v1 λ terminal t2 v2.
        writing c _ _ t2 (save-Committed c tenant_id terminal) v2.committed λ _ t3 v3.
          writing c _ _ t3 (audit-Committed c ports terminal _ at) v3 λ event t4 v4.
            writing c _ _ t4 (append-Committed c event) v4 λ _ t5 v5. committed_last c terminal t5

-- Where `_finish` raises, the committed executions, attempts and audit events are those from before
-- the call.
pub finish-raised :
    (ports : Ports) (tenant_id execution_id : String) (status : ExecutionStatus)
    (code : Option String) (category : Option ExecutionErrorCategory) (w w' : World) (e : Exc)
    → finish ports tenant_id execution_id status code category w ≡ (err e, w')
    → SameRecords w'.stores w.stores
unfolding finish
finish-raised ports tenant_id execution_id status code category w w' e h = subst (Left w.stores) h (
    still w.stores _ _ w (now-Still w.stores ports) refl λ at t1 v1.
      unit_of_work_last w.stores _ t1 (
        before w.stores _ _ _ (get-Unwritten w.stores tenant_id execution_id)
          (unwritten w.stores t1 v1)
          λ found s2 v2.
            before w.stores _ _ s2 (require-Unwritten w.stores found) v2 λ execution s3 v3.
              finish_found-Aborted w.stores ports tenant_id status code category at execution s3
                v3))
