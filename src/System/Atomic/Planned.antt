-- ===== src/System/Atomic/Planned.antt =====
-- `plan` of src/nexusmcp/modules/execution/lifecycle.py, where it raises, has written nothing but an
-- approval that ran out, which it commits on purpose.
use nexus_mcp.Base.{subst, ℕ, String, Option, none, some, ◌≡◌, refl, arith}
use nexus_mcp.Errors.{Exc}
use nexus_mcp.Result.{err}
use nexus_mcp.Action.Rules.{
  Keeps, keeps_rules, Keeps-bind, Keeps-pure, Keeps-raise, Keeps-lift, Keeps-if, Keeps-try_else,
}
use nexus_mcp.Approval.{ApprovalRequest, Presented}
use nexus_mcp.Approval.Consume.{
  ConsumeApprovalCommand, require_found, require_matching_call, expire_locked, consume_in_time,
  consume_locked_approval, commit_expiry,
}
use nexus_mcp.Execution.{ToolExecution}
use nexus_mcp.Execution.Lifecycle.{
  PlanExecutionCommand, plan, plan_body, reject_reuse, reject_existing, use_approval,
}
use nexus_mcp.Store.{Ports, Stores, World, Session, commit}
use nexus_mcp.Store.Approvals
use nexus_mcp.Store.Executions
use nexus_mcp.System.Atomic.{
  SameRecords, Unwritten, Aborted, Left, before, writing, still, unit_of_work, add-Committed,
  append-Committed, audit-Committed, now-Still, new_id-Still, unwritten,
}

save-Unwritten :
    (c : Stores) (tenant_id : String) (a : ApprovalRequest)
    → Keeps (Unwritten c) (Approvals.save tenant_id a)
unfolding Approvals.save
save-Unwritten c tenant_id a = record { kept = λ s v. ground arith }

get-Unwritten :
    (c : Stores) (tenant_id id : String) → Keeps (Unwritten c) (Approvals.get_by_id tenant_id id)
unfolding Approvals.get_by_id
get-Unwritten c tenant_id id = record { kept = λ s v. v }

commit-Unwritten : (c : Stores) → Keeps (Unwritten c) commit
unfolding commit
commit-Unwritten c = record { kept = λ s v. record { committed = v.copies; copies = v.copies } }

require_found-Unwritten :
    (c : Stores) (o : Option ApprovalRequest) → Keeps (Unwritten c) (require_found o)
unfolding require_found
require_found-Unwritten c none = Keeps-raise _
require_found-Unwritten c (some a) = Keeps-pure a

require_matching_call-Unwritten :
    (c : Stores) (a : ApprovalRequest) (call : Presented)
    → Keeps (Unwritten c) (require_matching_call a call)
unfolding require_matching_call
require_matching_call-Unwritten c a call = record { kept = λ s v. ground arith }

consume-Unwritten :
    (c : Stores) (command : ConsumeApprovalCommand) (at : ℕ)
    → Keeps (Unwritten c) (consume_locked_approval command at)
unfolding consume_locked_approval expire_locked consume_in_time
consume-Unwritten c command at =
    search
      (
        keeps_rules, save-Unwritten, get-Unwritten, require_found-Unwritten,
        require_matching_call-Unwritten,
      )
      depth 12

commit_expiry-Unwritten :
    {A : Type 0} (c : Stores) (e : Exc) → Keeps (Unwritten c) (commit_expiry {A = A} e)
unfolding commit_expiry
commit_expiry-Unwritten c e =
    Keeps-if _ _ _ (Keeps-bind _ _ (commit-Unwritten c) λ _. Keeps-raise e) (Keeps-raise e)

use_approval-Unwritten :
    (c : Stores) (o : Option String) (command : PlanExecutionCommand) (at : ℕ)
    → Keeps (Unwritten c) (use_approval o command at)
unfolding use_approval
use_approval-Unwritten c none command at = Keeps-pure tt
use_approval-Unwritten c (some id) command at =
    Keeps-try_else _ _ _ (consume-Unwritten c _ at) (commit_expiry-Unwritten c) λ _. Keeps-pure tt

reject_existing-Unwritten :
    (c : Stores) (o : Option ToolExecution) (digest : String)
    → Keeps (Unwritten c) (reject_existing o digest)
unfolding reject_existing
reject_existing-Unwritten c none digest = Keeps-pure tt
reject_existing-Unwritten c (some e) digest = Keeps-raise _

reject_reuse-Unwritten :
    (c : Stores) (o : Option String) (command : PlanExecutionCommand)
    → Keeps (Unwritten c) (reject_reuse o command)
unfolding reject_reuse Executions.get_by_idempotency_key
reject_reuse-Unwritten c none command = Keeps-pure tt
reject_reuse-Unwritten c (some key) command =
    Keeps-bind _ _ (record { kept = λ s v. v })
      λ existing. reject_existing-Unwritten c existing command.arguments_digest

plan_body-Aborted :
    (c : Stores) (ports : Ports) (command : PlanExecutionCommand) (e : ToolExecution) (at : ℕ)
    (s : Session)
    → Unwritten c s
    → Aborted c (plan_body ports command e at s)
unfolding plan_body commit
plan_body-Aborted c ports command e at s v =
    before c _ _ s (reject_reuse-Unwritten c command.idempotency_key command) v λ _ t1 v1.
      before c _ _ t1 (use_approval-Unwritten c command.approval_id command at) v1 λ _ t2 v2.
        writing c _ _ t2 (add-Committed c _ e) v2.committed λ _ t3 v3.
          writing c _ _ t3 (audit-Committed c ports e _ at) v3
            λ event t4 v4. writing c _ _ t4 (append-Committed c event) v4 λ _ t5 v5. tt

-- Where `plan` raises, the committed executions, attempts and audit events are those from before the
-- call. (An approval that ran out is marked so, which the code commits on purpose.)
pub plan-raised :
    (ports : Ports) (command : PlanExecutionCommand) (w w' : World) (e : Exc)
    → plan ports command w ≡ (err e, w')
    → SameRecords w'.stores w.stores
unfolding plan
plan-raised ports command w w' e h = subst (Left w.stores) h left
  where
    left : Left w.stores (plan ports command w)
    left = still w.stores _ _ w (now-Still w.stores ports) refl λ at t1 v1.
        still w.stores _ _ t1 (new_id-Still w.stores ports) v1 λ id t2 v2.
          still w.stores _ _ t2 (Keeps-lift _) v2 λ draft t3 v3.
            still w.stores _ _ t3 (Keeps-lift _) v3 λ execution t4 v4.
              unit_of_work w.stores (plan_body ports command execution at) (λ _. execution) t4
                (plan_body-Aborted w.stores ports command execution at _ (unwritten w.stores t4 v4))
