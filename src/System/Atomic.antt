-- ===== src/System/Atomic.antt =====
-- Rules for units of work that raise: their writes went to the copies, which are dropped.
pub mod Planned
pub mod Finished
use nexus_mcp.Base.{subst, ℕ, String, Option, none, some, ◌≡◌, refl, arith}
use nexus_mcp.Errors.{Exc}
use nexus_mcp.Result.{Result, ok, err}
use nexus_mcp.Action.{continue, Action, pure, ◌>>=◌}
use nexus_mcp.Action.Rules.{
  keeping, Post, bind-Post, weaken-Post, both-Post, Keeps, keeps_rules, Keeps-bind, Keeps-pure,
  Keeps-raise, Keeps-lift, Keeps-if, Keeps-try_else,
}
use nexus_mcp.Approval.{ApprovalRequest, Presented}
use nexus_mcp.Approval.Consume.{
  ConsumeApprovalCommand, require_found, require_matching_call, expire_locked, consume_in_time,
  consume_locked_approval, commit_expiry,
}
use nexus_mcp.Audit.{AuditEvent, AuditOutcome}
use nexus_mcp.Execution.{ToolExecution}
use nexus_mcp.Execution.Lifecycle.{
  PlanExecutionCommand, plan, plan_body, reject_reuse, reject_existing, use_approval,
  execution_audit,
}
use nexus_mcp.Store.{Ports, Stores, World, Session, now, new_id, outside, commit, with_unit_of_work}
use nexus_mcp.Store.Approvals
use nexus_mcp.Store.Executions
use nexus_mcp.Store.Audits

-- The same executions, attempts and audit events.
pub record SameRecords (s t : Stores) : Type 0 where
  pub executions : s.executions ≡ t.executions
  pub attempts : s.attempts ≡ t.attempts
  pub audits : s.audits ≡ t.audits

-- What is committed has the records of `c`.
abbrev pub Committed : Stores → Session → Type 0
Committed c s = SameRecords s.world.stores c

-- So have the copies.
pub record Unwritten (c : Stores) (s : Session) : Type 0 where
  pub committed : SameRecords s.world.stores c
  pub copies : SameRecords s.working c

pub add-Committed :
    (c : Stores) (tenant_id : String) (e : ToolExecution)
    → Keeps (Committed c) (Executions.add tenant_id e)
unfolding Executions.add
add-Committed c tenant_id e = record { kept = λ s v. ground arith }

pub save-Committed :
    (c : Stores) (tenant_id : String) (e : ToolExecution)
    → Keeps (Committed c) (Executions.save tenant_id e)
unfolding Executions.save
save-Committed c tenant_id e = record { kept = λ s v. ground arith }

pub append-Committed : (c : Stores) (e : AuditEvent) → Keeps (Committed c) (Audits.append e)
unfolding Audits.append
append-Committed c e = record { kept = λ s v. ground arith }

new_id-Committed : (c : Stores) (ports : Ports) → Keeps (Committed c) (outside (new_id ports))
unfolding outside new_id
new_id-Committed c ports = record { kept = λ s v. v }

pub audit-Committed :
    (c : Stores) (ports : Ports) (e : ToolExecution) (outcome : AuditOutcome) (at : ℕ)
    → Keeps (Committed c) (execution_audit ports e outcome at)
unfolding execution_audit
audit-Committed c ports e outcome at = search (keeps_rules, new_id-Committed)

-- Where it raised, what is committed has the records of `c`.
abbrev pub Aborted : {A : Type 0} → Stores → Result A × Session → Type 0
Aborted c o = Post (λ _ _. Unit {0}) (λ _ t. Committed c t) o

module _ {A B : Type 0} (c : Stores) where
  -- A step before the first write.
  pub before :
      (m : Action Session A) (f : A → Action Session B) (s : Session)
      → Keeps (Unwritten c) m
      → Unwritten c s
      → ((a : A) (t : Session) → Unwritten c t → Aborted c (f a t))
      → Aborted c ((m >>= f) s)
  before m f s k v h =
      keeping (Unwritten c) (λ _ _. Unit {0}) (λ _ t. Committed c t) m f s k v
        (λ _ _ x. x.committed) h

  -- A step whose writes go to the copies.
  pub writing :
      (m : Action Session A) (f : A → Action Session B) (s : Session)
      → Keeps (Committed c) m
      → Committed c s
      → ((a : A) (t : Session) → Committed c t → Aborted c (f a t))
      → Aborted c ((m >>= f) s)
  writing m f s k v h =
      keeping (Committed c) (λ _ _. Unit {0}) (λ _ t. Committed c t) m f s k v (λ _ _ x. x) h

-- Where the call raised, the world has the records of `c`.
abbrev pub Left : {A : Type 0} → Stores → Result A × World → Type 0
Left c o = Post (λ _ _. Unit {0}) (λ _ t. SameRecords t.stores c) o

-- Nothing was written.
abbrev pub Still : Stores → World → Type 0
Still c w = w.stores ≡ c

pub now-Still : (c : Stores) (ports : Ports) → Keeps (Still c) (now ports)
unfolding now
now-Still c ports = record { kept = λ w v. v }

pub new_id-Still : (c : Stores) (ports : Ports) → Keeps (Still c) (new_id ports)
unfolding new_id
new_id-Still c ports = record { kept = λ w v. v }

records : (c : Stores) (w : World) → Still c w → SameRecords w.stores c
records c w v = ground arith

pub unwritten :
    (c : Stores) (w : World) → Still c w → Unwritten c (record { world = w; working = w.stores })
unwritten c w v = record { committed = records c w v; copies = records c w v }

module _ {A B : Type 0} (c : Stores) where
  -- A step that does not write.
  pub still :
      (m : Action World A) (f : A → Action World B) (w : World)
      → Keeps (Still c) m
      → Still c w
      → ((a : A) (t : World) → Still c t → Left c (f a t))
      → Left c ((m >>= f) w)
  still m f w k v h =
      keeping (Still c) (λ _ _. Unit {0}) (λ _ t. SameRecords t.stores c) m f w k v
        (λ _ t x. records c t x) h

  -- A unit of work, and a step that cannot raise.
  pub unit_of_work :
      (body : Action Session A) (f : A → B) (w : World)
      → Aborted c (body (record { world = w; working = w.stores }))
      → Left c ((with_unit_of_work body >>= λ a. pure (f a)) w)
  unfolding with_unit_of_work ◌>>=◌
  unit_of_work body f w h = closed (body (record { world = w; working = w.stores })) h
    where
      closed :
          (o : Result A × Session) → Aborted c o → Left c (continue o.0 (λ a. pure (f a)) o.1.world)
      closed (ok a, s) v = tt
      closed (err e, s) v = v

module _ {A : Type 0} (c : Stores) where
  -- A unit of work.
  pub unit_of_work_last :
      (body : Action Session A) (w : World)
      → Aborted c (body (record { world = w; working = w.stores }))
      → Left c (with_unit_of_work body w)
  unfolding with_unit_of_work
  unit_of_work_last body w h = closed (body (record { world = w; working = w.stores })) h
    where
      closed : (o : Result A × Session) → Aborted c o → Left c (o.0, o.1.world)
      closed (ok a, s) v = tt
      closed (err e, s) v = v
