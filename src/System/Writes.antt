-- ===== src/System/Writes.antt =====
-- The writes that every unit of work may make, and the end of a unit of work.
use nexus_mcp.Base.{ℕ, String, some, ◌≡◌, refl, arith}
use nexus_mcp.Dict.{Dict, get, put}
use nexus_mcp.Action.{Action}
use nexus_mcp.Action.Rules.{Keeps, settle, keeps_rules}
use nexus_mcp.Audit.{AuditEvent, AuditOutcome}
use nexus_mcp.Execution.{ToolExecution}
use nexus_mcp.Execution.Attempt.{ExecutionAttempt}
use nexus_mcp.Execution.Lifecycle.{execution_audit}
use nexus_mcp.Store.{Ports, Stores, World, Session, now, new_id, outside, commit, with_unit_of_work}
use nexus_mcp.Store.Audits
use nexus_mcp.Store.Attempts
use nexus_mcp.Store.Executions
use nexus_mcp.System.Invariant.{Inv, used, SameCall, put_execution, put_execution-Inv}
use nexus_mcp.System.Session.{Safe}

-- The invariant of what is committed.
abbrev pub IsSound : World → Type 0
IsSound w = Inv w.stores

-- The invariant says nothing of the audits and the attempts.
others-Inv :
    (s : Stores) (audits : Dict AuditEvent) (attempts : Dict ExecutionAttempt)
    → Inv s
    → Inv (record s { audits = audits; attempts = attempts })
unfolding used
others-Inv s audits attempts v = record {
  execution_key = v.execution_key;
  approval_key = v.approval_key;
  approval_used = v.approval_used;
  approval_backs = v.approval_backs;
  single_use = v.single_use;
  single_key = v.single_key;
}

others-Safe :
    (s : Session) (audits : Dict AuditEvent) (attempts : Dict ExecutionAttempt)
    → Safe s
    → Safe (record s { working = record s.working { audits = audits; attempts = attempts } })
others-Safe s audits attempts v = record {
  committed = v.committed;
  copies = others-Inv s.working audits attempts v.copies;
}

pub append-Safe : (e : AuditEvent) → Keeps Safe (Audits.append e)
unfolding Audits.append
append-Safe e = record {
  kept = λ s v.
      let t = record s { working = record s.working { audits = put e.id e s.working.audits } } in
      settle Safe s t (Audits.append e s) (ground arith) v
        (others-Safe s (put e.id e s.working.audits) s.working.attempts v);
}

abbrev write_attempt : ExecutionAttempt → Session → Session
write_attempt a s = record s {
  working = record s.working { attempts = put a.id a s.working.attempts };
}

write_attempt-Safe : (a : ExecutionAttempt) (s : Session) → Safe s → Safe (write_attempt a s)
write_attempt-Safe a s v = others-Safe s s.working.audits (put a.id a s.working.attempts) v

pub add_attempt-Safe :
    (tenant_id : String) (a : ExecutionAttempt) → Keeps Safe (Attempts.add tenant_id a)
unfolding Attempts.add
add_attempt-Safe tenant_id a = record {
  kept = λ s v.
      settle Safe s (write_attempt a s) (Attempts.add tenant_id a s) (ground arith) v
        (write_attempt-Safe a s v);
}

pub save_attempt-Safe :
    (tenant_id : String) (a : ExecutionAttempt) → Keeps Safe (Attempts.save tenant_id a)
unfolding Attempts.save
save_attempt-Safe tenant_id a = record {
  kept = λ s v.
      settle Safe s (write_attempt a s) (Attempts.save tenant_id a s) (ground arith) v
        (write_attempt-Safe a s v);
}

abbrev pub write_execution : ToolExecution → Session → Session
write_execution e s = record s { working = put_execution e s.working }

-- An execution that keeps the fields of its call is saved over the one that was read.
pub save_execution-Safe :
    (tenant_id : String) (e f : ToolExecution) (s : Session)
    → Safe s
    → get e.id s.working.executions ≡ some e
    → SameCall e f
    → Safe (Executions.save tenant_id f s).1
unfolding Executions.save
save_execution-Safe tenant_id e f s v h c =
    settle Safe s (write_execution f s) (Executions.save tenant_id f s) (ground arith) v
      (record { committed = v.committed; copies = put_execution-Inv e f s.working v.copies h c })

pub commit-Safe : Keeps Safe commit
unfolding commit
commit-Safe = record { kept = λ s v. record { committed = v.copies; copies = v.copies } }

pub outside-Safe :
    {A : Type 0} (m : Action World A)
    → ((w : World) → (m w).1.stores ≡ w.stores)
    → Keeps Safe (outside m)
unfolding outside
outside-Safe m h = record {
  kept = λ s v. record { committed = rw h v.committed; copies = v.copies };
}

pub with_unit_of_work-IsSound :
    {A : Type 0} (body : Action Session A)
    → ((s : Session) → Safe s → Safe (body s).1)
    → Keeps IsSound (with_unit_of_work body)
unfolding with_unit_of_work
with_unit_of_work-IsSound body h = record {
  kept = λ w v.
      (h (record { world = w; working = w.stores })
        (record { committed = v; copies = v })).committed;
}

pub with_unit_of_work-Keeps :
    {A : Type 0} (body : Action Session A)
    → Keeps Safe body
    → Keeps IsSound (with_unit_of_work body)
with_unit_of_work-Keeps body k = with_unit_of_work-IsSound body k.kept

pub now-Safe : (ports : Ports) → Keeps Safe (outside (now ports))
unfolding now
now-Safe ports = outside-Safe (now ports) (λ w. refl)

pub new_id-Safe : (ports : Ports) → Keeps Safe (outside (new_id ports))
unfolding new_id
new_id-Safe ports = outside-Safe (new_id ports) (λ w. refl)

pub now-IsSound : (ports : Ports) → Keeps IsSound (now ports)
unfolding now
now-IsSound ports = record { kept = λ w v. v }

pub new_id-IsSound : (ports : Ports) → Keeps IsSound (new_id ports)
unfolding new_id
new_id-IsSound ports = record { kept = λ w v. v }

pub execution_audit-Safe :
    (ports : Ports) (e : ToolExecution) (outcome : AuditOutcome) (at : ℕ)
    → Keeps Safe (execution_audit ports e outcome at)
unfolding execution_audit
execution_audit-Safe ports e outcome at = search (keeps_rules, new_id-Safe)
