-- ===== src/System/Counting.antt =====
-- How often a call with its retries begins an attempt:
-- src/nexusmcp/modules/execution/retrying_executor.py and `start_attempt` and `_finish_attempt` of
-- src/nexusmcp/modules/execution/lifecycle.py.
use nexus_mcp.Base.{ℕ, ◌+◌, ◌≤◌, String, Option, some, none, ◌≡◌, subst, arith, inl, inr}
use nexus_mcp.Dict.{get, put}
use nexus_mcp.Dict.Laws.{get-put_cases}
use nexus_mcp.Kinds.{ExecutionErrorCategory}
use nexus_mcp.Result.{ok}
use nexus_mcp.Action.{Action, ◌>>=◌, raise_if}
use nexus_mcp.Action.Rules.{
  Keeps, Keeps-bind, Keeps-bind-lift, Keeps-raise_if, settle, keeps_rules, Keeps-pure,
}
use nexus_mcp.Execution.{ToolExecution, register_attempt}
use nexus_mcp.Execution.Attempt.{ExecutionAttempt, AttemptStatus, new_attempt}
use nexus_mcp.Execution.Lifecycle.{
  start_attempt, start_found, finish_attempt, finish_attempt_found, require_attempt,
  require_execution, numbered_attempt,
}
use nexus_mcp.Store.{Ports, Stores, World, Session, now, new_id, outside, with_unit_of_work, commit}
use nexus_mcp.Store.Executions
use nexus_mcp.Store.Attempts
use nexus_mcp.System.Finishing.{require_execution-run}

registered :
    (n : ℕ) (e f : ToolExecution)
    → register_attempt e ≡ ok f
    → e.attempt_count ≤ n
    → f.attempt_count ≤ n + 1
unfolding register_attempt
registered n e f q l = ground arith

of_tenant-stored :
    (tenant_id : String) (o : Option ToolExecution) (e : ToolExecution)
    → Executions.of_tenant tenant_id o ≡ some e
    → o ≡ some e
of_tenant-stored tenant_id o e h = ground arith

module _ (id : String) where
  -- The execution, if it is stored, has begun at most so many attempts.
  abbrev pub AtMost : ℕ → Stores → Type 0
  AtMost n s = (e : ToolExecution) → get id s.executions ≡ some e → e.attempt_count ≤ n

  -- So it is in what is committed and in the copies.
  record Within (n : ℕ) (s : Session) : Type 0 where
    committed : AtMost n s.world.stores
    copies : AtMost n s.working

  pub AtMost-weaken : (n m : ℕ) (s : Stores) → n ≤ m → AtMost n s → AtMost m s
  AtMost-weaken n m s l h e p = omega (arith, h e p)

  save-Within :
      (n : ℕ) (tenant_id : String) (f : ToolExecution)
      → f.attempt_count ≤ n
      → Keeps (Within n) (Executions.save tenant_id f)
  unfolding Executions.save
  save-Within n tenant_id f l = record {
    kept = λ s v.
        settle (Within n) s
          (record s { working = record s.working { executions = put f.id f s.working.executions } })
          (Executions.save tenant_id f s) (ground arith) v
          (record {
            committed = v.committed;
            copies = λ e p. elim (get-put_cases f.id id f e s.working.executions p) [
              | inl (i, same) ↦ subst (λ (x : ToolExecution). x.attempt_count ≤ n) same l
              | inr q ↦ v.copies e q
            ];
          });
  }

  abbrev write_attempt : ExecutionAttempt → Session → Session
  write_attempt a s = record s {
    working = record s.working { attempts = put a.id a s.working.attempts };
  }

  add-Within :
      (n : ℕ) (tenant_id : String) (a : ExecutionAttempt)
      → Keeps (Within n) (Attempts.add tenant_id a)
  unfolding Attempts.add
  add-Within n tenant_id a = record {
    kept = λ s v.
        settle (Within n) s (write_attempt a s) (Attempts.add tenant_id a s) (ground arith) v
          (record { committed = v.committed; copies = v.copies });
  }

  save_attempt-Within :
      (n : ℕ) (tenant_id : String) (a : ExecutionAttempt)
      → Keeps (Within n) (Attempts.save tenant_id a)
  unfolding Attempts.save
  save_attempt-Within n tenant_id a = record {
    kept = λ s v.
        settle (Within n) s (write_attempt a s) (Attempts.save tenant_id a s) (ground arith) v
          (record { committed = v.committed; copies = v.copies });
  }

  commit-Within : (n : ℕ) → Keeps (Within n) commit
  unfolding commit
  commit-Within n = record { kept = λ s v. record { committed = v.copies; copies = v.copies } }

  new_id-Within : (n : ℕ) (ports : Ports) → Keeps (Within n) (outside (new_id ports))
  unfolding outside new_id
  new_id-Within n ports = record {
    kept = λ s v. record { committed = v.committed; copies = v.copies };
  }

  get_for_update-Within :
      (n : ℕ) (tenant_id attempt_id : String)
      → Keeps (Within n) (Attempts.get_for_update tenant_id attempt_id)
  unfolding Attempts.get_for_update
  get_for_update-Within n tenant_id attempt_id = record { kept = λ s v. v }

  require_attempt-Within :
      (n : ℕ) (found : Option ExecutionAttempt) → Keeps (Within n) (require_attempt found)
  unfolding require_attempt
  require_attempt-Within n none = record { kept = λ s v. v }
  require_attempt-Within n (some a) = record { kept = λ s v. v }

  finish_attempt_found-Within :
      (n : ℕ) (tenant_id : String) (status : AttemptStatus) (code : Option String)
      (category : Option ExecutionErrorCategory) (upstream : Option ℕ) (at : ℕ)
      (a : ExecutionAttempt)
      → Keeps (Within n) (finish_attempt_found tenant_id status code category upstream at a)
  unfolding finish_attempt_found
  finish_attempt_found-Within n tenant_id status code category upstream at a =
      search (keeps_rules, Keeps-raise_if, save_attempt-Within, commit-Within)

  unit-AtMost :
      {A : Type 0} (n m : ℕ) (body : Action Session A) (w : World)
      → ((s : Session) → Within n s → Within m (body s).1)
      → AtMost n w.stores
      → AtMost m (with_unit_of_work body w).1.stores
  unfolding with_unit_of_work
  unit-AtMost n m body w k h =
      (k (record { world = w; working = w.stores })
        (record { committed = h; copies = h })).committed

  -- The worlds in which it has.
  abbrev pub Count : ℕ → World → Type 0
  Count n w = AtMost n w.stores

  pub finish_attempt-Count :
      (n : ℕ) (ports : Ports) (tenant_id attempt_id : String) (status : AttemptStatus)
      (code : Option String) (category : Option ExecutionErrorCategory) (upstream : Option ℕ)
      → Keeps (Count n) (finish_attempt ports tenant_id attempt_id status code category upstream)
  unfolding finish_attempt now ◌>>=◌
  finish_attempt-Count n ports tenant_id attempt_id status code category upstream = record {
    kept = λ w h.
        let at = ports.times w.ticks in
        unit-AtMost n n _ (record w { ticks = w.ticks + 1 })
          (Keeps.kept (
            Keeps-bind (Attempts.get_for_update tenant_id attempt_id) _
              (get_for_update-Within n tenant_id attempt_id)
              λ found.
                Keeps-bind (require_attempt found) _ (require_attempt-Within n found)
                  λ a. finish_attempt_found-Within n tenant_id status code category upstream at a))
          h;
  }

  start_found-Within :
      (n : ℕ) (ports : Ports) (tenant_id execution_id : String) (at : ℕ) (e : ToolExecution)
      → e.attempt_count ≤ n
      → Keeps (Within (n + 1)) (start_found ports tenant_id execution_id at e)
  unfolding start_found
  start_found-Within n ports tenant_id execution_id at e l =
      Keeps-bind (raise_if _ _) _ (Keeps-raise_if _ _) λ _.
        Keeps-bind-lift (register_attempt e) _ λ f q.
          Keeps-bind (outside (new_id ports)) _ (new_id-Within (n + 1) ports) λ i.
            Keeps-bind-lift (new_attempt (numbered_attempt tenant_id execution_id f at i)) _ λ a _.
              Keeps-bind (Executions.save tenant_id f) _
                (save-Within (n + 1) tenant_id f (registered n e f q l))
                λ _.
                  Keeps-bind (Attempts.add tenant_id a) _ (add-Within (n + 1) tenant_id a)
                    λ _. Keeps-bind commit _ (commit-Within (n + 1)) λ _. Keeps-pure a

  weaken-Within : (n : ℕ) (s : Session) → Within n s → Within (n + 1) s
  weaken-Within n s v = record {
    committed = AtMost-weaken n (n + 1) s.world.stores (omega arith) v.committed;
    copies = AtMost-weaken n (n + 1) s.working (omega arith) v.copies;
  }

  start_read-Within :
      (n : ℕ) (ports : Ports) (tenant_id : String) (at : ℕ) (s : Session)
      → Within n s
      → Within
          (n + 1)
          ((Executions.get_by_id tenant_id id >>= λ found.
              require_execution found >>= start_found ports tenant_id id at)
            s).1
  unfolding Executions.get_by_id ◌>>=◌
  start_read-Within n ports tenant_id at s v =
      require_execution-run (Within (n + 1))
        (Executions.of_tenant tenant_id (get id s.working.executions))
        (start_found ports tenant_id id at) s (weaken-Within n s v)
        λ e q.
          (start_found-Within n ports tenant_id id at e
              (v.copies e (of_tenant-stored tenant_id (get id s.working.executions) e q))).kept
            s (weaken-Within n s v)

  -- One attempt more, at most.
  pub start_attempt-Count :
      (n : ℕ) (ports : Ports) (tenant_id : String) (w : World)
      → Count n w
      → Count (n + 1) (start_attempt ports tenant_id id w).1
  unfolding start_attempt now ◌>>=◌
  start_attempt-Count n ports tenant_id w h =
      unit-AtMost n (n + 1) _ (record w { ticks = w.ticks + 1 })
        (start_read-Within n ports tenant_id (ports.times w.ticks)) h
