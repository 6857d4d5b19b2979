-- ===== src/System/Stored.antt =====
-- What `_finish` of src/nexusmcp/modules/execution/lifecycle.py leaves in the stores when it returns.
use nexus_mcp.Base.{
  none, refl, ℕ, String, Bool, true, false, not, Option, some, ◌≡◌, ap, sym, arith, subst, ◌∙◌,
}
use nexus_mcp.Dict.{get}
use nexus_mcp.Dict.Laws.{get-put_self}
use nexus_mcp.Kinds.{ExecutionErrorCategory}
use nexus_mcp.Errors.{Exc}
use nexus_mcp.Result.{Result, ok, err}
use nexus_mcp.Action.{Action, pure, lift, raise_if, ◌>>=◌, ◌>>◌}
use nexus_mcp.Action.Rules.{keeping, Post, bind-Post, lift-Post, weaken-Post, Keeps}
use nexus_mcp.Audit.{AuditEvent, AuditOutcome, new_event, new_evidence}
use nexus_mcp.Execution.{ToolExecution, ExecutionStatus, is_running}
use nexus_mcp.Execution.Lifecycle.{
  terminal_execution, terminal_outcome, execution_audit, finish_found, require_execution, finish,
}
use nexus_mcp.Store.{Ports, Session, new_id, outside, commit, World, now, with_unit_of_work}
use nexus_mcp.Store.Executions
use nexus_mcp.Store.Audits
use nexus_mcp.System.Ended.{
  Reports, Ended, final_outcome, terminal_outcome-final, terminal-ended_as,
}
use nexus_mcp.System.Writes.{IsSound}

-- The copies hold the execution.
abbrev Holds : ToolExecution → Session → Type 0
Holds f s = get f.id s.working.executions ≡ some f

-- The raising ends are left open.
abbrev Open : Exc → Session → Type 0
Open e s = Unit {0}

save-Holds :
    (tenant_id : String) (f : ToolExecution) (s : Session)
    → Post (λ _ t. Holds f t) Open (Executions.save tenant_id f s)
unfolding Executions.save
save-Holds tenant_id f s = ground (arith, get-put_self f.id f s.working.executions)

new_id-Holds : (f : ToolExecution) (ports : Ports) → Keeps (Holds f) (outside (new_id ports))
unfolding outside new_id
new_id-Holds f ports = record { kept = λ s v. v }

module _ {A B : Type 0} where
  holding :
      (f : ToolExecution) (Q : B → Session → Type 0) (m : Action Session A)
      (g : A → Action Session B) (s : Session)
      → Keeps (Holds f) m
      → Holds f s
      → ((a : A) (t : Session) → Holds f t → Post Q Open (g a t))
      → Post Q Open ((m >>= g) s)
  holding f Q m g s k v h = keeping (Holds f) Q Open m g s k v (λ _ _ _. tt) h

new_event_self : (a b : AuditEvent) → new_event a ≡ ok b → a ≡ b
unfolding new_event
new_event_self a b h = ground arith

lifted :
    {A : Type 0} (Q : A → Session → Type 0) (r : Result A) (s : Session)
    → ((a : A) → r ≡ ok a → Q a s)
    → Post Q Open (lift r s)
lifted Q (ok a) s h = h a refl
lifted Q (err e) s h = tt

audit-Reports :
    (f : ToolExecution) (ports : Ports) (outcome : AuditOutcome) (at : ℕ) (s : Session)
    → Holds f s
    → Post (λ a t. Holds f t × Reports outcome f at a) Open (execution_audit ports f outcome at s)
unfolding execution_audit
audit-Reports f ports outcome at s v =
    holding f _ (outside (new_id ports)) _ s (new_id-Holds f ports) v λ id t v'.
      lift-Post _ _ (new_evidence _) _ t
        (λ evidence _. lifted _ (new_event _) t λ a q. (
          v',
          subst (Reports outcome f at) (new_event_self _ a q)
              (record { shows = refl; of_execution = refl; of_tenant = refl; occurred = refl }),
        ))
        (λ _ _. tt)

append-Logged :
    (f : ToolExecution) (a : AuditEvent) (s : Session)
    → Holds f s
    → Post (λ _ t. Holds f t × (get a.id t.working.audits ≡ some a)) Open (Audits.append a s)
unfolding Audits.append
append-Logged f a s v = ground (arith, get-put_self a.id a s.working.audits)

raise_if-passed : (b : Bool) (x : Exc) (s : Session) → Post (λ _ _. b ≡ false) Open (raise_if b x s)
raise_if-passed true x s = tt
raise_if-passed false x s = refl

last :
    (f : ToolExecution) (Q : ToolExecution → Session → Type 0) (s : Session)
    → Q f (record s { world = record s.world { stores = s.working } })
    → Post Q Open ((commit >> pure f) s)
unfolding commit ◌>>=◌
last f Q s q = q

ended :
    (status : ExecutionStatus) (code : Option String) (category : Option ExecutionErrorCategory)
    (at : ℕ) (e f : ToolExecution) (s : Session) (event : AuditEvent)
    → not (is_running e.status) ≡ false
    → terminal_execution status code category e at ≡ ok f
    → Reports (terminal_outcome status) f at event
    → Holds f s × (get event.id s.working.audits ≡ some event)
    → Ended status code category at e f s.working
ended status code category at e f s event running q r h =
    let result = terminal-ended_as status code category e f at q in
    let outcome =
      terminal_outcome-final status ∙ ap (λ (x : ToolExecution). final_outcome x.status) result in
    record {
      was_running = ground arith;
      result = result;
      stored = h.0;
      event = event;
      logged = h.1;
      reports = subst (λ o. Reports o f at event) outcome r;
    }

finish_found-Ended :
    (ports : Ports) (tenant_id : String) (status : ExecutionStatus) (code : Option String)
    (category : Option ExecutionErrorCategory) (at : ℕ) (e : ToolExecution) (s : Session)
    → Post
        (λ f t. Ended status code category at e f t.world.stores)
        Open
        (finish_found ports tenant_id status code category at e s)
unfolding finish_found
finish_found-Ended ports tenant_id status code category at e s =
    bind-Post (λ _ _. not (is_running e.status) ≡ false) _ _ (raise_if _ _) _ s
      (raise_if-passed _ _ s)
      λ _ s1 passed.
        lift-Post _ _ (terminal_execution status code category e at) _ s1
          (λ f q.
            bind-Post (λ _ t. Holds f t) _ _ (Executions.save tenant_id f) _ s1
              (save-Holds tenant_id f s1)
              λ _ s2 v2.
                bind-Post (λ a t. Holds f t × Reports (terminal_outcome status) f at a) _ _
                  (execution_audit ports f (terminal_outcome status) at) _ s2
                  (audit-Reports f ports (terminal_outcome status) at s2 v2)
                  λ event s3 v3.
                    bind-Post (λ _ t. Holds f t × (get event.id t.working.audits ≡ some event)) _ _
                      (Audits.append event) _ s3 (append-Logged f event s3 v3.0)
                      λ _ s4 v4.
                        last f _ s4 (ended status code category at e f s4 event passed q v3.1 v4))
          (λ _ _. tt)

-- The execution that was looked for, as it stood before, and the terminal one that stands in its place.
pub record Finished (ports : Ports) (id : String) (status : ExecutionStatus) (code : Option String)
    (category : Option ExecutionErrorCategory) (w : World) (f : ToolExecution) (w' : World)
    : Type 0 where
  pub former : ToolExecution
  pub was_stored : get id w.stores.executions ≡ some former
  pub ended : Ended status code category (ports.times w.ticks) former f w'.stores
  pub same_id : f.id ≡ id

of_tenant-some :
    (tenant_id : String) (o : Option ToolExecution) (e : ToolExecution)
    → Executions.of_tenant tenant_id o ≡ some e
    → o ≡ some e
of_tenant-some tenant_id o e h = ground arith

module _ (ports : Ports) (tenant_id id : String) (status : ExecutionStatus) (code : Option String)
    (category : Option ExecutionErrorCategory) (w : World) (sound : IsSound w) where
  -- What the unit of work leaves.
  abbrev LeftBy : ToolExecution → World → Type 0
  LeftBy f w' = Finished ports id status code category w f w'

  found-Finished :
      (o : Option ToolExecution) (s : Session)
      → Executions.of_tenant tenant_id (get id w.stores.executions) ≡ o
      → Post
          (λ f t. LeftBy f t.world)
          Open
          ((require_execution o
              >>= finish_found ports tenant_id status code category (ports.times w.ticks))
            s)
  unfolding require_execution ◌>>=◌
  found-Finished none s h = tt
  found-Finished (some e) s h =
      let stored = of_tenant-some tenant_id (get id w.stores.executions) e h in
      let keyed = sound.execution_key id e stored in
      weaken-Post (λ f t. Ended status code category (ports.times w.ticks) e f t.world.stores)
        (λ f t. LeftBy f t.world) Open Open
        (finish_found ports tenant_id status code category (ports.times w.ticks) e s)
        (finish_found-Ended ports tenant_id status code category (ports.times w.ticks) e s)
        (λ f t x. record {
          former = e;
          was_stored = stored;
          ended = x;
          same_id = ap (λ (g : ToolExecution). g.id) (sym x.result) ∙ keyed;
        })
        (λ _ _ x. x)

  closed :
      (o : Result ToolExecution × Session)
      → Post (λ f t. LeftBy f t.world) Open o
      → Post LeftBy (λ _ _. Unit {0}) (o.0, o.1.world)
  closed (ok a, s) h = h
  closed (err e, s) h = tt

  finish-Post : Post LeftBy (λ _ _. Unit {0}) (finish ports tenant_id id status code category w)
  unfolding finish now with_unit_of_work ◌>>=◌ Executions.get_by_id
  finish-Post = closed _ (found-Finished _ _ refl)

-- On stores that satisfy the invariant, `_finish` that returns found the execution stored and
-- running, and left the returned one stored under the same identifier. This has the wanted status
-- where that is terminal, else failed, ended at the time of the call, and shows the given error: a
-- cancellation and an unknown outcome show the category of their own, a cancellation also its own
-- code, and a success leaves the error alone. All other fields are as they were. An audit event of
-- this execution, with the outcome of its status and this time, is stored too.
pub finish-Finished :
    (ports : Ports) (tenant_id id : String) (status : ExecutionStatus) (code : Option String)
    (category : Option ExecutionErrorCategory) (w w' : World) (f : ToolExecution)
    → IsSound w
    → finish ports tenant_id id status code category w ≡ (ok f, w')
    → Finished ports id status code category w f w'
finish-Finished ports tenant_id id status code category w w' f sound h =
    subst (Post (λ g t. Finished ports id status code category w g t) (λ _ _. Unit {0})) h
      (finish-Post ports tenant_id id status code category w sound)
