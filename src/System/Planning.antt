-- ===== src/System/Planning.antt =====
-- `plan` of src/nexusmcp/modules/execution/lifecycle.py keeps the invariant: the approval and the
-- key are checked in the unit of work that adds the execution.
use nexus_mcp.Base.{
  ℕ, String, true, false, Option, none, some, ◌≡◌, refl, sym, subst, ap, ◌∙◌, arith,
}
use nexus_mcp.Dict.{get, find, values}
use nexus_mcp.Dict.Laws.{get-find-none}
use nexus_mcp.Errors.{Exc}
use nexus_mcp.Action.{◌>>=◌}
use nexus_mcp.Action.Rules.{
  Post, Post-both, Keeps, Keeps-Post, Keeps-bind, Keeps-bind-lift, Keeps-pure, both-Post, settle,
  if-Post, keeps_rules, bind-Post, weaken-Post, try_else-Post,
}
use nexus_mcp.Audit.{AuditOutcome}
use nexus_mcp.Approval.Consume.{consume_locked_approval, commit_expiry, is_expiry}
use nexus_mcp.Execution.{ToolExecution, new_execution, start}
use nexus_mcp.Execution.Lifecycle.{
  PlanExecutionCommand, reject_reuse, use_approval, reject_existing, plan_body, execution_audit,
  plan, planned,
}
use nexus_mcp.Store.{Ports, now, new_id, with_unit_of_work, Stores, Session, commit}
use nexus_mcp.Store.Executions
use nexus_mcp.Store.Audits
use nexus_mcp.System.Invariant.{used, NotHeld, NewKey, add_execution-Inv, Backs}
use nexus_mcp.System.Session.{Safe, Consumed, Answers}
use nexus_mcp.System.Locked.{consume_locked_approval-Post}
use nexus_mcp.System.Writes.{
  write_execution, append-Safe, commit-Safe, execution_audit-Safe, IsSound, now-IsSound,
  new_id-IsSound, with_unit_of_work-IsSound,
}
use nexus_mcp.Result.{ok}
use nexus_mcp.Approval.{Presented, ApprovalRequest}

-- The execution is the one that the command asks for.
pub record Asked (c : PlanExecutionCommand) (e : ToolExecution) : Type 0 where
  pub tenant : e.tenant_id ≡ c.context.tenant_id
  pub principal : e.principal_id ≡ c.principal_id
  pub version : e.tool_version_id ≡ c.tool_version_id
  pub approval : e.approval_id ≡ c.approval_id
  pub key : e.idempotency_key ≡ c.idempotency_key
  pub digest : e.arguments_digest ≡ c.arguments_digest
  pub policy : e.policy_version ≡ c.policy_version

-- What the command presents to the approval.
abbrev presented : PlanExecutionCommand → Presented
presented c = record {
  principal_id = c.principal_id;
  tool_version_id = c.tool_version_id;
  arguments_digest = c.arguments_digest;
  policy_version = c.policy_version;
  idempotency_key = c.idempotency_key;
}

Answers-Backs :
    (c : PlanExecutionCommand) (f : ToolExecution) (a : ApprovalRequest)
    → Asked c f
    → Answers c.context.tenant_id (presented c) a
    → Backs a f
Answers-Backs c f a q b = ground arith

NewKey-of_scan :
    (c : PlanExecutionCommand) (f : ToolExecution) (key : String) (s : Stores)
    → Asked c f
    → c.idempotency_key ≡ some key
    → find
        (Executions.has_key c.context.tenant_id c.principal_id c.tool_version_id key)
        (values s.executions)
      ≡ none
    → NewKey f s
unfolding Executions.has_key
NewKey-of_scan c f key s a h n i e k p q = ground (
  arith,
  get-find-none (Executions.has_key c.context.tenant_id c.principal_id c.tool_version_id key)
      s.executions i e n p,
)

reject_existing-Post :
    (found : Option ToolExecution) (digest : String) (s : Session)
    → Post (λ _ t. (t ≡ s) × (found ≡ none)) (λ _ t. t ≡ s) (reject_existing found digest s)
unfolding reject_existing
reject_existing-Post none digest s = (refl, refl)
reject_existing-Post (some e) digest s = refl

-- A key that is free, or none: the state is unchanged.
reject_reuse-Post :
    (c : PlanExecutionCommand) (f : ToolExecution) (s : Session)
    → Asked c f
    → Post (λ _ t. (t ≡ s) × NewKey f s.working) (λ _ t. t ≡ s) (reject_reuse c.idempotency_key c s)
unfolding reject_reuse Executions.get_by_idempotency_key ◌>>=◌
reject_reuse-Post c f s a = go c.idempotency_key refl
  where
    go :
        (key : Option String)
        → c.idempotency_key ≡ key
        → Post (λ _ t. (t ≡ s) × NewKey f s.working) (λ _ t. t ≡ s) (reject_reuse key c s)
    go none h = (refl, λ i e k p q. cc (h, a.key, q.key_right))
    go (some key) h =
        let scan =
          find (Executions.has_key c.context.tenant_id c.principal_id c.tool_version_id key)
            (values s.working.executions) in
        weaken-Post (λ _ t. (t ≡ s) × (scan ≡ none)) (λ _ t. (t ≡ s) × NewKey f s.working)
          (λ _ t. t ≡ s) (λ _ t. t ≡ s) (reject_existing scan c.arguments_digest s)
          (reject_existing-Post scan c.arguments_digest s)
          (λ _ t n. (n.0, NewKey-of_scan c f key s.working a h n.1)) (λ _ t n. n)

-- What the approval gate leaves: a named approval is consumed, and no execution holds it.
record Passed (c : PlanExecutionCommand) (s t : Session) : Type 0 where
  safe : Safe t
  same_executions : t.working.executions ≡ s.working.executions
  now_used : (k : String) → c.approval_id ≡ some k → used k t.working ≡ true
  not_held : NotHeld c.approval_id t.working
  answers :
      (k : String) (a : ApprovalRequest)
      → c.approval_id ≡ some k
      → get k t.working.approvals ≡ some a
      → Answers c.context.tenant_id (presented c) a

pub commit_expiry-Safe :
    {A : Type 0} (Q : A → Session → Type 0) (e : Exc) (t : Session)
    → Safe t
    → Post Q (λ _ u. Safe u) (commit_expiry {A = A} e t)
unfolding commit_expiry
commit_expiry-Safe Q e t v =
    if-Post Q _ (is_expiry e) _ _ t
      (λ _.
        bind-Post (λ _ u. Safe u) Q _ commit _ t (Keeps-Post Safe commit t commit-Safe v)
          (λ _ _ w. w))
      (λ _. v)

Passed-Consumed :
    (c : PlanExecutionCommand) (s t : Session) (id : String)
    → Safe s
    → c.approval_id ≡ some id
    → Consumed s t c.context.tenant_id id (presented c)
    → used id s.working ≡ false
    → Passed c s t
Passed-Consumed c s t id v h k n = record {
  safe = k.safe;
  same_executions = k.same_executions;
  now_used = λ j q. ground (arith, k.now_used);
  not_held = λ i e j p q r.
      let old : get i s.working.executions ≡ some e = ap (get i) (sym k.same_executions) ∙ p in
      let same : j ≡ id = ground arith in cc (v.copies.approval_used i e j old r, same, n);
  answers = λ j a q r.
      let same : j ≡ id = ground arith in
      k.answers a (ap (λ (x : String). get x t.working.approvals) (sym same) ∙ r);
}

use_approval-Post :
    (c : PlanExecutionCommand) (at : ℕ) (s : Session)
    → Safe s
    → Post (λ _ t. Passed c s t) (λ _ t. Safe t) (use_approval c.approval_id c at s)
unfolding use_approval
use_approval-Post c at s v = go c.approval_id refl
  where
    go :
        (id : Option String)
        → c.approval_id ≡ id
        → Post (λ _ t. Passed c s t) (λ _ t. Safe t) (use_approval id c at s)
    go none h = record {
      safe = v;
      same_executions = refl;
      now_used = λ j q. cc (h, q);
      not_held = λ i e j p q r. cc (h, q);
      answers = λ j a q r. cc (h, q);
    }
    go (some id) h =
        try_else-Post _ _ _ (λ _ t. Safe t) (consume_locked_approval _ at) commit_expiry _ s
          (consume_locked_approval-Post _ at s v)
          (λ e t w. commit_expiry-Safe (λ _ u. Passed c s u) e t w)
          (λ b t k. Passed-Consumed c s t id v h k.0 k.1)

-- The execution is added under an approval and a key that no other has.
add-Post :
    (tenant_id : String) (c : PlanExecutionCommand) (f : ToolExecution) (s t : Session)
    → Asked c f
    → NewKey f s.working
    → Passed c s t
    → Safe (Executions.add tenant_id f t).1
unfolding Executions.add
add-Post tenant_id c f s t a n p =
    settle Safe t (write_execution f t) (Executions.add tenant_id f t) (ground arith) p.safe
      (record {
        committed = p.safe.committed;
        copies =
            add_execution-Inv f t.working p.safe.copies (λ k q. p.now_used k (sym a.approval ∙ q))
              (λ k b q r. Answers-Backs c f b a (p.answers k b (sym a.approval ∙ q) r))
              (λ i e k q r x. p.not_held i e k q (sym a.approval ∙ r) x)
              (λ i e k q x. n i e k (ap (get i) (sym p.same_executions) ∙ q) x);
      })

plan_body-Safe :
    (ports : Ports) (c : PlanExecutionCommand) (f : ToolExecution) (at : ℕ) (s : Session)
    → Asked c f
    → Safe s
    → Safe (plan_body ports c f at s).1
unfolding plan_body
plan_body-Safe ports c f at s a v = Post-both Safe (plan_body ports c f at s) (
    bind-Post _ _ _ (reject_reuse c.idempotency_key c) _ s
      (weaken-Post (λ _ t. (t ≡ s) × NewKey f s.working) (λ _ t. (t ≡ s) × NewKey f s.working)
        (λ _ t. t ≡ s) (λ _ t. Safe t) (reject_reuse c.idempotency_key c s)
        (reject_reuse-Post c f s a) (λ _ t x. x) (λ _ t x. subst Safe (sym x) v))
      (λ _ t x. rw x.0 (
        bind-Post _ _ _ (use_approval c.approval_id c at) _ s (use_approval-Post c at s v) (λ _ u p.
          bind-Post (λ _ w. Safe w) _ _ (Executions.add c.context.tenant_id f) _ u
            (both-Post Safe (Executions.add c.context.tenant_id f u)
              (add-Post c.context.tenant_id c f s u a x.1 p))
            (λ _ w y. Keeps-Post Safe _ w rest y)))))
  where
    rest : Keeps Safe (
        execution_audit ports f AuditOutcome.allowed at >>= λ event.
        Audits.append event >>= λ _. commit)
    rest = search (keeps_rules, execution_audit-Safe, append-Safe, commit-Safe)

started-Asked :
    (c : PlanExecutionCommand) (id : String) (at : ℕ) (draft e : ToolExecution)
    → new_execution (planned c id at) ≡ ok draft
    → start draft at ≡ ok e
    → Asked c e
unfolding new_execution start planned
started-Asked c id at draft e p q = ground arith

pub plan-IsSound : (ports : Ports) (c : PlanExecutionCommand) → Keeps IsSound (plan ports c)
unfolding plan
plan-IsSound ports c = Keeps-bind (now ports) _ (now-IsSound ports) (λ at.
    Keeps-bind (new_id ports) _ (new_id-IsSound ports) (λ id.
      Keeps-bind-lift (new_execution (planned c id at)) _ (λ draft p.
        Keeps-bind-lift (start draft at) _ (λ e q.
          Keeps-bind (with_unit_of_work (plan_body ports c e at)) _
            (with_unit_of_work-IsSound (plan_body ports c e at)
              (λ s v. plan_body-Safe ports c e at s (started-Asked c id at draft e p q) v))
            (λ _. Keeps-pure e)))))
