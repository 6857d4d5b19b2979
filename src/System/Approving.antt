-- ===== src/System/Approving.antt =====
-- The use cases of src/nexusmcp/modules/approval/use_cases.py, and the methods that only record a
-- decision, keep the invariant.
use nexus_mcp.Base.{
  ℕ, String, false, Option, none, some, ◌≡◌, refl, sym, ◌∙◌, arith, leb, Option-cases, inl,
  Bool-cases, inr,
}
use nexus_mcp.Dict.{get}
use nexus_mcp.Action.{◌>>=◌, ◌>>◌, Action, lift, try_else, pure}
use nexus_mcp.Action.Rules.{
  keeps_rules, Keeps, Post, Post-both, bind-Post, lift-Post, Keeps-Post, settle, if-Post,
  try_else-Post,
}
use nexus_mcp.Approval.Consume.{
  ConsumeApprovalCommand, require_found, require_pending_decision, consume_locked_approval,
  commit_expiry,
}
use nexus_mcp.Approval.UseCases.{
  RequestApprovalCommand, DecideApprovalCommand, GetApprovalQuery, request_event, request_approval,
  get_approval, decision_event, expire_before_decision, decide_in_time, decide_found,
  decide_approval, consume_approval,
}
use nexus_mcp.Store.Approvals
use nexus_mcp.Execution.Lifecycle.{
  record_scope_denial, record_event, record_call_decision, RecordMcpScopeDenialCommand,
  RecordCallDecisionCommand,
}
use nexus_mcp.Approval.{ApprovalRequest, ApprovalStatus, is_consumed}
use nexus_mcp.System.Session.{Safe, Found, save_changed-Post, write}
use nexus_mcp.Store.{Ports, Session, outside, now, commit}
use nexus_mcp.Audit.{AuditEvent}
use nexus_mcp.System.Writes.{
  new_id-Safe, IsSound, with_unit_of_work-Keeps, now-IsSound, new_id-IsSound, append-Safe,
  commit-Safe, with_unit_of_work-IsSound, now-Safe,
}
use nexus_mcp.System.Invariant.{used, put_approval-Inv}
use nexus_mcp.Approval.Transitions.{Transition, transition}
use nexus_mcp.Result.{ok}
use nexus_mcp.System.Locked.{require_found-Post, Found-in_tenant, consume_locked_approval-Post}
use nexus_mcp.System.Planning.{commit_expiry-Safe}

record_event-IsSound : (e : AuditEvent) → Keeps IsSound (record_event e)
unfolding record_event
record_event-IsSound e = search (keeps_rules, with_unit_of_work-Keeps, append-Safe, commit-Safe)

pub record_call_decision-IsSound :
    (ports : Ports) (c : RecordCallDecisionCommand) → Keeps IsSound (record_call_decision ports c)
unfolding record_call_decision
record_call_decision-IsSound ports c =
    search (keeps_rules, now-IsSound, new_id-IsSound, record_event-IsSound) depth 8

pub record_scope_denial-IsSound :
    (ports : Ports) (c : RecordMcpScopeDenialCommand) → Keeps IsSound (record_scope_denial ports c)
unfolding record_scope_denial
record_scope_denial-IsSound ports c =
    search (keeps_rules, now-IsSound, new_id-IsSound, record_event-IsSound) depth 8

-- A new approval stands under a key that was free.
add_approval-Safe :
    (tenant_id : String) (a : ApprovalRequest) → Keeps Safe (Approvals.add tenant_id a)
unfolding Approvals.add used
add_approval-Safe tenant_id a = record {
  kept = λ s v. elim (Option-cases (get a.id s.working.approvals)) [
    | inl free ↦ settle Safe s (write a s) (Approvals.add tenant_id a s) (ground arith) v (record {
      committed = v.committed;
      copies = put_approval-Inv a s.working v.copies (ground arith);
    })
    | inr (b, taken) ↦ settle Safe s s (Approvals.add tenant_id a s) (ground arith) v v
  ];
}

request_event-Safe :
    (ports : Ports) (c : RequestApprovalCommand) (at : ℕ) → Keeps Safe (request_event ports c at)
unfolding request_event
request_event-Safe ports c at = search (keeps_rules, new_id-Safe) depth 8

pub request_approval-IsSound :
    (ports : Ports) (ttl : ℕ) (c : RequestApprovalCommand)
    → Keeps IsSound (request_approval ports ttl c)
unfolding request_approval
request_approval-IsSound ports ttl c =
    search
      (
        keeps_rules, now-IsSound, new_id-IsSound, with_unit_of_work-Keeps, add_approval-Safe,
        request_event-Safe, append-Safe, commit-Safe,
      )
      depth 12

decision_event-Safe :
    (ports : Ports) (c : DecideApprovalCommand) (a : ApprovalRequest) (at : ℕ)
    → Keeps Safe (decision_event ports c a at)
unfolding decision_event
decision_event-Safe ports c a at = search (keeps_rules, new_id-Safe) depth 8

get_by_id-Safe : (tenant_id id : String) → Keeps Safe (Approvals.get_by_id tenant_id id)
unfolding Approvals.get_by_id
get_by_id-Safe tenant_id id = record { kept = λ s v. v }

require_found-IsSound : (found : Option ApprovalRequest) → Keeps IsSound (require_found found)
unfolding require_found
require_found-IsSound none = record { kept = λ s v. v }
require_found-IsSound (some a) = record { kept = λ s v. v }

pub get_approval-IsSound : (q : GetApprovalQuery) → Keeps IsSound (get_approval q)
unfolding get_approval
get_approval-IsSound q =
    search (keeps_rules, with_unit_of_work-Keeps, get_by_id-Safe, require_found-IsSound)

-- An approval that was read, and what follows.
read_approval-Safe :
    {B : Type 0} (tenant_id id : String) (body : ApprovalRequest → Action Session B) (s : Session)
    → Safe s
    → ((a : ApprovalRequest) → Found s id a → Post (λ _ t. Safe t) (λ _ t. Safe t) (body a s))
    → Safe ((Approvals.get_by_id tenant_id id >>= λ found. require_found found >>= body) s).1
unfolding Approvals.get_by_id
read_approval-Safe tenant_id id body s v k = Post-both Safe _ (
    bind-Post
      (λ found t. (t ≡ s) × (found ≡ Approvals.of_tenant tenant_id (get id s.working.approvals))) _
      _ (Approvals.get_by_id tenant_id id) _ s (refl, refl)
      (λ found t h. rw h.0 (
        require_found-Post _ _ found body s
          (λ a q. k a (Found-in_tenant tenant_id id a s v (sym h.1 ∙ q))) (λ _. v))))

require_pending-ok :
    (status : ApprovalStatus) (u : Unit {0})
    → require_pending_decision status ≡ ok u
    → is_consumed status ≡ false
unfolding require_pending_decision
require_pending-ok status u h = ground arith

-- A transition that is saved, and what follows.
changed-Safe :
    {B : Type 0} (tenant_id : String) (t : Transition) (a : ApprovalRequest) (id : String)
    (rest : ApprovalRequest → Action Session B) (s : Session)
    → Safe s
    → Found s id a
    → is_consumed a.status ≡ false
    → ((b : ApprovalRequest) → Keeps Safe (rest b))
    → Post
        (λ _ u. Safe u)
        (λ _ u. Safe u)
        ((lift (transition t a) >>= λ b. Approvals.save tenant_id b >> rest b) s)
changed-Safe tenant_id t a id rest s v f n k =
    lift-Post _ _ (transition t a) _ s
      (λ b q.
        bind-Post _ _ _ (Approvals.save tenant_id b) _ s
          (save_changed-Post tenant_id t a b s id v f n q)
          (λ _ u w. Keeps-Post Safe (rest b) u (k b) w.0))
      (λ _ _. v)

expire_before_decision-Safe :
    (tenant_id : String) (a : ApprovalRequest) (at : ℕ) (s : Session) (id : String)
    → Safe s
    → Found s id a
    → is_consumed a.status ≡ false
    → Post (λ _ t. Safe t) (λ _ t. Safe t) (expire_before_decision tenant_id a at s)
unfolding expire_before_decision transition
expire_before_decision-Safe tenant_id a at s id v f n =
    changed-Safe tenant_id (Transition.expiring at) a id _ s v f n
      (λ _. search (keeps_rules, commit-Safe))

decide_in_time-Safe :
    (ports : Ports) (c : DecideApprovalCommand) (a : ApprovalRequest) (at : ℕ) (s : Session)
    (id : String)
    → Safe s
    → Found s id a
    → is_consumed a.status ≡ false
    → Post (λ _ t. Safe t) (λ _ t. Safe t) (decide_in_time ports c a at s)
unfolding decide_in_time transition
decide_in_time-Safe ports c a at s id v f n = elim (Bool-cases c.approved) [
  | inl e ↦ rw e (
      changed-Safe c.context.tenant_id (Transition.approving c.context.principal_id at) a id _ s v f
        n (λ _. search (keeps_rules, decision_event-Safe, append-Safe, commit-Safe)))
  | inr e ↦ rw e (
      changed-Safe c.context.tenant_id (Transition.rejecting c.context.principal_id at) a id _ s v f
        n (λ _. search (keeps_rules, decision_event-Safe, append-Safe, commit-Safe)))
]

-- Asking the clock leaves the stores and the copies alone.
now_kept :
    (ports : Ports) (s : Session) (id : String) (a : ApprovalRequest)
    → Safe s
    → Found s id a
    → Post (λ _ t. Safe t × Found t id a) (λ _ t. Safe t) (outside (now ports) s)
unfolding outside now
now_kept ports s id a v f = (
  record { committed = v.committed; copies = v.copies },
  record { stored = f.stored; keyed = f.keyed },
)

decide_found-Safe :
    (ports : Ports) (c : DecideApprovalCommand) (a : ApprovalRequest) (s : Session)
    → Safe s
    → Found s c.approval_id a
    → Post (λ _ t. Safe t) (λ _ t. Safe t) (decide_found ports c a s)
unfolding decide_found
decide_found-Safe ports c a s v f =
    lift-Post _ _ (require_pending_decision a.status) _ s
      (λ u q.
        let n = require_pending-ok a.status u q in
        bind-Post _ _ _ (outside (now ports)) _ s (now_kept ports s c.approval_id a v f) (λ at t w.
          if-Post _ _ (leb a.expires_at at) _ _ t
            (λ _. expire_before_decision-Safe c.context.tenant_id a at t c.approval_id w.0 w.1 n)
            (λ _. decide_in_time-Safe ports c a at t c.approval_id w.0 w.1 n)))
      (λ _ _. v)

pub decide_approval-IsSound :
    (ports : Ports) (c : DecideApprovalCommand) → Keeps IsSound (decide_approval ports c)
unfolding decide_approval
decide_approval-IsSound ports c = with_unit_of_work-IsSound _ (λ s v.
    read_approval-Safe c.context.tenant_id c.approval_id _ s v
      (λ a f. decide_found-Safe ports c a s v f))

consume_body-Safe :
    (c : ConsumeApprovalCommand) (at : ℕ)
    → Keeps Safe (
        try_else (consume_locked_approval c at) commit_expiry (λ consumed. commit >> pure consumed))
consume_body-Safe c at = record {
  kept = λ s v. Post-both Safe _ (
      try_else-Post _ _ _ (λ _ t. Safe t) (consume_locked_approval c at) commit_expiry _ s
        (consume_locked_approval-Post c at s v) (λ e t w. commit_expiry-Safe (λ _ u. Safe u) e t w)
        (λ b t k.
          Keeps-Post Safe (commit >> pure b) t (search (keeps_rules, commit-Safe)) k.0.safe));
}

pub consume_approval-IsSound :
    (ports : Ports) (c : ConsumeApprovalCommand) → Keeps IsSound (consume_approval ports c)
unfolding consume_approval
consume_approval-IsSound ports c =
    search (keeps_rules, with_unit_of_work-Keeps, now-Safe, consume_body-Safe)
