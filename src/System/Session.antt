-- ===== src/System/Session.antt =====
-- The parts of a unit of work: what each leaves of the invariant, in what is committed and in the
-- working copies.
use nexus_mcp.Base.{ℕ, String, true, false, some, ◌≡◌, sym, subst, arith}
use nexus_mcp.Dict.{get}
use nexus_mcp.Dict.Laws.{get-put_self}
use nexus_mcp.Result.{ok}
use nexus_mcp.Action.Rules.{Post, bind-Post, weaken-Post, lift-Post}
use nexus_mcp.Approval.{ApprovalRequest, Presented, is_consumed, expire, consume}
use nexus_mcp.Approval.Transitions.{Transition, transition, transition-SameBinding, consume-Usable}
use nexus_mcp.Approval.Consume.{require_matching_call, expire_locked, consume_in_time}
use nexus_mcp.Store.{Session}
use nexus_mcp.Store.Approvals
use nexus_mcp.System.Invariant.{Inv, used, put_approval, put_approval-Inv}

-- The invariant holds of what is committed and of the working copies.
pub record Safe (s : Session) : Type 0 where
  pub committed : Inv s.world.stores
  pub copies : Inv s.working

-- What one write to the approvals may change.
pub record Within (s t : Session) : Type 0 where
  pub same_world : t.world ≡ s.world
  pub same_executions : t.working.executions ≡ s.working.executions

abbrev pub write : ApprovalRequest → Session → Session
write b s = record s { working = put_approval b s.working }

write-Safe :
    (b : ApprovalRequest) (s : Session) → Safe s → used b.id s.working ≡ false → Safe (write b s)
write-Safe b s v h = record {
  committed = v.committed;
  copies = put_approval-Inv b s.working v.copies h;
}

-- A save writes, or raises and writes nothing.
save-Post :
    (tenant_id : String) (b : ApprovalRequest) (s : Session)
    → Post (λ _ t. t ≡ write b s) (λ _ t. t ≡ s) (Approvals.save tenant_id b s)
unfolding Approvals.save
save-Post tenant_id b s = ground arith

-- What is known of an approval that was read for a change.
pub record Found (s : Session) (id : String) (a : ApprovalRequest) : Type 0 where
  pub stored : get id s.working.approvals ≡ some a
  pub keyed : a.id ≡ id

-- A changed approval stands over one that was not consumed.
changed-used :
    (t : Transition) (a b : ApprovalRequest) (s : Session) (id : String)
    → Found s id a
    → is_consumed a.status ≡ false
    → transition t a ≡ ok b
    → (used b.id s.working ≡ false) × (b.id ≡ id)
unfolding used
changed-used t a b s id f h q = ground (arith, transition-SameBinding t a b q)

-- Saving a changed approval.
pub save_changed-Post :
    (tenant_id : String) (t : Transition) (a b : ApprovalRequest) (s : Session) (id : String)
    → Safe s
    → Found s id a
    → is_consumed a.status ≡ false
    → transition t a ≡ ok b
    → Post (λ _ u. Safe u × (u ≡ write b s)) (λ _ u. Safe u) (Approvals.save tenant_id b s)
save_changed-Post tenant_id t a b s id v f h q =
    weaken-Post _ _ _ _ (Approvals.save tenant_id b s) (save-Post tenant_id b s)
      (λ _ u e. (subst Safe (sym e) (write-Safe b s v (changed-used t a b s id f h q).0), e))
      (λ _ u e. subst Safe (sym e) v)

-- Running out: nothing is returned, and the new state is safe.
pub expire_locked-Post :
    (tenant_id : String) (a : ApprovalRequest) (at : ℕ) (s : Session) (id : String)
    → Safe s
    → Found s id a
    → is_consumed a.status ≡ false
    → Post (λ b t. ⊥) (λ e t. Safe t) (expire_locked tenant_id a at s)
unfolding expire_locked transition
expire_locked-Post tenant_id a at s id v f h =
    lift-Post _ _ (expire a at) _ s
      (λ b q.
        bind-Post _ _ _ (Approvals.save tenant_id b) _ s
          (save_changed-Post tenant_id (Transition.expiring at) a b s id v f h q) (λ _ t k. k.0))
      (λ e q. v)

-- The approval was given for the call that is presented.
pub record Answers (tenant_id : String) (call : Presented) (a : ApprovalRequest) : Type 0 where
  pub tenant : a.tenant_id ≡ tenant_id
  pub principal : a.principal_id ≡ call.principal_id
  pub version : a.tool_version_id ≡ call.tool_version_id
  pub digest : a.arguments_digest ≡ call.arguments_digest
  pub policy : a.policy_version ≡ call.policy_version
  pub key : a.idempotency_key ≡ call.idempotency_key

-- What a consumption leaves: the approval is used now, it is one for this call, and no execution
-- has changed.
pub record Consumed (s t : Session) (tenant_id id : String) (call : Presented) : Type 0 where
  pub safe : Safe t
  pub same_executions : t.working.executions ≡ s.working.executions
  pub now_used : used id t.working ≡ true
  pub answers :
      (a : ApprovalRequest) → get id t.working.approvals ≡ some a → Answers tenant_id call a

require_matching_call-Post :
    (a : ApprovalRequest) (call : Presented) (s : Session)
    → Post (λ _ t. t ≡ s) (λ _ t. t ≡ s) (require_matching_call a call s)
unfolding require_matching_call
require_matching_call-Post a call s = ground arith

written-Consumed :
    (a b : ApprovalRequest) (call : Presented) (at : ℕ) (s t : Session) (tenant_id id : String)
    → Found s id a
    → a.tenant_id ≡ tenant_id
    → consume a call at ≡ ok b
    → Safe t
    → t ≡ write b s
    → Consumed s t tenant_id id call
unfolding used
written-Consumed a b call at s t tenant_id id f m q v e = record {
  safe = v;
  same_executions = rw e;
  now_used = ground (arith, consume-Usable a call at b q, get-put_self b.id b s.working.approvals);
  answers =
      λ d r. ground (arith, consume-Usable a call at b q, get-put_self b.id b s.working.approvals);
}

pub consume_in_time-Post :
    (tenant_id : String) (a : ApprovalRequest) (call : Presented) (at : ℕ) (s : Session)
    (id : String)
    → Safe s
    → Found s id a
    → a.tenant_id ≡ tenant_id
    → is_consumed a.status ≡ false
    → Post
        (λ b t. Consumed s t tenant_id id call)
        (λ e t. Safe t)
        (consume_in_time tenant_id a call at s)
unfolding consume_in_time transition
consume_in_time-Post tenant_id a call at s id v f m h =
    bind-Post (λ _ t. t ≡ s) _ _ (require_matching_call a call) _ s
      (weaken-Post (λ _ t. t ≡ s) (λ _ t. t ≡ s) (λ _ t. t ≡ s) (λ _ t. Safe t)
        (require_matching_call a call s) (require_matching_call-Post a call s) (λ _ t e. e)
        (λ _ t e. subst Safe (sym e) v))
      (λ _ t e. rw e (
        lift-Post _ _ (consume a call at) _ s
          (λ b q.
            bind-Post _ _ _ (Approvals.save tenant_id b) _ s
              (save_changed-Post tenant_id (Transition.consuming call at) a b s id v f h q)
              (λ _ u k. written-Consumed a b call at s u tenant_id id f m q k.0 k.1))
          (λ e q. v)))
