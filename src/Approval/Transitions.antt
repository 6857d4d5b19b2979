-- ===== src/Approval/Transitions.antt =====
-- What the transitions of an approval (src/nexusmcp/modules/approval/domain.py) do.
use nexus_mcp.Base.{ℕ, ◌<◌, String, true, Option, some, ◌≡◌, arith, same_text?}
use nexus_mcp.Result.{Result, ok}
use nexus_mcp.Approval.{
  ApprovalStatus, ApprovalRequest, Presented, new_approval, approve, reject, expire, consume,
}

-- The object satisfies what `__post_init__` checks.
abbrev pub IsValid : ApprovalRequest → Type 0
IsValid a = new_approval a ≡ ok a

pub new_approval-ok : (a b : ApprovalRequest) → new_approval a ≡ ok b → (b ≡ a) × IsValid a
unfolding new_approval
new_approval-ok a b h = ground arith

-- The four ways to change an approval.
pub data Transition : Type 0 where
  approving rejecting : String → ℕ → Transition
  expiring : ℕ → Transition
  consuming : Presented → ℕ → Transition

unfoldable pub transition : Transition → ApprovalRequest → Result ApprovalRequest
unfolding approve reject expire consume
transition (Transition.approving who t) a = approve a who t
transition (Transition.rejecting who t) a = reject a who t
transition (Transition.expiring t) a = expire a t
transition (Transition.consuming call t) a = consume a call t

-- The edges between statuses, without the times and the texts.
pub data ◌⟶◌ : ApprovalStatus → ApprovalStatus → Type 0 where
  approved_now : ApprovalStatus.pending ⟶ ApprovalStatus.approved
  rejected_now : ApprovalStatus.pending ⟶ ApprovalStatus.rejected
  lapsed_pending : ApprovalStatus.pending ⟶ ApprovalStatus.expired
  lapsed_approved : ApprovalStatus.approved ⟶ ApprovalStatus.expired
  used : ApprovalStatus.approved ⟶ ApprovalStatus.consumed

-- What the approver saw: the fields that bind an approval to one call.
pub record SameBinding (a b : ApprovalRequest) : Type 0 where
  pub same_id : b.id ≡ a.id
  pub same_tenant : b.tenant_id ≡ a.tenant_id
  pub same_principal : b.principal_id ≡ a.principal_id
  pub same_version : b.tool_version_id ≡ a.tool_version_id
  pub same_digest : b.arguments_digest ≡ a.arguments_digest
  pub same_policy : b.policy_version ≡ a.policy_version
  pub same_key : b.idempotency_key ≡ a.idempotency_key
  pub same_expiry : b.expires_at ≡ a.expires_at

-- A transition that succeeds keeps the identifier, the call that the approval is bound to (tenant,
-- principal, tool version, arguments digest, policy version, idempotency key) and the expiry.
pub transition-SameBinding :
    (t : Transition) (a b : ApprovalRequest) → transition t a ≡ ok b → SameBinding a b
unfolding transition
transition-SameBinding (Transition.approving who t) a b h = ground arith
transition-SameBinding (Transition.rejecting who t) a b h = ground arith
transition-SameBinding (Transition.expiring t) a b h = ground arith
transition-SameBinding (Transition.consuming call t) a b h = ground arith

infix 40 ◌⟶◌
ruleset edges = (approved_now, rejected_now, lapsed_pending, lapsed_approved, used)

-- A transition that succeeds goes from pending to approved, rejected or expired, or from approved to
-- expired or consumed; the other statuses are never left.
pub transition_allowed :
    (t : Transition) (a b : ApprovalRequest) → transition t a ≡ ok b → a.status ⟶ b.status
unfolding transition
transition_allowed (Transition.approving who t) a b h = grind (arith, edges)
transition_allowed (Transition.rejecting who t) a b h = grind (arith, edges)
transition_allowed (Transition.expiring t) a b h = grind (arith, edges)
transition_allowed (Transition.consuming call t) a b h = grind (arith, edges)

-- Whether a call may use an approval at a time.
pub record Usable (a : ApprovalRequest) (call : Presented) (t : ℕ) : Type 0 where
  pub is_approved_now : a.status ≡ ApprovalStatus.approved
  pub in_time : t < a.expires_at
  pub principal : call.principal_id ≡ a.principal_id
  pub version : call.tool_version_id ≡ a.tool_version_id
  pub digest : call.arguments_digest ≡ a.arguments_digest
  pub policy : call.policy_version ≡ a.policy_version
  pub key : call.idempotency_key ≡ a.idempotency_key

abbrev pub used_at : ApprovalRequest → ℕ → ApprovalRequest
used_at a t = record a { status = ApprovalStatus.consumed; consumed_at = some t }

same_text?-eq : (s t : Option String) → same_text? s t ≡ true → s ≡ t
same_text?-eq s t h = ground arith

same_text?_self : (s : Option String) → same_text? s s ≡ true
same_text?_self s = ground arith

-- Consuming succeeds only for an approved request, before it expires, for the very call it was given
-- for; the result is the request with the status consumed and the time, and nothing else changed.
pub consume-Usable :
    (a : ApprovalRequest) (call : Presented) (t : ℕ) (b : ApprovalRequest)
    → consume a call t ≡ ok b
    → Usable a call t × (b ≡ used_at a t)
unfolding consume
consume-Usable a call t b h = ground (arith, same_text?-eq call.idempotency_key a.idempotency_key)

-- Consuming a valid approval that is approved, in time and given for the call always succeeds.
pub consume-ok :
    (a : ApprovalRequest) (call : Presented) (t : ℕ)
    → IsValid a
    → Usable a call t
    → consume a call t ≡ ok (used_at a t)
unfolding consume
consume-ok a call t v u = ground (arith, same_text?_self a.idempotency_key)
