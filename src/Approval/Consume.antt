-- ===== src/Approval/Consume.antt =====
-- `consume_locked_approval` and its checks, of src/nexusmcp/modules/approval/use_cases.py.
use nexus_mcp.Base.{
  ℕ, String, Bool, true, false, Option, none, some, ◌==◌, not, same_text?, leb, if◌then◌else◌,
}
use nexus_mcp.Errors.{Exc, nexus, NexusMcpError}
use nexus_mcp.Result.{Result, ok, err}
use nexus_mcp.Action.{Action, pure, raise, lift, raise_if, ◌>>=◌, ◌>>◌}
use nexus_mcp.Context.{ActorContext}
use nexus_mcp.Approval.{ApprovalStatus, ApprovalRequest, Presented, expire, consume}
use nexus_mcp.Store.{Session, commit}
use nexus_mcp.Store.Approvals

pub record ConsumeApprovalCommand : Type 0 where
  pub context : ActorContext
  pub approval_id : String
  pub call : Presented

-- `approval is None`
unfoldable pub require_found : {S : Type 0} → Option ApprovalRequest → Action S ApprovalRequest
require_found none = raise (nexus NexusMcpError.approval_not_found)
require_found (some a) = pure a

-- `_require_pending_decision`
unfoldable pub require_pending_decision : ApprovalStatus → Result (Unit {0})
require_pending_decision ApprovalStatus.pending = ok tt
require_pending_decision ApprovalStatus.expired = err (nexus NexusMcpError.approval_expired)
require_pending_decision _ = err (nexus NexusMcpError.approval_invalid_state)

-- `_require_consumable_status`
unfoldable pub require_consumable_status : ApprovalStatus → Result (Unit {0})
require_consumable_status ApprovalStatus.approved = ok tt
require_consumable_status ApprovalStatus.pending = err (nexus NexusMcpError.approval_pending)
require_consumable_status ApprovalStatus.rejected = err (nexus NexusMcpError.approval_rejected)
require_consumable_status ApprovalStatus.expired = err (nexus NexusMcpError.approval_expired)
require_consumable_status ApprovalStatus.consumed =
    err (nexus NexusMcpError.approval_already_consumed)

abbrev mismatch_if : Bool → Action Session (Unit {0})
mismatch_if b = raise_if b (nexus NexusMcpError.approval_mismatch)

-- `_require_matching_call`
unfoldable pub require_matching_call : ApprovalRequest → Presented → Action Session (Unit {0})
unfolding ◌>>=◌
require_matching_call a call = do
  mismatch_if (not (a.principal_id == call.principal_id))
  mismatch_if (not (a.tool_version_id == call.tool_version_id))
  mismatch_if (not (a.arguments_digest == call.arguments_digest))
  mismatch_if (not (a.policy_version == call.policy_version))
  mismatch_if (not (same_text? a.idempotency_key call.idempotency_key))

-- The branch of `consume_locked_approval` for an approval that has run out.
unfoldable pub expire_locked : String → ApprovalRequest → ℕ → Action Session ApprovalRequest
expire_locked tenant_id approval at = do
  expired ← lift (expire approval at)
  Approvals.save tenant_id expired
  raise (nexus NexusMcpError.approval_expired)

unfoldable pub consume_in_time :
    String → ApprovalRequest → Presented → ℕ → Action Session ApprovalRequest
consume_in_time tenant_id approval call at = do
  require_matching_call approval call
  consumed ← lift (consume approval call at)
  Approvals.save tenant_id consumed
  pure consumed

-- `consume_locked_approval`
unfoldable pub consume_locked_approval : ConsumeApprovalCommand → ℕ → Action Session ApprovalRequest
consume_locked_approval command consumed_at = do
  let tenant_id = command.context.tenant_id
  found ← Approvals.get_by_id tenant_id command.approval_id
  approval ← require_found found
  lift (require_consumable_status approval.status)
  (if leb approval.expires_at consumed_at
      then expire_locked tenant_id approval consumed_at
      else consume_in_time tenant_id approval command.call consumed_at)

abbrev pub is_expiry : Exc → Bool
is_expiry (nexus NexusMcpError.approval_expired) = true
is_expiry e = false

-- `except ApprovalExpiredError: await unit_of_work.commit(); raise`; any other exception passes.
unfoldable pub commit_expiry : {A : Type 0} → Exc → Action Session A
commit_expiry e = if is_expiry e then (commit >> raise e) else raise e
