-- ===== src/Approval/UseCases.antt =====
-- The use cases of src/nexusmcp/modules/approval/use_cases.py. `ttl` is `ttl_seconds` in
-- microseconds.
use nexus_mcp.Base.{ℕ, ◌+◌, String, Bool, Option, none, some, leb, if◌then◌else◌}
use nexus_mcp.Base.Int.{ℤ}
use nexus_mcp.Errors.{nexus, NexusMcpError}
use nexus_mcp.Action.{Action, pure, raise, lift, ◌>>=◌, ◌>>◌, try_else}
use nexus_mcp.Context.{ActorContext}
use nexus_mcp.Audit.{AuditEvent, AuditAction, AuditOutcome, new_event, new_evidence, scope_metadata}
use nexus_mcp.Approval.{ApprovalStatus, ApprovalRequest, new_approval, approve, reject, expire}
use nexus_mcp.Store.{Ports, World, Session, now, new_id, outside, with_unit_of_work, commit}
use nexus_mcp.Approval.Consume.{
  ConsumeApprovalCommand, require_found, require_pending_decision, consume_locked_approval,
  commit_expiry,
}
use nexus_mcp.Store.Approvals
use nexus_mcp.Store.Audits

pub record RequestApprovalCommand : Type 0 where
  pub context : ActorContext
  pub principal_id : String
  pub tool_id : String
  pub tool_version_id : String
  pub arguments_digest : String
  pub policy_version : String
  pub idempotency_key : Option String
  pub policy_reason_code : String
  pub mcp_scope_type : String
  pub toolset_id : Option String
  pub toolset_revision : Option ℤ

pub record DecideApprovalCommand : Type 0 where
  pub context : ActorContext
  pub approval_id : String
  pub approved : Bool

pub record GetApprovalQuery : Type 0 where
  pub context : ActorContext
  pub approval_id : String

-- The branch of `DecideApproval.execute` for an approval that has run out.
unfoldable pub expire_before_decision :
    String → ApprovalRequest → ℕ → Action Session ApprovalRequest
expire_before_decision tenant_id approval at = do
  expired ← lift (expire approval at)
  Approvals.save tenant_id expired
  commit
  raise (nexus NexusMcpError.approval_expired)

-- `GetApproval.execute`
unfoldable pub get_approval : GetApprovalQuery → Action World ApprovalRequest
get_approval query = do
  found ← with_unit_of_work (Approvals.get_by_id query.context.tenant_id query.approval_id)
  require_found found

module _ (ports : Ports) where
  -- The request's audit event.
  unfoldable pub request_event : RequestApprovalCommand → ℕ → Action Session AuditEvent
  request_event command at = do
    id ← outside (new_id ports)
    evidence ← lift (
        new_evidence (record {
          scope_type = command.mcp_scope_type;
          toolset_id = command.toolset_id;
          toolset_revision = command.toolset_revision;
          toolset_slug = none;
        }))
    lift (
        new_event (record {
          id = id;
          tenant_id = command.context.tenant_id;
          actor_id = command.principal_id;
          action = AuditAction.tool_call;
          resource_type = "tool_version";
          resource_id = command.tool_version_id;
          outcome = AuditOutcome.approval_required;
          request_id = command.context.request_id;
          trace_id = command.context.trace_id;
          occurred_at = at;
          arguments_digest = some command.arguments_digest;
          policy_version = some command.policy_version;
          reason_code = some command.policy_reason_code;
          execution_id = none;
          metadata = some (scope_metadata none evidence);
        }))

  -- `RequestApproval.execute`
  unfoldable pub request_approval : ℕ → RequestApprovalCommand → Action World ApprovalRequest
  request_approval ttl command = do
    at ← now ports
    id ← new_id ports
    approval ← lift (
        new_approval (record {
          id = id;
          tenant_id = command.context.tenant_id;
          principal_id = command.principal_id;
          tool_id = command.tool_id;
          tool_version_id = command.tool_version_id;
          arguments_digest = command.arguments_digest;
          policy_version = command.policy_version;
          status = ApprovalStatus.pending;
          requested_at = at;
          expires_at = at + ttl;
          idempotency_key = command.idempotency_key;
          decided_by = none;
          decided_at = none;
          consumed_at = none;
        }))
    with_unit_of_work do
      Approvals.add command.context.tenant_id approval
      event ← request_event command at
      Audits.append event
      commit
    pure approval

  -- The decision's audit event.
  unfoldable pub decision_event :
      DecideApprovalCommand → ApprovalRequest → ℕ → Action Session AuditEvent
  decision_event command approval at = do
    id ← outside (new_id ports)
    lift (
        new_event (record {
          id = id;
          tenant_id = command.context.tenant_id;
          actor_id = command.context.principal_id;
          action = AuditAction.approval_decision;
          resource_type = "approval";
          resource_id = approval.id;
          outcome = if command.approved then AuditOutcome.allowed else AuditOutcome.denied;
          request_id = command.context.request_id;
          trace_id = command.context.trace_id;
          occurred_at = at;
          arguments_digest = some approval.arguments_digest;
          policy_version = some approval.policy_version;
          reason_code =
              some (if command.approved then "approval_approved" else "approval_rejected");
          execution_id = none;
          metadata = none;
        }))

  unfoldable pub decide_in_time :
      DecideApprovalCommand → ApprovalRequest → ℕ → Action Session ApprovalRequest
  decide_in_time command approval at = do
    decided ← lift (
        if command.approved
        then approve approval command.context.principal_id at
        else reject approval command.context.principal_id at)
    Approvals.save command.context.tenant_id decided
    event ← decision_event command approval at
    Audits.append event
    commit
    pure decided

  -- The unit of work of `DecideApproval.execute`, once the approval has been read.
  unfoldable pub decide_found :
      DecideApprovalCommand → ApprovalRequest → Action Session ApprovalRequest
  decide_found command approval = do
    lift (require_pending_decision approval.status)
    at ← outside (now ports)
    (if leb approval.expires_at at
        then expire_before_decision command.context.tenant_id approval at
        else decide_in_time command approval at)

  -- `DecideApproval.execute`
  unfoldable pub decide_approval : DecideApprovalCommand → Action World ApprovalRequest
  decide_approval command = with_unit_of_work do
    found ← Approvals.get_by_id command.context.tenant_id command.approval_id
    approval ← require_found found
    decide_found command approval

  -- `ConsumeApproval.execute`; the clock is asked before the approval is read.
  unfoldable pub consume_approval : ConsumeApprovalCommand → Action World ApprovalRequest
  consume_approval command = with_unit_of_work do
    at ← outside (now ports)
    try_else (consume_locked_approval command at) commit_expiry λ consumed. do commit; pure consumed
