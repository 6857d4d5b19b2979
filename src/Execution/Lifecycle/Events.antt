-- ===== src/Execution/Lifecycle/Events.antt =====
-- The audit events of src/nexusmcp/modules/execution/lifecycle.py, and the two methods that only
-- record a decision.
use nexus_mcp.Base.{ℕ, String, Option, none, some, ◌∷◌}
use nexus_mcp.Base.Int.{ℤ, pos}
use nexus_mcp.Kinds.{McpScopeType, scope_value, side_effect_value}
use nexus_mcp.Action.{Action, lift, ◌>>=◌, ◌>>◌}
use nexus_mcp.Context.{ActorContext}
use nexus_mcp.Audit.{
  AuditEvent, AuditAction, AuditOutcome, new_event, MetadataValue, new_evidence, scope_metadata,
}
use nexus_mcp.Execution.{ToolExecution, status_value}
use nexus_mcp.Store.{Ports, World, Session, now, new_id, outside, with_unit_of_work, commit}
use nexus_mcp.Store.Audits

pub record RecordCallDecisionCommand : Type 0 where
  pub context : ActorContext
  pub principal_id : String
  pub tool_version_id : String
  pub arguments_digest : String
  pub policy_version : String
  pub reason_code : String
  pub outcome : AuditOutcome
  pub mcp_scope_type : McpScopeType
  pub toolset_id : Option String
  pub toolset_revision : Option ℤ

pub record RecordMcpScopeDenialCommand : Type 0 where
  pub context : ActorContext
  pub tool_name : String
  pub arguments_digest : String
  pub reason_code : String
  pub mcp_scope_type : McpScopeType
  pub toolset_slug : Option String
  pub toolset_id : Option String
  pub toolset_revision : Option ℤ

-- The outcomes whose audit carries the execution's error code.
unfoldable pub audit_reason : AuditOutcome → ToolExecution → Option String
audit_reason AuditOutcome.failed e = e.error_code
audit_reason AuditOutcome.unknown e = e.error_code
audit_reason AuditOutcome.cancelled e = e.error_code
audit_reason _ e = some e.policy_reason_code

-- `async with … : append(event); commit()`
unfoldable pub record_event : AuditEvent → Action World (Unit {0})
record_event event = with_unit_of_work do Audits.append event; commit

module _ (ports : Ports) where
  -- `_execution_audit`
  unfoldable pub execution_audit : ToolExecution → AuditOutcome → ℕ → Action Session AuditEvent
  execution_audit e outcome occurred_at = do
    id ← outside (new_id ports)
    evidence ← lift (
        new_evidence (record {
          scope_type = scope_value e.mcp_scope_type;
          toolset_id = e.toolset_id;
          toolset_revision = e.toolset_revision;
          toolset_slug = none;
        }))
    lift (
        new_event (record {
          id = id;
          tenant_id = e.tenant_id;
          actor_id = e.principal_id;
          action = AuditAction.tool_call;
          resource_type = "tool_version";
          resource_id = e.tool_version_id;
          outcome = outcome;
          request_id = e.request_id;
          trace_id = e.trace_id;
          occurred_at = occurred_at;
          arguments_digest = some e.arguments_digest;
          policy_version = some e.policy_version;
          reason_code = audit_reason outcome e;
          execution_id = some e.id;
          metadata = some (
              ("side_effect", MetadataValue.text (side_effect_value e.side_effect))
              ∷ ("execution_status", MetadataValue.text (status_value e.status))
              ∷ ("attempt_count", MetadataValue.number (pos e.attempt_count))
              ∷ scope_metadata none evidence);
        }))

  -- `record_call_decision`
  unfoldable pub record_call_decision : RecordCallDecisionCommand → Action World (Unit {0})
  record_call_decision command = do
    id ← new_id ports
    at ← now ports
    evidence ← lift (
        new_evidence (record {
          scope_type = scope_value command.mcp_scope_type;
          toolset_id = command.toolset_id;
          toolset_revision = command.toolset_revision;
          toolset_slug = none;
        }))
    event ← lift (
        new_event (record {
          id = id;
          tenant_id = command.context.tenant_id;
          actor_id = command.principal_id;
          action = AuditAction.tool_call;
          resource_type = "tool_version";
          resource_id = command.tool_version_id;
          outcome = command.outcome;
          request_id = command.context.request_id;
          trace_id = command.context.trace_id;
          occurred_at = at;
          arguments_digest = some command.arguments_digest;
          policy_version = some command.policy_version;
          reason_code = some command.reason_code;
          execution_id = none;
          metadata = some (scope_metadata none evidence);
        }))
    record_event event

  -- `record_scope_denial`
  unfoldable pub record_scope_denial : RecordMcpScopeDenialCommand → Action World (Unit {0})
  record_scope_denial command = do
    evidence ← lift (
        new_evidence (record {
          scope_type = scope_value command.mcp_scope_type;
          toolset_id = command.toolset_id;
          toolset_revision = command.toolset_revision;
          toolset_slug = command.toolset_slug;
        }))
    id ← new_id ports
    at ← now ports
    event ← lift (
        new_event (record {
          id = id;
          tenant_id = command.context.tenant_id;
          actor_id = command.context.principal_id;
          action = AuditAction.tool_call;
          resource_type = "tool_name";
          resource_id = command.tool_name;
          outcome = AuditOutcome.denied;
          request_id = command.context.request_id;
          trace_id = command.context.trace_id;
          occurred_at = at;
          arguments_digest = some command.arguments_digest;
          policy_version = none;
          reason_code = some command.reason_code;
          execution_id = none;
          metadata = some (scope_metadata (some command.reason_code) evidence);
        }))
    record_event event
