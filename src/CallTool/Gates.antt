-- ===== src/CallTool/Gates.antt =====
-- The gates of `CallTool.execute` in src/nexusmcp/modules/execution/call_tool.py, in their order:
-- everything before the execution is planned.
use nexus_mcp.Base.{
  ℕ, String, Bool, true, false, not, ◌||◌, ◌&&◌, Option, none, some, is_some, is_none, is_empty,
  codes, strip_lower, same_codes, if◌then◌else◌,
}
use nexus_mcp.Kinds.{ToolSideEffect, ToolVisibility, PrincipalType, scope_value}
use nexus_mcp.Errors.{nexus, NexusMcpError}
use nexus_mcp.Result.{Result}
use nexus_mcp.Action.{Action, pure, raise, raise_if, lift, ◌>>=◌, ◌>>◌}
use nexus_mcp.Context.{ActorContext, InternalPrincipal}
use nexus_mcp.Audit.{AuditOutcome}
use nexus_mcp.Approval.UseCases.{RequestApprovalCommand, request_approval}
use nexus_mcp.Policy.{PolicyEffect, PolicyEvaluationInput, PolicyDecision, new_input}
use nexus_mcp.Credentials.{CredentialBinding}
use nexus_mcp.Execution.Lifecycle.{PlanExecutionCommand, record_call_decision}
use nexus_mcp.CallTool.{CallToolCommand, ResolvedExecutableTool}
use nexus_mcp.Store.{Ports, World}

-- `_is_visible`
unfoldable pub is_visible : ToolVisibility → PrincipalType → Bool
is_visible ToolVisibility.public t = true
is_visible ToolVisibility.authenticated PrincipalType.anonymous = false
is_visible ToolVisibility.authenticated PrincipalType.agent_service = true
is_visible ToolVisibility.restricted t = false

abbrev pub is_idempotent_write : ToolSideEffect → Bool
is_idempotent_write ToolSideEffect.idempotent_write = true
is_idempotent_write _ = false

-- The two tests of the idempotency key.
unfoldable pub check_key : ToolSideEffect → Option String → Action World (Unit {0})
check_key side_effect key = do
  raise_if (is_some key && not (is_idempotent_write side_effect))
      (nexus NexusMcpError.invalid_arguments)
  raise_if (is_idempotent_write side_effect && is_none key)
      (nexus NexusMcpError.idempotency_key_required)

-- `(tool.upstream_auth_scheme or "none").strip().lower() == "none"`
unfoldable pub needs_no_credential : Option String → Bool
needs_no_credential none = true
needs_no_credential (some scheme) =
    is_empty scheme || same_codes (strip_lower scheme) (codes "none")

-- The ports that `CallTool` asks before it plans, with what it was configured with: the resolver of
-- credential bindings and the lifetime of an approval are there where it has one.
pub record Services (Args Schema Config : Type 0) : Type 0 where
  pub resolve_principal : ActorContext → Action World InternalPrincipal
  pub resolve_tool : String → String → Action World (Option (ResolvedExecutableTool Schema Config))
  pub validate_arguments : Schema → Args → Result (Unit {0})
  pub arguments_digest : Args → String
  pub evaluate_policy : PolicyEvaluationInput → Action World PolicyDecision
  pub validate_endpoint : String → Action World (Unit {0})
  pub resolve_binding :
      Option
        (String → InternalPrincipal → String → String → Action World (Option CredentialBinding))
  pub approval_ttl : Option ℕ

-- What the gates hand on.
pub record Admitted (Schema Config : Type 0) : Type 0 where
  pub tool : ResolvedExecutableTool Schema Config
  pub binding : Option CredentialBinding
  pub plan_command : PlanExecutionCommand

-- `tool is None`
unfoldable pub require_tool :
    {Schema Config : Type 0}
    → Option (ResolvedExecutableTool Schema Config)
    → Action World (ResolvedExecutableTool Schema Config)
require_tool none = raise (nexus NexusMcpError.tool_not_found)
require_tool (some tool) = pure tool

-- `binding is None`
unfoldable pub require_binding : Option CredentialBinding → Action World (Option CredentialBinding)
require_binding none = raise (nexus NexusMcpError.credential_binding_not_found)
require_binding (some binding) = pure (some binding)

-- `command.approval_id if decision.effect is PolicyEffect.REQUIRE_APPROVAL else None`
abbrev presented_approval : PolicyEffect → Option String → Option String
presented_approval PolicyEffect.require_approval approval_id = approval_id
presented_approval _ approval_id = none

abbrev binding_id : Option CredentialBinding → Option String
binding_id none = none
binding_id (some binding) = some binding.id

module _ {Args Schema Config : Type 0} (ports : Ports) (services : Services Args Schema Config)
    (has_provider : Bool) (command : CallToolCommand Args) where
  -- `_record_policy_decision`
  unfoldable pub record_policy_decision :
      InternalPrincipal
      → ResolvedExecutableTool Schema Config
      → PolicyDecision
      → AuditOutcome
      → Action World (Unit {0})
  record_policy_decision principal tool decision outcome = record_call_decision ports (record {
    context = command.context;
    principal_id = principal.id;
    tool_version_id = tool.tool_version_id;
    arguments_digest = services.arguments_digest command.arguments;
    policy_version = decision.policy_version;
    reason_code = decision.reason_code;
    outcome = outcome;
    mcp_scope_type = command.mcp_scope_type;
    toolset_id = command.toolset_id;
    toolset_revision = command.toolset_revision;
  })

  approval_command :
      InternalPrincipal
      → ResolvedExecutableTool Schema Config
      → PolicyDecision
      → RequestApprovalCommand
  approval_command principal tool decision = record {
    context = command.context;
    principal_id = principal.id;
    tool_id = tool.tool_id;
    tool_version_id = tool.tool_version_id;
    arguments_digest = services.arguments_digest command.arguments;
    policy_version = decision.policy_version;
    idempotency_key = command.idempotency_key;
    policy_reason_code = decision.reason_code;
    mcp_scope_type = scope_value command.mcp_scope_type;
    toolset_id = command.toolset_id;
    toolset_revision = command.toolset_revision;
  }

  -- `_pass_approval_gate`, for a call without an approval.
  unfoldable pub ask_for_approval :
      Option ℕ
      → InternalPrincipal
      → ResolvedExecutableTool Schema Config
      → PolicyDecision
      → Action World (Unit {0})
  unfolding approval_command
  ask_for_approval none principal tool decision =
      raise (nexus (NexusMcpError.approval_required none none))
  ask_for_approval (some ttl) principal tool decision = do
    approval ← request_approval ports ttl (approval_command principal tool decision)
    raise (nexus (NexusMcpError.approval_required (some approval.id) (some approval.expires_at)))

  -- `_pass_approval_gate`
  unfoldable pub pass_approval_gate :
      Option String
      → InternalPrincipal
      → ResolvedExecutableTool Schema Config
      → PolicyDecision
      → Action World (Unit {0})
  pass_approval_gate (some approval_id) principal tool decision = pure tt
  pass_approval_gate none principal tool decision =
      ask_for_approval services.approval_ttl principal tool decision

  -- What follows the policy's decision.
  unfoldable pub pass_policy_gate :
      PolicyEffect
      → InternalPrincipal
      → ResolvedExecutableTool Schema Config
      → PolicyDecision
      → Action World (Unit {0})
  pass_policy_gate PolicyEffect.deny principal tool decision =
      record_policy_decision principal tool decision AuditOutcome.denied
      >> raise (nexus NexusMcpError.authorization)
  pass_policy_gate PolicyEffect.require_approval principal tool decision =
      pass_approval_gate command.approval_id principal tool decision
  pass_policy_gate PolicyEffect.allow principal tool decision = pure tt

  -- The part of `_resolve_credential_binding` behind the test of the scheme.
  unfoldable pub ask_for_binding :
      Option
        (String → InternalPrincipal → String → String → Action World (Option CredentialBinding))
      → Bool
      → InternalPrincipal
      → ResolvedExecutableTool Schema Config
      → Action World (Option CredentialBinding)
  ask_for_binding (some resolve) true principal tool = do
    binding ← resolve command.context.tenant_id principal tool.tool_id tool.upstream_service_id
    require_binding binding
  ask_for_binding _ _ principal tool = raise (nexus NexusMcpError.credential_resolution)

  -- `_resolve_credential_binding`
  unfoldable pub resolve_credential_binding :
      InternalPrincipal
      → ResolvedExecutableTool Schema Config
      → Action World (Option CredentialBinding)
  resolve_credential_binding principal tool =
      if needs_no_credential tool.upstream_auth_scheme
      then pure none
      else ask_for_binding services.resolve_binding has_provider principal tool

  -- The command that `plan` is called with.
  unfoldable pub plan_command :
      InternalPrincipal
      → ResolvedExecutableTool Schema Config
      → PolicyDecision
      → Option CredentialBinding
      → PlanExecutionCommand
  plan_command principal tool decision binding = record {
    context = command.context;
    principal_id = principal.id;
    tool_id = tool.tool_id;
    tool_version_id = tool.tool_version_id;
    tool_binding_id = tool.tool_binding_id;
    arguments_digest = services.arguments_digest command.arguments;
    policy_version = decision.policy_version;
    policy_reason_code = decision.reason_code;
    side_effect = tool.side_effect;
    approval_id = presented_approval decision.effect command.approval_id;
    credential_binding_id = binding_id binding;
    idempotency_key = command.idempotency_key;
    mcp_scope_type = command.mcp_scope_type;
    toolset_id = command.toolset_id;
    toolset_revision = command.toolset_revision;
  }

  -- From the policy on.
  unfoldable pub judge :
      InternalPrincipal
      → ResolvedExecutableTool Schema Config
      → Action World (Admitted Schema Config)
  judge principal tool = do
    input ← lift (
        new_input (record {
          tenant_id = command.context.tenant_id;
          principal = principal;
          tool_id = tool.tool_id;
          tool_version_id = tool.tool_version_id;
          side_effect = tool.side_effect;
          arguments_digest = services.arguments_digest command.arguments;
        }))
    decision ← services.evaluate_policy input
    pass_policy_gate decision.effect principal tool decision
    services.validate_endpoint tool.upstream_endpoint
    binding ← resolve_credential_binding principal tool
    pure (record {
      tool = tool;
      binding = binding;
      plan_command = plan_command principal tool decision binding;
    })

  -- The part of `execute` before `plan`.
  unfoldable pub pass_gates : Action World (Admitted Schema Config)
  pass_gates = do
    principal ← services.resolve_principal command.context
    found ← services.resolve_tool command.context.tenant_id command.tool_name
    tool ← require_tool found
    raise_if (not (is_visible tool.visibility principal.principal_type))
        (nexus NexusMcpError.tool_not_visible)
    lift (services.validate_arguments tool.input_schema command.arguments)
    check_key tool.side_effect command.idempotency_key
    judge principal tool
