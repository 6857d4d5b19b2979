-- ===== src/Tests/Gateway.antt =====
-- Calls that are refused, and the invariant over a whole call.
use nexus_mcp.Base.{◌+◌, String, Option, none, some, ◌≡◌, refl, arith}
use nexus_mcp.Base.Int.{pos}
use nexus_mcp.Kinds.{ToolSideEffect, ToolVisibility, PrincipalType, McpScopeType}
use nexus_mcp.Result.{ok}
use nexus_mcp.Action.{Action, pure}
use nexus_mcp.Context.{InternalPrincipal}
use nexus_mcp.Policy.{PolicyEffect, PolicyDecision, default_deny}
use nexus_mcp.Credentials.{ResolvedCredential}
use nexus_mcp.Connectors.{ToolBindingType}
use nexus_mcp.CallTool.{CallToolCommand, ResolvedExecutableTool, ExecutorRequest, ExecutorResult}
use nexus_mcp.CallTool.Gates.{Services}
use nexus_mcp.CallTool.Refused.{
  Refused, call_tool_denied, call_tool_unapproved, call_tool_wrong_key,
}
use nexus_mcp.Store.{Ports, World}
use nexus_mcp.System.{initial}

abbrev clocks : Ports
clocks = record { times = λ n. 1000 + n; ids = λ n. "id" }

abbrev agent : InternalPrincipal
agent = record {
  id = "agent";
  tenant_id = "tenant";
  principal_type = PrincipalType.agent_service;
  authn_method = "key";
}

abbrev tool : ResolvedExecutableTool (Unit {0}) (Unit {0})
tool = record {
  tenant_id = "tenant";
  tool_id = "tool";
  tool_version_id = "version";
  tool_binding_id = "binding";
  upstream_service_id = "upstream";
  canonical_name = "tool";
  version = pos 1;
  input_schema = tt;
  output_schema = none;
  side_effect = ToolSideEffect.read_only;
  visibility = ToolVisibility.public;
  binding_type = ToolBindingType.http;
  binding_config = tt;
  upstream_endpoint = "https://upstream";
  upstream_auth_scheme = none;
}

abbrev services : PolicyDecision → Services String (Unit {0}) (Unit {0})
services decision = record {
  resolve_principal = λ context. pure agent;
  resolve_tool = λ tenant_id tool_name. pure (some tool);
  validate_arguments = λ schema arguments. ok tt;
  arguments_digest = λ arguments. "digest";
  evaluate_policy = λ i. pure decision;
  validate_endpoint = λ endpoint. pure tt;
  resolve_binding = none;
  approval_ttl = some 500;
}

abbrev asks : PolicyDecision
asks = record default_deny { effect = PolicyEffect.require_approval }

abbrev call : Option String → CallToolCommand String
call key = record {
  context = record {
    request_id = "request";
    trace_id = "trace";
    tenant_id = "tenant";
    principal_id = "agent";
    authn_method = "key";
    principal_type = "agent_service";
  };
  tool_name = "tool";
  arguments = "arguments";
  idempotency_key = key;
  approval_id = none;
  mcp_scope_type = McpScopeType.root;
  toolset_id = none;
  toolset_revision = none;
}

abbrev executor :
    ExecutorRequest String (Unit {0}) (Unit {0})
    → Option ResolvedCredential
    → Action World (ExecutorResult String)
executor request credential =
    pure (record { content = "data"; content_type = none; upstream_status = some 200 })

call_tool_denied_example :
    Refused clocks (services default_deny) 5 none executor (call none) initial
call_tool_denied_example =
    call_tool_denied clocks (services default_deny) 5 none executor (call none) initial
      (λ i w. refl)

call_tool_unapproved_example : Refused clocks (services asks) 5 none executor (call none) initial
call_tool_unapproved_example =
    call_tool_unapproved clocks (services asks) 5 none executor (call none) initial (λ i w. refl)
      refl

same_tool :
    (t : ResolvedExecutableTool (Unit {0}) (Unit {0}))
    → some tool ≡ some t
    → t.side_effect ≡ ToolSideEffect.read_only
same_tool t e = ground arith

call_tool_wrong_key_example :
    Refused clocks (services asks) 5 none executor (call (some "key")) initial
call_tool_wrong_key_example =
    call_tool_wrong_key clocks (services asks) 5 none executor (call (some "key")) initial
      ToolSideEffect.read_only (λ tenant_id tool_name w t e. same_tool t e) refl
