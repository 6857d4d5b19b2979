-- ===== src/CallTool/Run.antt =====
-- The rest of `CallTool.execute` in src/nexusmcp/modules/execution/call_tool.py: the execution is
-- planned, the secret resolved, the executor called, and the execution finished.
use nexus_mcp.Base.{ℕ, String, true, false, Option, none, some, is_some, if◌then◌else◌}
use nexus_mcp.Kinds.{ExecutionErrorCategory}
use nexus_mcp.Errors.{Exc, ExecutorFailure, nexus, executor_failure, cancelled, NexusMcpError}
use nexus_mcp.Errors.Codes.{error_code}
use nexus_mcp.Action.{Action, pure, raise, lift, ◌>>=◌, ◌>>◌, try_else}
use nexus_mcp.Credentials.{CredentialBinding, SecretReference, SecretValue, ResolvedCredential}
use nexus_mcp.Execution.{ToolExecution}
use nexus_mcp.Execution.Lifecycle.{plan, succeed_execution, fail_execution, cancel_execution}
use nexus_mcp.CallTool.{
  CallToolCommand, ResolvedExecutableTool, ExecutorRequest, ExecutorResult, CallToolResult,
  new_request,
}
use nexus_mcp.CallTool.Gates.{Services, Admitted, pass_gates}
use nexus_mcp.Store.{Ports, World}

-- The public error of a failure that is known to have failed.
unfoldable pub public_category_error : ExecutionErrorCategory → NexusMcpError
public_category_error ExecutionErrorCategory.validation = NexusMcpError.invalid_arguments
public_category_error ExecutionErrorCategory.authorization = NexusMcpError.authorization
public_category_error ExecutionErrorCategory.timeout_before_send = NexusMcpError.upstream_timeout
public_category_error ExecutionErrorCategory.timeout_after_send = NexusMcpError.upstream_timeout
public_category_error ExecutionErrorCategory.network = NexusMcpError.upstream_unavailable
public_category_error ExecutionErrorCategory.upstream_5xx = NexusMcpError.upstream_unavailable
public_category_error _ = NexusMcpError.upstream_response

-- `_public_executor_error`
unfoldable pub public_executor_error : ExecutorFailure → NexusMcpError
unfolding public_category_error
public_executor_error failure =
    if failure.outcome_unknown
    then NexusMcpError.unknown_execution_outcome
    else public_category_error failure.category

abbrev pub Provider : Type 0
Provider = SecretReference → Action World SecretValue

-- `_resolve_secret`
unfoldable pub resolve_secret :
    Option Provider → Option CredentialBinding → Action World (Option ResolvedCredential)
resolve_secret provider none = pure none
resolve_secret none (some binding) = raise (nexus NexusMcpError.credential_resolution)
resolve_secret (some provider) (some binding) = do
  value ← provider binding.secret_reference
  pure (
      some (record {
        credential_binding_id = binding.id;
        injection_location = binding.injection_location;
        injection_name = binding.injection_name;
        value_format = binding.value_format;
        value = value;
      }))

module _ {A : Type 0} (ports : Ports) (tenant_id execution_id : String) where
  -- The `except` clauses round `_resolve_secret`; a cancellation passes them by.
  unfoldable pub on_secret_error : Exc → Action World A
  on_secret_error (nexus error) =
      fail_execution ports tenant_id execution_id (error_code error)
        ExecutionErrorCategory.credential false
      >> raise (nexus error)
  on_secret_error cancelled = raise cancelled
  on_secret_error error =
      fail_execution ports tenant_id execution_id "credential_resolution_failed"
        ExecutionErrorCategory.credential false
      >> raise (nexus NexusMcpError.credential_resolution)

  -- The `except` clauses round the executor.
  unfoldable pub on_executor_error : Exc → Action World A
  on_executor_error cancelled = cancel_execution ports tenant_id execution_id >> raise cancelled
  on_executor_error (executor_failure failure) =
      fail_execution ports tenant_id execution_id failure.code failure.category
        failure.outcome_unknown
      >> raise (nexus (public_executor_error failure))
  on_executor_error error =
      fail_execution ports tenant_id execution_id "unexpected_executor_failure"
        ExecutionErrorCategory.unknown true
      >> raise (nexus NexusMcpError.unknown_execution_outcome)

module _ {Args Schema Config Data : Type 0} (ports : Ports) (services : Services Args Schema Config)
    (timeout_seconds : ℕ) (provider : Option Provider)
    (executor : ExecutorRequest Args Schema Config
      → Option ResolvedCredential
      → Action World (ExecutorResult Data))
    (command : CallToolCommand Args) where
  -- The argument of the executor is built inside the `try`.
  unfoldable pub call_executor :
      ResolvedExecutableTool Schema Config
      → ToolExecution
      → Option ResolvedCredential
      → Action World (ExecutorResult Data)
  call_executor tool execution credential = do
    request ← lift (
        new_request (record {
          execution_id = execution.id;
          tool = tool;
          arguments = command.arguments;
          timeout_seconds = timeout_seconds;
          idempotency_key = command.idempotency_key;
        }))
    executor request credential

  -- The end of `execute`.
  unfoldable pub complete : ToolExecution → ExecutorResult Data → Action World (CallToolResult Data)
  complete execution result = do
    terminal ← succeed_execution ports command.context.tenant_id execution.id
    pure (record {
      execution_id = execution.id;
      content = result.content;
      content_type = result.content_type;
      upstream_status = result.upstream_status;
      attempt_count = terminal.attempt_count;
    })

  -- The part of `execute` after `plan`.
  unfoldable pub run_planned :
      Admitted Schema Config → ToolExecution → Action World (CallToolResult Data)
  run_planned admitted execution =
      try_else (resolve_secret provider admitted.binding)
        (on_secret_error ports command.context.tenant_id execution.id)
        λ credential.
          try_else (call_executor admitted.tool execution credential)
            (on_executor_error ports command.context.tenant_id execution.id) (complete execution)

  -- `CallTool.execute`
  unfoldable pub call_tool : Action World (CallToolResult Data)
  call_tool = do
    admitted ← pass_gates ports services (is_some provider) command
    execution ← plan ports admitted.plan_command
    run_planned admitted execution
