-- ===== src/Store/Executions.antt =====
-- `InMemoryToolExecutionRepository` of src/nexusmcp/modules/execution/adapters/in_memory.py.
use nexus_mcp.Base.{
  String, Bool, not, ◌&&◌, Option, none, some, List, ◌==◌, same_text?, is_some, if◌then◌else◌,
}
use nexus_mcp.Dict.{get, put, values, find, select}
use nexus_mcp.Errors.{value_error}
use nexus_mcp.Result.{ok, err}
use nexus_mcp.Action.{Action}
use nexus_mcp.Execution.{ToolExecution}
use nexus_mcp.Store.{Stores, Session}

abbrev pub of_tenant : String → Option ToolExecution → Option ToolExecution
of_tenant tenant_id none = none
of_tenant tenant_id (some e) = if e.tenant_id == tenant_id then some e else none

write : ToolExecution → Session → Session
write e s = record s { working = record s.working { executions = put e.id e s.working.executions } }

-- `add`
unfoldable pub add : String → ToolExecution → Action Session (Unit {0})
unfolding write
add tenant_id e s =
    if not (tenant_id == e.tenant_id)
    then (err (value_error "entity tenant does not match repository tenant scope"), s)
    else if is_some (get e.id s.working.executions)
    then (err (value_error "tool execution id already exists"), s)
    else (ok tt, write e s)

-- `get_by_id`, and `get_for_update`, which calls it.
unfoldable pub get_by_id : String → String → Action Session (Option ToolExecution)
get_by_id tenant_id execution_id s =
    (ok (of_tenant tenant_id (get execution_id s.working.executions)), s)

-- `save`
unfoldable pub save : String → ToolExecution → Action Session (Unit {0})
unfolding write
save tenant_id e s =
    if not (tenant_id == e.tenant_id)
    then (err (value_error "entity tenant does not match repository tenant scope"), s)
    else if is_some (of_tenant tenant_id (get e.id s.working.executions))
    then (ok tt, write e s)
    else (err (value_error "tool execution does not exist in tenant"), s)

-- The four tests of `get_by_idempotency_key`.
unfoldable pub has_key : String → String → String → String → ToolExecution → Bool
has_key tenant_id principal_id tool_version_id idempotency_key e =
    e.tenant_id == tenant_id
    && e.principal_id == principal_id
    && e.tool_version_id == tool_version_id
    && same_text? e.idempotency_key (some idempotency_key)

-- `get_by_idempotency_key`
unfoldable pub get_by_idempotency_key :
    String → String → String → String → Action Session (Option ToolExecution)
get_by_idempotency_key tenant_id principal_id tool_version_id idempotency_key s = (
  ok (
      find (has_key tenant_id principal_id tool_version_id idempotency_key)
        (values s.working.executions)),
  s,
)

-- `list_by_tenant`
unfoldable pub list_by_tenant : String → Stores → List ToolExecution
list_by_tenant tenant_id s = select (λ e. e.tenant_id == tenant_id) (values s.executions)
