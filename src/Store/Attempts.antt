-- ===== src/Store/Attempts.antt =====
-- `InMemoryExecutionAttemptRepository` of src/nexusmcp/modules/execution/adapters/in_memory.py.
use nexus_mcp.Base.{
  String, Bool, not, ◌&&◌, Option, none, some, ◌==◌, is_some, any, eqb, if◌then◌else◌,
}
use nexus_mcp.Dict.{get, put, values}
use nexus_mcp.Errors.{value_error}
use nexus_mcp.Result.{ok, err}
use nexus_mcp.Action.{Action}
use nexus_mcp.Execution.Attempt.{ExecutionAttempt}
use nexus_mcp.Store.{Session}

abbrev pub of_tenant : String → Option ExecutionAttempt → Option ExecutionAttempt
of_tenant tenant_id none = none
of_tenant tenant_id (some a) = if a.tenant_id == tenant_id then some a else none

write : ExecutionAttempt → Session → Session
write a s = record s { working = record s.working { attempts = put a.id a s.working.attempts } }

-- The same number of the same execution.
unfoldable pub same_number : ExecutionAttempt → ExecutionAttempt → Bool
same_number a b = b.execution_id == a.execution_id && eqb b.attempt_number a.attempt_number

-- `add`
unfoldable pub add : String → ExecutionAttempt → Action Session (Unit {0})
unfolding write
add tenant_id a s =
    if not (tenant_id == a.tenant_id)
    then (err (value_error "entity tenant does not match repository tenant scope"), s)
    else if is_some (get a.id s.working.attempts)
    then (err (value_error "execution attempt id already exists"), s)
    else if any (same_number a) (values s.working.attempts)
    then (err (value_error "execution attempt number already exists"), s)
    else (ok tt, write a s)

-- `get_for_update`
unfoldable pub get_for_update : String → String → Action Session (Option ExecutionAttempt)
get_for_update tenant_id attempt_id s =
    (ok (of_tenant tenant_id (get attempt_id s.working.attempts)), s)

-- `save`
unfoldable pub save : String → ExecutionAttempt → Action Session (Unit {0})
unfolding write
save tenant_id a s =
    if not (tenant_id == a.tenant_id)
    then (err (value_error "entity tenant does not match repository tenant scope"), s)
    else if is_some (of_tenant tenant_id (get a.id s.working.attempts))
    then (ok tt, write a s)
    else (err (value_error "execution attempt does not exist in tenant"), s)
