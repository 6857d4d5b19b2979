-- ===== src/Store/Audits.antt =====
-- `InMemoryAuditRepository` of src/nexusmcp/modules/audit/adapters/in_memory.py.
use nexus_mcp.Base.{String, ◌&&◌, List, ◌==◌, some, is_some, same_text?, if◌then◌else◌}
use nexus_mcp.Dict.{get, put, values, select}
use nexus_mcp.Errors.{value_error}
use nexus_mcp.Result.{ok, err}
use nexus_mcp.Action.{Action}
use nexus_mcp.Audit.{AuditEvent}
use nexus_mcp.Store.{Stores, Session}

-- `append`
unfoldable pub append : AuditEvent → Action Session (Unit {0})
append e s =
    if is_some (get e.id s.working.audits)
    then (err (value_error "audit event id already exists"), s)
    else (ok tt, record s { working = record s.working { audits = put e.id e s.working.audits } })

-- `list_by_tenant`
unfoldable pub list_by_tenant : String → Stores → List AuditEvent
list_by_tenant tenant_id s = select (λ e. e.tenant_id == tenant_id) (values s.audits)

-- `list_by_execution`
unfoldable pub list_by_execution : String → String → Stores → List AuditEvent
list_by_execution tenant_id execution_id s =
    select (λ e. e.tenant_id == tenant_id && same_text? e.execution_id (some execution_id))
      (values s.audits)
