-- ===== src/Store.antt =====
-- The state that the use cases share, and the unit of work:
-- src/nexusmcp/modules/execution/adapters/in_memory_uow.py and
-- src/nexusmcp/modules/approval/adapters/in_memory.py. The clock and the identifier generator are
-- ports (src/nexusmcp/shared/clock.py, src/nexusmcp/shared/identifiers.py): parameters here.
pub mod Audits
pub mod Approvals
pub mod Executions
pub mod Attempts
use nexus_mcp.Base.{ℕ, ◌+◌, String, []}
use nexus_mcp.Dict.{Dict}
use nexus_mcp.Result.{Result, ok, err}
use nexus_mcp.Action.{Action}
use nexus_mcp.Audit.{AuditEvent}
use nexus_mcp.Approval.{ApprovalRequest}
use nexus_mcp.Execution.{ToolExecution}
use nexus_mcp.Execution.Attempt.{ExecutionAttempt}

-- What the ports answer at their n-th call.
pub record Ports : Type 0 where
  pub times : ℕ → ℕ
  pub ids : ℕ → String

-- The four stores of one database.
pub record Stores : Type 0 where
  pub executions : Dict ToolExecution
  pub attempts : Dict ExecutionAttempt
  pub approvals : Dict ApprovalRequest
  pub audits : Dict AuditEvent

abbrev pub empty : Stores
empty = record { executions = []; attempts = []; approvals = []; audits = [] }

-- What is committed, and how often the clock and the generator have been asked.
pub record World : Type 0 where
  pub stores : Stores
  pub ticks : ℕ
  pub issued : ℕ

-- The inside of a unit of work: `working` holds the copies that the repositories change.
pub record Session : Type 0 where
  pub world : World
  pub working : Stores

-- `clock.now()`
unfoldable pub now : Ports → Action World ℕ
now ports w = (ok (ports.times w.ticks), record w { ticks = w.ticks + 1 })

-- `identifier_generator.new_id()`
unfoldable pub new_id : Ports → Action World String
new_id ports w = (ok (ports.ids w.issued), record w { issued = w.issued + 1 })

module _ {A : Type 0} where
  -- A call of a port inside a unit of work.
  unfoldable pub outside : Action World A → Action Session A
  outside m s = let (r, w) = m s.world in (r, record s { world = w })

  -- `async with factory() as unit_of_work: body`. `__aenter__` takes the lock and copies the
  -- stores; `__aexit__` drops the copies, so what is not committed is lost. The lock makes each
  -- unit of work one step of the program.
  unfoldable pub with_unit_of_work : Action Session A → Action World A
  with_unit_of_work body w =
      let (r, s) = body (record { world = w; working = w.stores }) in (r, s.world)

-- `commit`
unfoldable pub commit : Action Session (Unit {0})
commit s = (ok tt, record s { world = record s.world { stores = s.working } })

-- `rollback`
unfoldable pub rollback : Action Session (Unit {0})
rollback s = (ok tt, record s { working = s.world.stores })
