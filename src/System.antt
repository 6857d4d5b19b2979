-- ===== src/System.antt =====
-- The program as a whole: any sequence of units of work, by any clients in any order. A unit of
-- work holds the lock from its beginning to its end, so every interleaving of the asynchronous
-- use cases is such a sequence.
pub mod Invariant
pub mod Session
pub mod Locked
pub mod Writes
pub mod Planning
pub mod Finishing
pub mod Approving
pub mod Atomic
pub mod Ended
pub mod Stored
pub mod Requested
pub mod Counting
pub mod Attempts
pub mod Serving
pub mod Reachable
use nexus_mcp.Base.{ℕ, String, Option, List, [], ◌∷◌}
use nexus_mcp.Kinds.{ExecutionErrorCategory}
use nexus_mcp.Approval.Consume.{ConsumeApprovalCommand}
use nexus_mcp.Approval.UseCases.{
  RequestApprovalCommand, DecideApprovalCommand, GetApprovalQuery, request_approval,
  decide_approval, consume_approval, get_approval,
}
use nexus_mcp.Execution.{ExecutionStatus}
use nexus_mcp.Execution.Attempt.{AttemptStatus}
use nexus_mcp.Execution.Lifecycle.{
  PlanExecutionCommand, RecordCallDecisionCommand, RecordMcpScopeDenialCommand, plan, start_attempt,
  finish, finish_attempt, record_call_decision, record_scope_denial,
}
use nexus_mcp.Store.{Ports, World, empty}

-- One call of a use case that is one unit of work. `succeed`, `fail` and `cancel` are calls of
-- `finish`, and those of attempts of `finish_attempt`. `wait` is time that passes and identifiers
-- that other parts of the program take.
pub data Op : Type 0 where
  request : ℕ → RequestApprovalCommand → Op
  decide : DecideApprovalCommand → Op
  consume : ConsumeApprovalCommand → Op
  look : GetApprovalQuery → Op
  planning : PlanExecutionCommand → Op
  starting : String → String → Op
  finishing : String → String → ExecutionStatus → Option String → Option ExecutionErrorCategory → Op
  finishing_attempt :
      String
      → String
      → AttemptStatus
      → Option String
      → Option ExecutionErrorCategory
      → Option ℕ
      → Op
  deciding : RecordCallDecisionCommand → Op
  denying : RecordMcpScopeDenialCommand → Op
  wait : ℕ → ℕ → Op

module _ (ports : Ports) where
  -- The world after the call, whether it returned or raised.
  unfoldable pub step : Op → World → World
  step (request ttl c) w = (request_approval ports ttl c w).1
  step (decide c) w = (decide_approval ports c w).1
  step (consume c) w = (consume_approval ports c w).1
  step (look q) w = (get_approval q w).1
  step (planning c) w = (plan ports c w).1
  step (starting t e) w = (start_attempt ports t e w).1
  step (finishing t e s c k) w = (finish ports t e s c k w).1
  step (finishing_attempt t a s c k u) w = (finish_attempt ports t a s c k u w).1
  step (deciding c) w = (record_call_decision ports c w).1
  step (denying c) w = (record_scope_denial ports c w).1
  step (wait ticks issued) w = record w { ticks = ticks; issued = issued }

  unfoldable pub run : List Op → World → World
  run [] w = w
  run (op ∷ ops) w = run ops (step op w)

abbrev pub initial : World
initial = record { stores = empty; ticks = 0; issued = 0 }
