-- ===== src/Execution/Transitions.antt =====
-- The state machine of an execution (src/nexusmcp/modules/execution/domain.py): its moves, and
-- what each keeps.
use nexus_mcp.Base.{ℕ, ◌||◌, ◌+◌, String, ◌≡◌, Bool, true, arith, some}
use nexus_mcp.Kinds.{ExecutionErrorCategory}
use nexus_mcp.Result.{Result, ok}
use nexus_mcp.Execution.{
  ToolExecution, ExecutionStatus, new_execution, start, register_attempt, succeed, fail,
  mark_unknown, cancel, is_terminal, is_planned, is_running,
}

-- A call of one of the methods.
pub data Move : Type 0 where
  starting : ℕ → Move
  registering : Move
  succeeding : ℕ → Move
  failing : String → ExecutionErrorCategory → ℕ → Move
  losing : String → ℕ → Move
  cancelling : ℕ → Move

unfoldable pub move : Move → ToolExecution → Result ToolExecution
unfolding start register_attempt succeed fail mark_unknown cancel
move (Move.starting t) e = start e t
move Move.registering e = register_attempt e
move (Move.succeeding t) e = succeed e t
move (Move.failing c k t) e = fail e c k t
move (Move.losing c t) e = mark_unknown e c t
move (Move.cancelling t) e = cancel e t

-- The edges of the state machine.
pub data Edge : ExecutionStatus → ExecutionStatus → Type 0 where
  begin : Edge ExecutionStatus.planned ExecutionStatus.running
  count : Edge ExecutionStatus.running ExecutionStatus.running
  end : (s : ExecutionStatus) → is_terminal s ≡ true → Edge ExecutionStatus.running s
  abandon : Edge ExecutionStatus.planned ExecutionStatus.cancelled

-- What `__post_init__` accepts.
abbrev pub IsValid : ToolExecution → Type 0
IsValid e = new_execution e ≡ ok e

ruleset edges = (Edge.begin, Edge.count, Edge.end, Edge.abandon)

-- A method that succeeds moves the status along an edge: planned to running or cancelled, running to
-- running or to a terminal status; a terminal status is never left.
pub move-Edge : (m : Move) (e f : ToolExecution) → move m e ≡ ok f → Edge e.status f.status
unfolding move
move-Edge (Move.starting t) e f h = grind (arith, edges)
move-Edge Move.registering e f h = grind (arith, edges)
move-Edge (Move.succeeding t) e f h = grind (arith, edges)
move-Edge (Move.failing c k t) e f h = grind (arith, edges)
move-Edge (Move.losing c t) e f h = grind (arith, edges)
move-Edge (Move.cancelling t) e f h = grind (arith, edges)

-- Whether a move is meant for a status.
abbrev pub permits : Move → ExecutionStatus → Bool
permits (Move.starting t) s = is_planned s
permits (Move.cancelling t) s = is_planned s || is_running s
permits m s = is_running s

-- The execution after the move.
abbrev pub moved : Move → ToolExecution → ToolExecution
moved (Move.starting t) e = record e { status = ExecutionStatus.running; started_at = some t }
moved Move.registering e = record e { attempt_count = e.attempt_count + 1 }
moved (Move.succeeding t) e = record e { status = ExecutionStatus.succeeded; finished_at = some t }
moved (Move.failing c k t) e = record e {
  status = ExecutionStatus.failed;
  error_code = some c;
  error_category = some k;
  finished_at = some t;
}
moved (Move.losing c t) e = record e {
  status = ExecutionStatus.unknown;
  error_code = some c;
  error_category = some ExecutionErrorCategory.unknown;
  finished_at = some t;
}
moved (Move.cancelling t) e = record e {
  status = ExecutionStatus.cancelled;
  error_code = some "execution_cancelled";
  error_category = some ExecutionErrorCategory.cancelled;
  finished_at = some t;
}

-- On a valid execution in a status that permits it every method succeeds; the result differs only in
-- the fields that the method sets, and is valid again.
pub move-ok :
    (m : Move) (e : ToolExecution)
    → IsValid e
    → permits m e.status ≡ true
    → (move m e ≡ ok (moved m e)) × IsValid (moved m e)
unfolding move new_execution
move-ok (Move.starting t) e v h = ground arith
move-ok Move.registering e v h = ground arith
move-ok (Move.succeeding t) e v h = ground arith
move-ok (Move.failing c k t) e v h = ground arith
move-ok (Move.losing c t) e v h = ground arith
move-ok (Move.cancelling t) e v h = ground arith
