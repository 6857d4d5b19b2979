-- ===== src/Execution/Attempt.antt =====
-- `ExecutionAttempt` of src/nexusmcp/modules/execution/domain.py.
pub mod Ending
use nexus_mcp.Base.{
  ℕ, String, Bool, true, false, not, ◌&&◌, ◌||◌, Option, none, some, [], ◌∷◌, is_some, is_none, leb,
  eqb, if◌then◌else◌,
}
use nexus_mcp.Kinds.{ExecutionErrorCategory}
use nexus_mcp.Result.{Result, ok, ◌>>◌, reject_if}
use nexus_mcp.Checks.{require_names}

pub data AttemptStatus : Type 0 where
  running succeeded failed unknown cancelled : AttemptStatus

abbrev pub is_running : AttemptStatus → Bool
is_running AttemptStatus.running = true
is_running _ = false

abbrev has_no_error : AttemptStatus → Bool
has_no_error AttemptStatus.running = true
has_no_error AttemptStatus.succeeded = true
has_no_error _ = false

pub record ExecutionAttempt : Type 0 where
  pub id : String
  pub tenant_id : String
  pub execution_id : String
  pub attempt_number : ℕ
  pub status : AttemptStatus
  pub started_at : ℕ
  pub finished_at : Option ℕ
  pub error_code : Option String
  pub error_category : Option ExecutionErrorCategory
  pub upstream_status : Option ℕ

-- `upstream_status is not None and not 100 <= upstream_status <= 599`
abbrev pub invalid_status? : Option ℕ → Bool
invalid_status? none = false
invalid_status? (some s) = not (leb 100 s && leb s 599)

check_state :
    AttemptStatus → Option ℕ → Option String → Option ExecutionErrorCategory → Result (Unit {0})
check_state status finished_at error_code error_category = do
  reject_if (is_running status && is_some finished_at)
      "running execution attempt must not have finished_at"
  reject_if (not (is_running status) && is_none finished_at)
      "terminal execution attempt must have finished_at"
  reject_if (has_no_error status && (is_some error_code || is_some error_category))
      "running or succeeded attempt must not have error state"
  reject_if (not (has_no_error status) && (is_none error_code || is_none error_category))
      "unsuccessful attempt must contain error state"

-- `ExecutionAttempt(...)`: the constructor runs `__post_init__`.
unfoldable pub new_attempt : ExecutionAttempt → Result ExecutionAttempt
unfolding check_state
new_attempt a = do
  require_names (a.id ∷ a.tenant_id ∷ a.execution_id ∷ [])
  reject_if (eqb a.attempt_number 0) "execution attempt number must be positive"
  reject_if (invalid_status? a.upstream_status) "execution attempt upstream status was invalid"
  check_state a.status a.finished_at a.error_code a.error_category
  ok a

-- `_require_running`
require_running : ExecutionAttempt → Result (Unit {0})
require_running a =
    reject_if (not (is_running a.status))
      "execution attempt must be running before terminal transition"

-- `succeed`
unfoldable pub succeed : ExecutionAttempt → ℕ → Option ℕ → Result ExecutionAttempt
unfolding new_attempt require_running
succeed a finished_at upstream_status = do
  require_running a
  new_attempt (record a {
    status = AttemptStatus.succeeded;
    finished_at = some finished_at;
    upstream_status = upstream_status;
  })

-- `fail`
unfoldable pub fail :
    ExecutionAttempt
    → String
    → ExecutionErrorCategory
    → ℕ
    → Bool
    → Option ℕ
    → Result ExecutionAttempt
unfolding new_attempt require_running
fail a error_code category finished_at outcome_unknown upstream_status = do
  require_running a
  new_attempt (record a {
    status = if outcome_unknown then AttemptStatus.unknown else AttemptStatus.failed;
    finished_at = some finished_at;
    error_code = some error_code;
    error_category = some category;
    upstream_status = upstream_status;
  })

-- `cancel`
unfoldable pub cancel : ExecutionAttempt → ℕ → Result ExecutionAttempt
unfolding new_attempt require_running
cancel a finished_at = do
  require_running a
  new_attempt (record a {
    status = AttemptStatus.cancelled;
    finished_at = some finished_at;
    error_code = some "attempt_cancelled";
    error_category = some ExecutionErrorCategory.cancelled;
  })
