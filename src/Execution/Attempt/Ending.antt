-- ===== src/Execution/Attempt/Ending.antt =====
-- How an attempt ends (src/nexusmcp/modules/execution/domain.py).
use nexus_mcp.Base.{
  ℕ, String, Bool, true, false, not, ◌&&◌, Option, some, none, ◌≡◌, ◌≢◌, arith, if◌then◌else◌,
}
use nexus_mcp.Kinds.{ExecutionErrorCategory}
use nexus_mcp.Result.{Result, ok}
use nexus_mcp.Execution.Attempt.{
  ExecutionAttempt, AttemptStatus, new_attempt, succeed, fail, cancel, is_running, invalid_status?,
}

-- A call of one of the methods.
pub data End : Type 0 where
  succeeding : ℕ → Option ℕ → End
  failing : String → ExecutionErrorCategory → ℕ → Bool → Option ℕ → End
  cancelling : ℕ → End

unfoldable pub end_attempt : End → ExecutionAttempt → Result ExecutionAttempt
unfolding succeed fail cancel
end_attempt (End.succeeding t upstream) a = succeed a t upstream
end_attempt (End.failing code category t unknown upstream) a =
    fail a code category t unknown upstream
end_attempt (End.cancelling t) a = cancel a t

-- The attempt after the call.
abbrev pub ended : End → ExecutionAttempt → ExecutionAttempt
ended (End.succeeding t upstream) a = record a {
  status = AttemptStatus.succeeded;
  finished_at = some t;
  upstream_status = upstream;
}
ended (End.failing code category t unknown upstream) a = record a {
  status = if unknown then AttemptStatus.unknown else AttemptStatus.failed;
  finished_at = some t;
  error_code = some code;
  error_category = some category;
  upstream_status = upstream;
}
ended (End.cancelling t) a = record a {
  status = AttemptStatus.cancelled;
  finished_at = some t;
  error_code = some "attempt_cancelled";
  error_category = some ExecutionErrorCategory.cancelled;
}

-- The status of the upstream service that the call reports.
abbrev pub reported : End → Option ℕ
reported (End.succeeding t upstream) = upstream
reported (End.failing code category t unknown upstream) = upstream
reported (End.cancelling t) = none

abbrev pub IsValid : ExecutionAttempt → Type 0
IsValid a = new_attempt a ≡ ok a

-- A valid running attempt ends with every call whose upstream status is absent or between 100 and 599;
-- the result is valid and differs only in the fields that the method sets.
pub end_attempt-ok :
    (m : End) (a : ExecutionAttempt)
    → IsValid a
    → is_running a.status ≡ true
    → invalid_status? (reported m) ≡ false
    → (end_attempt m a ≡ ok (ended m a)) × IsValid (ended m a)
unfolding end_attempt new_attempt
end_attempt-ok (End.succeeding t upstream) a v r h = ground arith
end_attempt-ok (End.failing code category t true upstream) a v r h = ground arith
end_attempt-ok (End.failing code category t false upstream) a v r h = ground arith
end_attempt-ok (End.cancelling t) a v r h = ground arith

-- An attempt that has ended never ends again, and an upstream status outside 100 to 599 is refused.
pub end_attempt_refused :
    (m : End) (a b : ExecutionAttempt)
    → is_running a.status && not (invalid_status? (reported m)) ≡ false
    → end_attempt m a ≢ ok b
unfolding end_attempt new_attempt
end_attempt_refused (End.succeeding t upstream) a b h p = ground arith
end_attempt_refused (End.failing code category t unknown upstream) a b h p = ground arith
end_attempt_refused (End.cancelling t) a b h p = ground arith
