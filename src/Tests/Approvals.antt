-- ===== src/Tests/Approvals.antt =====
-- An approval that a call uses.
use nexus_mcp.Base.{◌≡◌, none, some, refl, String_discrete, is_blank, arith}
use nexus_mcp.Result.{ok}
use nexus_mcp.Checks.{require_names}
use nexus_mcp.Approval.{ApprovalRequest, ApprovalStatus, Presented, new_approval, consume}
use nexus_mcp.Approval.Transitions.{
  IsValid, Transition, transition, ◌⟶◌, SameBinding, Usable, used_at, transition-SameBinding,
  transition_allowed, consume-ok,
}

abbrev given : ApprovalRequest
given = record {
  id = "approval";
  tenant_id = "tenant";
  principal_id = "agent";
  tool_id = "tool";
  tool_version_id = "version";
  arguments_digest = "digest";
  policy_version = "1";
  status = ApprovalStatus.approved;
  requested_at = 1;
  expires_at = 10;
  idempotency_key = some "key";
  decided_by = some "operator";
  decided_at = some 2;
  consumed_at = none;
}

abbrev call : Presented
call = record {
  principal_id = "agent";
  tool_version_id = "version";
  arguments_digest = "digest";
  policy_version = "1";
  idempotency_key = some "key";
}

consumed_lem : consume given call 5 ≡ ok (used_at given 5)
unfolding consume new_approval require_names is_blank String_discrete
consumed_lem = refl

given-IsValid : IsValid given
unfolding new_approval require_names is_blank String_discrete
given-IsValid = refl

given-Usable : Usable given call 5
given-Usable = record {
  is_approved_now = refl;
  in_time = omega arith;
  principal = refl;
  version = refl;
  digest = refl;
  policy = refl;
  key = refl;
}

consume-ok_example : consume given call 5 ≡ ok (used_at given 5)
consume-ok_example = consume-ok given call 5 given-IsValid given-Usable

moved_lem : transition (Transition.consuming call 5) given ≡ ok (used_at given 5)
unfolding transition consume new_approval require_names is_blank String_discrete
moved_lem = refl

transition-SameBinding_example : SameBinding given (used_at given 5)
transition-SameBinding_example =
    transition-SameBinding (Transition.consuming call 5) given (used_at given 5) moved_lem

transition_allowed_example : ApprovalStatus.approved ⟶ ApprovalStatus.consumed
transition_allowed_example =
    transition_allowed (Transition.consuming call 5) given (used_at given 5) moved_lem
