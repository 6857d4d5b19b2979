-- ===== src/Approval.antt =====
-- `ApprovalRequest` of src/nexusmcp/modules/approval/domain.py. Times are numbers of
-- microseconds; `replace` builds a new object, so each transition runs `__post_init__` again.
pub mod Transitions
pub mod Consume
pub mod UseCases
use nexus_mcp.Base.{
  ℕ, String, Bool, true, false, not, ◌&&◌, ◌||◌, Option, none, some, List, [], ◌∷◌, ◌==◌,
  same_text?, is_some, is_none, is_blank, leb, ltb, if◌then◌else◌,
}
use nexus_mcp.Result.{Result, ok, ◌>>=◌, ◌>>◌, reject_if}
use nexus_mcp.Checks.{require_names}

pub data ApprovalStatus : Type 0 where
  pending approved rejected expired consumed : ApprovalStatus

abbrev pub is_pending : ApprovalStatus → Bool
is_pending ApprovalStatus.pending = true
is_pending _ = false

abbrev pub is_approved : ApprovalStatus → Bool
is_approved ApprovalStatus.approved = true
is_approved _ = false

abbrev is_decided : ApprovalStatus → Bool
is_decided ApprovalStatus.approved = true
is_decided ApprovalStatus.rejected = true
is_decided _ = false

abbrev is_expired : ApprovalStatus → Bool
is_expired ApprovalStatus.expired = true
is_expired _ = false

abbrev pub is_consumed : ApprovalStatus → Bool
is_consumed ApprovalStatus.consumed = true
is_consumed _ = false

pub record ApprovalRequest : Type 0 where
  pub id : String
  pub tenant_id : String
  pub principal_id : String
  pub tool_id : String
  pub tool_version_id : String
  pub arguments_digest : String
  pub policy_version : String
  pub status : ApprovalStatus
  pub requested_at : ℕ
  pub expires_at : ℕ
  pub idempotency_key : Option String
  pub decided_by : Option String
  pub decided_at : Option ℕ
  pub consumed_at : Option ℕ

abbrev pub blank? : Option String → Bool
blank? none = false
blank? (some key) = is_blank key

-- The part of `__post_init__` that ties the status to the decision and consumption fields.
check_state : ApprovalStatus → Option String → Option ℕ → Option ℕ → Result (Unit {0})
check_state status decided_by decided_at consumed_at = do
  reject_if (is_pending status && (is_some decided_by || is_some decided_at || is_some consumed_at))
      "pending approval must not contain decision state"
  reject_if (is_decided status && (is_none decided_by || is_none decided_at))
      "decided approval must contain approver and decision time"
  reject_if (is_expired status && (is_none decided_by || is_none decided_at))
      "expired approval must contain decision state"
  reject_if (not (is_consumed status) && is_some consumed_at)
      "only consumed approval may contain consumed_at"
  reject_if
      (is_consumed status && (is_none decided_by || is_none decided_at || is_none consumed_at))
      "consumed approval must contain decision and consume state"

-- `ApprovalRequest(...)`: the constructor runs `__post_init__`.
unfoldable pub new_approval : ApprovalRequest → Result ApprovalRequest
unfolding check_state
new_approval a = do
  require_names (
      a.id ∷ a.tenant_id ∷ a.principal_id ∷ a.tool_id ∷ a.tool_version_id ∷ a.arguments_digest
      ∷ a.policy_version ∷ [])
  reject_if (leb a.expires_at a.requested_at) "approval expires_at must be after requested_at"
  reject_if (blank? a.idempotency_key) "approval idempotency key must not be blank"
  check_state a.status a.decided_by a.decided_at a.consumed_at
  ok a

-- `_require_pending`
require_pending : ApprovalRequest → ℕ → Result (Unit {0})
require_pending a decided_at = do
  reject_if (not (is_pending a.status)) "only pending approval can be decided"
  reject_if (leb a.expires_at decided_at) "expired approval cannot be decided"

-- `approve`
unfoldable pub approve : ApprovalRequest → String → ℕ → Result ApprovalRequest
unfolding new_approval require_pending
approve a approver_id decided_at = do
  reject_if (is_blank approver_id) "approval approver id must not be blank"
  require_pending a decided_at
  new_approval (record a {
    status = ApprovalStatus.approved;
    decided_by = some approver_id;
    decided_at = some decided_at;
  })

-- `reject`
unfoldable pub reject : ApprovalRequest → String → ℕ → Result ApprovalRequest
unfolding new_approval require_pending
reject a approver_id decided_at = do
  reject_if (is_blank approver_id) "approval approver id must not be blank"
  require_pending a decided_at
  new_approval (record a {
    status = ApprovalStatus.rejected;
    decided_by = some approver_id;
    decided_at = some decided_at;
  })

-- `expire`
unfoldable pub expire : ApprovalRequest → ℕ → Result ApprovalRequest
unfolding new_approval
expire a expired_at = do
  reject_if (not (is_pending a.status || is_approved a.status))
      "only pending or approved approval can expire"
  reject_if (ltb expired_at a.expires_at) "approval cannot expire before expires_at"
  (if is_approved a.status
      then new_approval (record a { status = ApprovalStatus.expired })
      else new_approval (record a {
        status = ApprovalStatus.expired;
        decided_by = some "system";
        decided_at = some expired_at;
      }))

-- What a call presents when it uses an approval.
pub record Presented : Type 0 where
  pub principal_id : String
  pub tool_version_id : String
  pub arguments_digest : String
  pub policy_version : String
  pub idempotency_key : Option String

-- `consume`
unfoldable pub consume : ApprovalRequest → Presented → ℕ → Result ApprovalRequest
unfolding new_approval
consume a call consumed_at = do
  reject_if (not (is_approved a.status)) "only approved approval can be consumed"
  reject_if (leb a.expires_at consumed_at) "expired approval cannot be consumed"
  reject_if (not (call.principal_id == a.principal_id))
      "approval principal does not match call principal"
  reject_if (not (call.tool_version_id == a.tool_version_id))
      "approval tool version does not match call version"
  reject_if (not (call.arguments_digest == a.arguments_digest))
      "approval arguments digest does not match call arguments"
  reject_if (not (call.policy_version == a.policy_version))
      "approval policy version does not match current policy"
  reject_if (not (same_text? call.idempotency_key a.idempotency_key))
      "approval idempotency key does not match call"
  new_approval (record a { status = ApprovalStatus.consumed; consumed_at = some consumed_at })
