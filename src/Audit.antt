-- ===== src/Audit.antt =====
-- The audit event and the scope evidence in its metadata: src/nexusmcp/modules/audit/domain.py and
-- src/nexusmcp/modules/audit/scope.py.
mod Scope
pub use Scope.{ScopeEvidence, MetadataValue, Metadata}
unfoldable pub use Scope.{new_evidence, scope_metadata}
use nexus_mcp.Base.{
  ℕ, String, Bool, true, false, Option, none, some, List, [], ◌∷◌, any, is_blank, codes,
  strip_lower, underscores, same_codes,
}
use nexus_mcp.Result.{Result, ok, ◌>>=◌, ◌>>◌, reject_if}

pub data AuditAction : Type 0 where
  tool_call approval_decision credential_resolution : AuditAction

pub data AuditOutcome : Type 0 where
  allowed denied approval_required succeeded failed unknown cancelled : AuditOutcome

pub record AuditEvent : Type 0 where
  pub id : String
  pub tenant_id : String
  pub actor_id : String
  pub action : AuditAction
  pub resource_type : String
  pub resource_id : String
  pub outcome : AuditOutcome
  pub request_id : String
  pub trace_id : String
  pub occurred_at : ℕ
  pub arguments_digest : Option String
  pub policy_version : Option String
  pub reason_code : Option String
  pub execution_id : Option String
  pub metadata : Option Metadata

abbrev sensitive_keys : List String
sensitive_keys =
    "api_key" ∷ "arguments" ∷ "authorization" ∷ "cookie" ∷ "password" ∷ "result" ∷ "secret"
    ∷ "token" ∷ []

-- `str(key).strip().lower().replace("-", "_")` is one of the sensitive keys.
has_sensitive_key : Metadata → Bool
has_sensitive_key m =
    any
      (λ (entry : String × MetadataValue).
        any (λ k. same_codes (underscores (strip_lower entry.0)) (codes k)) sensitive_keys)
      m

check_metadata : Option Metadata → Result (Unit {0})
unfolding has_sensitive_key strip_lower underscores same_codes
check_metadata none = ok tt
check_metadata (some m) =
    reject_if (has_sensitive_key m) "audit metadata must not contain sensitive fields"

-- `AuditEvent(...)`: the constructor runs `__post_init__`.
unfoldable pub new_event : AuditEvent → Result AuditEvent
unfolding check_metadata
new_event e = do
  reject_if (is_blank e.id) "audit id must not be blank"
  reject_if (is_blank e.tenant_id) "tenant id must not be blank"
  reject_if (is_blank e.actor_id) "actor id must not be blank"
  reject_if (is_blank e.resource_type) "resource type must not be blank"
  reject_if (is_blank e.resource_id) "resource id must not be blank"
  reject_if (is_blank e.request_id) "request id must not be blank"
  reject_if (is_blank e.trace_id) "trace id must not be blank"
  check_metadata e.metadata
  ok e
