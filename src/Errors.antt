-- ===== src/Errors.antt =====
-- The exceptions: src/nexusmcp/shared/errors.py and `ExecutorFailure` of
-- src/nexusmcp/modules/execution/domain.py. The diagnostic message of a `NexusMcpError`, which
-- no code reads, is left out.
pub mod Codes
use nexus_mcp.Base.{ℕ, String, Bool, Option}
use nexus_mcp.Kinds.{ExecutionErrorCategory}

-- One constructor for each concrete subclass of `NexusMcpError`, with the attributes it carries.
pub data NexusMcpError : Type 0 where
  tool_not_found tool_version_not_found tool_binding_not_found tool_not_visible : NexusMcpError
  toolset_not_found toolset_conflict toolset_revision_conflict invalid_toolset_members :
      NexusMcpError
  toolset_member_unavailable toolset_not_active toolset_access_denied : NexusMcpError
  system_toolset_immutable invalid_tool_state tenant_boundary_violation : NexusMcpError
  publish_conflict upstream_not_active upstream_not_found upstream_conflict : NexusMcpError
  schema_digest_mismatch binding_digest_mismatch open_api_source_not_found : NexusMcpError
  open_api_import_job_not_found open_api_document_invalid : NexusMcpError
  open_api_feature_unsupported imported_operation_not_found invalid_review_state : NexusMcpError
  invalid_arguments feature_not_enabled authorization authentication : NexusMcpError
  approval_required : Option String → Option ℕ → NexusMcpError
  approval_not_found approval_pending approval_rejected approval_expired : NexusMcpError
  approval_already_consumed approval_mismatch approval_invalid_state : NexusMcpError
  credential_binding_not_found credential_binding_conflict credential_resolution : NexusMcpError
  upstream_timeout upstream_unavailable upstream_response unsafe_upstream_endpoint : NexusMcpError
  unknown_execution_outcome tool_execution_not_found invalid_execution_state : NexusMcpError
  execution_attempt_not_found idempotency_key_required : NexusMcpError
  idempotency_conflict idempotency_in_progress idempotency_already_completed :
      String → NexusMcpError
  idempotency_outcome_unknown idempotency_previous_failed : String → NexusMcpError
  idempotency_race tool_search_mode_unavailable tool_search_reindex_job_not_found : NexusMcpError
  tool_search_reindex_job_conflict embedding_authentication embedding_rate_limit : NexusMcpError
  embedding_unavailable embedding_response : NexusMcpError

-- The attributes of an `ExecutorFailure`.
pub record ExecutorFailure : Type 0 where
  pub code : String
  pub category : ExecutionErrorCategory
  pub outcome_unknown : Bool
  pub upstream_status : Option ℕ

-- `ToolsetDomainError` of src/nexusmcp/modules/toolsets/errors.py, with its two subclasses.
pub data ToolsetDomainError : Type 0 where
  stale_revision system_mutation : String → ToolsetDomainError

-- What a call may raise. `toolset_domain` is a `ValueError` too; `cancelled` is
-- `asyncio.CancelledError`, which `except Exception` does not catch; `other` is any exception of
-- code outside the repository.
pub data Exc : Type 0 where
  value_error runtime_error other : String → Exc
  toolset_domain : ToolsetDomainError → Exc
  cancelled : Exc
  executor_failure : ExecutorFailure → Exc
  nexus : NexusMcpError → Exc
