-- ===== src/Errors/Codes.antt =====
-- `code` of each error class in src/nexusmcp/shared/errors.py: the stable text that clients and
-- the stored executions see.
use nexus_mcp.Base.{String}
use nexus_mcp.Errors.{NexusMcpError}

unfoldable pub error_code : NexusMcpError → String
error_code NexusMcpError.tool_not_found = "tool_not_found"
error_code NexusMcpError.tool_version_not_found = "tool_version_not_found"
error_code NexusMcpError.tool_binding_not_found = "tool_binding_not_found"
error_code NexusMcpError.tool_not_visible = "tool_not_visible"
error_code NexusMcpError.toolset_not_found = "toolset_not_found"
error_code NexusMcpError.toolset_conflict = "toolset_conflict"
error_code NexusMcpError.toolset_revision_conflict = "toolset_revision_conflict"
error_code NexusMcpError.invalid_toolset_members = "invalid_toolset_members"
error_code NexusMcpError.toolset_member_unavailable = "toolset_member_unavailable"
error_code NexusMcpError.toolset_not_active = "toolset_not_active"
error_code NexusMcpError.toolset_access_denied = "toolset_access_denied"
error_code NexusMcpError.system_toolset_immutable = "system_toolset_immutable"
error_code NexusMcpError.invalid_tool_state = "invalid_tool_state"
error_code NexusMcpError.tenant_boundary_violation = "tenant_boundary_violation"
error_code NexusMcpError.publish_conflict = "publish_conflict"
error_code NexusMcpError.upstream_not_active = "upstream_not_active"
error_code NexusMcpError.upstream_not_found = "upstream_not_found"
error_code NexusMcpError.upstream_conflict = "upstream_conflict"
error_code NexusMcpError.schema_digest_mismatch = "schema_digest_mismatch"
error_code NexusMcpError.binding_digest_mismatch = "binding_digest_mismatch"
error_code NexusMcpError.open_api_source_not_found = "openapi_source_not_found"
error_code NexusMcpError.open_api_import_job_not_found = "openapi_import_job_not_found"
error_code NexusMcpError.open_api_document_invalid = "openapi_document_invalid"
error_code NexusMcpError.open_api_feature_unsupported = "openapi_feature_unsupported"
error_code NexusMcpError.imported_operation_not_found = "imported_operation_not_found"
error_code NexusMcpError.invalid_review_state = "invalid_review_state"
error_code NexusMcpError.invalid_arguments = "invalid_arguments"
error_code NexusMcpError.feature_not_enabled = "feature_not_enabled"
error_code NexusMcpError.authorization = "authorization_denied"
error_code NexusMcpError.authentication = "authentication_failed"
error_code (NexusMcpError.approval_required a e) = "approval_required"
error_code NexusMcpError.approval_not_found = "approval_not_found"
error_code NexusMcpError.approval_pending = "approval_pending"
error_code NexusMcpError.approval_rejected = "approval_rejected"
error_code NexusMcpError.approval_expired = "approval_expired"
error_code NexusMcpError.approval_already_consumed = "approval_already_consumed"
error_code NexusMcpError.approval_mismatch = "approval_mismatch"
error_code NexusMcpError.approval_invalid_state = "approval_invalid_state"
error_code NexusMcpError.credential_binding_not_found = "credential_binding_not_found"
error_code NexusMcpError.credential_binding_conflict = "credential_binding_conflict"
error_code NexusMcpError.credential_resolution = "credential_resolution_failed"
error_code NexusMcpError.upstream_timeout = "upstream_timeout"
error_code NexusMcpError.upstream_unavailable = "upstream_unavailable"
error_code NexusMcpError.upstream_response = "upstream_response_error"
error_code NexusMcpError.unsafe_upstream_endpoint = "unsafe_upstream_endpoint"
error_code NexusMcpError.unknown_execution_outcome = "unknown_execution_outcome"
error_code NexusMcpError.tool_execution_not_found = "tool_execution_not_found"
error_code NexusMcpError.invalid_execution_state = "invalid_execution_state"
error_code NexusMcpError.execution_attempt_not_found = "execution_attempt_not_found"
error_code NexusMcpError.idempotency_key_required = "idempotency_key_required"
error_code (NexusMcpError.idempotency_conflict x) = "idempotency_conflict"
error_code (NexusMcpError.idempotency_in_progress x) = "idempotency_in_progress"
error_code (NexusMcpError.idempotency_already_completed x) = "idempotency_already_completed"
error_code (NexusMcpError.idempotency_outcome_unknown x) = "idempotency_outcome_unknown"
error_code (NexusMcpError.idempotency_previous_failed x) = "idempotency_previous_failed"
error_code NexusMcpError.idempotency_race = "idempotency_in_progress"
error_code NexusMcpError.tool_search_mode_unavailable = "tool_search_mode_unavailable"
error_code NexusMcpError.tool_search_reindex_job_not_found = "tool_search_reindex_job_not_found"
error_code NexusMcpError.tool_search_reindex_job_conflict = "tool_search_reindex_job_conflict"
error_code NexusMcpError.embedding_authentication = "embedding_authentication_failed"
error_code NexusMcpError.embedding_rate_limit = "embedding_rate_limited"
error_code NexusMcpError.embedding_unavailable = "embedding_unavailable"
error_code NexusMcpError.embedding_response = "embedding_response_invalid"
