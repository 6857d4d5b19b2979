-- ===== src/Execution/Disposition.antt =====
-- `retry_disposition` of src/nexusmcp/modules/execution/domain.py.
use nexus_mcp.Base.{Bool, true, false, ◌&&◌, not, if◌then◌else◌}
use nexus_mcp.Kinds.{ToolSideEffect, ExecutionErrorCategory}

pub data RetryDisposition : Type 0 where
  retry do_not_retry require_reconciliation : RetryDisposition

-- The set of the first test.
abbrev is_rejected : ExecutionErrorCategory → Bool
is_rejected ExecutionErrorCategory.validation = true
is_rejected ExecutionErrorCategory.authentication = true
is_rejected ExecutionErrorCategory.authorization = true
is_rejected ExecutionErrorCategory.approval = true
is_rejected ExecutionErrorCategory.credential = true
is_rejected ExecutionErrorCategory.upstream_4xx = true
is_rejected ExecutionErrorCategory.cancelled = true
is_rejected _ = false

-- The request may have reached the upstream service.
abbrev pub may_have_run : ExecutionErrorCategory → Bool
may_have_run ExecutionErrorCategory.timeout_after_send = true
may_have_run ExecutionErrorCategory.unknown = true
may_have_run _ = false

-- Neither read-only nor an idempotent write.
abbrev pub is_unsafe : ToolSideEffect → Bool
is_unsafe ToolSideEffect.non_idempotent_write = true
is_unsafe ToolSideEffect.unknown = true
is_unsafe _ = false

abbrev pub is_transport_error : ExecutionErrorCategory → Bool
is_transport_error ExecutionErrorCategory.timeout_before_send = true
is_transport_error ExecutionErrorCategory.timeout_after_send = true
is_transport_error ExecutionErrorCategory.network = true
is_transport_error ExecutionErrorCategory.upstream_5xx = true
is_transport_error ExecutionErrorCategory.unknown = true
is_transport_error _ = false

abbrev pub is_read_only : ToolSideEffect → Bool
is_read_only ToolSideEffect.read_only = true
is_read_only _ = false

abbrev pub is_idempotent_write : ToolSideEffect → Bool
is_idempotent_write ToolSideEffect.idempotent_write = true
is_idempotent_write _ = false

unfoldable pub retry_disposition : ToolSideEffect → ExecutionErrorCategory → Bool → RetryDisposition
retry_disposition side_effect category has_idempotency_key =
    if is_rejected category
    then RetryDisposition.do_not_retry
    else if may_have_run category && is_unsafe side_effect
    then RetryDisposition.require_reconciliation
    else if not (is_transport_error category)
    then RetryDisposition.do_not_retry
    else if is_read_only side_effect
    then RetryDisposition.retry
    else if is_idempotent_write side_effect && has_idempotency_key
    then RetryDisposition.retry
    else RetryDisposition.do_not_retry
