-- ===== src/Kinds.antt =====
-- Enumerations that several parts share: src/nexusmcp/modules/catalog/domain.py,
-- src/nexusmcp/modules/execution/domain.py and src/nexusmcp/modules/identity/domain.py.
use nexus_mcp.Base.{String}

pub data ToolVisibility : Type 0 where
  public authenticated restricted : ToolVisibility

pub data ToolSideEffect : Type 0 where
  read_only idempotent_write non_idempotent_write unknown : ToolSideEffect

-- The value of the `StrEnum`.
abbrev pub side_effect_value : ToolSideEffect → String
side_effect_value ToolSideEffect.read_only = "read_only"
side_effect_value ToolSideEffect.idempotent_write = "idempotent_write"
side_effect_value ToolSideEffect.non_idempotent_write = "non_idempotent_write"
side_effect_value ToolSideEffect.unknown = "unknown"

pub data ExecutionErrorCategory : Type 0 where
  validation authentication authorization approval credential timeout_before_send :
      ExecutionErrorCategory
  timeout_after_send network upstream_4xx upstream_5xx cancelled unknown : ExecutionErrorCategory

pub data McpScopeType : Type 0 where
  root toolset : McpScopeType

abbrev pub scope_value : McpScopeType → String
scope_value root = "root"
scope_value toolset = "toolset"

pub data PrincipalType : Type 0 where
  agent_service anonymous : PrincipalType
