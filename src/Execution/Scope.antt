-- ===== src/Execution/Scope.antt =====
-- `_validate_mcp_scope` of src/nexusmcp/modules/execution/domain.py.
use nexus_mcp.Base.{String, Bool, true, false, ◌&&◌, ◌||◌, Option, none, some, is_some, is_empty}
use nexus_mcp.Base.Int.{ℤ, pos, leb_ℤ}
use nexus_mcp.Kinds.{McpScopeType, root, toolset}
use nexus_mcp.Result.{Result, ◌>>◌, reject_if}

abbrev is_root : McpScopeType → Bool
is_root root = true
is_root toolset = false

abbrev is_toolset : McpScopeType → Bool
is_toolset root = false
is_toolset toolset = true

-- `not toolset_id`
abbrev missing? : Option String → Bool
missing? none = true
missing? (some id) = is_empty id

-- `revision is None or revision <= 0`
abbrev not_positive? : Option ℤ → Bool
not_positive? none = true
not_positive? (some r) = leb_ℤ r (pos 0)

unfoldable pub check_scope : McpScopeType → Option String → Option ℤ → Result (Unit {0})
check_scope scope toolset_id revision = do
  reject_if (is_root scope && (is_some toolset_id || is_some revision))
      "root MCP scope must not declare toolset context"
  reject_if (is_toolset scope && (missing? toolset_id || not_positive? revision))
      "toolset MCP scope requires toolset id and positive revision"
