-- ===== src/Toolsets/Scopes.antt =====
-- The scope of an endpoint, and the tool sets it gives access to: src/nexusmcp/modules/toolsets/runtime.py.
use nexus_mcp.Base.{
  String, Bool, true, not, Option, none, some, List, [], ◌∷◌, is_some, is_empty, if◌then◌else◌,
}
use nexus_mcp.Base.Order.{contains}
use nexus_mcp.Dict.{Dict}
use nexus_mcp.Errors.{other, nexus, NexusMcpError}
use nexus_mcp.Result.{Result, ok, err, ◌>>=◌, ◌>>◌, reject_if}
use nexus_mcp.Context.{ActorContext}
use nexus_mcp.Kinds.{McpScopeType}
use nexus_mcp.Toolsets.{Toolset, is_active, ids_of_grants}
use nexus_mcp.Toolsets.Store.{lookup_by_slug, list_granted_active}

pub record McpEndpointScope : Type 0 where
  pub type : McpScopeType
  pub toolset_slug : Option String

abbrev slug_missing : Option String → Bool
slug_missing none = true
slug_missing (some slug) = is_empty slug

abbrev check_scope : McpScopeType → Option String → Result (Unit {0})
check_scope McpScopeType.root slug =
    reject_if (is_some slug) "root endpoint scope must not contain toolset slug"
check_scope McpScopeType.toolset slug =
    reject_if (slug_missing slug) "toolset endpoint scope requires slug"

-- `McpEndpointScope(...)`: the constructor runs `__post_init__`.
unfoldable pub new_scope : McpEndpointScope → Result McpEndpointScope
new_scope s = do check_scope s.type s.toolset_slug; ok s

-- `_require_scoped_access`, which gives the tool set that it asserts.
unfoldable pub require_scoped_access : String → Option Toolset → Result Toolset
unfolding contains
require_scoped_access principal_id none = err (nexus NexusMcpError.toolset_not_found)
require_scoped_access principal_id (some t) =
    if not (is_active t.status)
    then err (nexus NexusMcpError.toolset_not_active)
    else if not (contains principal_id (ids_of_grants t.grants))
    then err (nexus NexusMcpError.toolset_access_denied)
    else ok t

-- The tool sets that the endpoint gives access to.
abbrev pub granted_toolsets :
    ActorContext → McpScopeType → Option String → Dict Toolset → Result (List Toolset)
granted_toolsets context McpScopeType.toolset (some slug) d = do
  t ← require_scoped_access context.principal_id (lookup_by_slug context.tenant_id slug d)
  ok (t ∷ [])
granted_toolsets context McpScopeType.toolset none d = err (other "AssertionError")
granted_toolsets context McpScopeType.root slug d =
    ok (list_granted_active context.tenant_id context.principal_id d)
