-- ===== src/Toolsets/Runtime.antt =====
-- The tools that an endpoint shows and lets call: src/nexusmcp/modules/toolsets/runtime.py.
use nexus_mcp.Base.{
  ℕ, String, Bool, not, Option, none, some, List, [], ◌∷◌, ◌++◌, ◌==◌, any, if◌then◌else◌, ◌||◌,
  ◌&&◌,
}
use mathlib.Core.Option
use nexus_mcp.Base.Order.{sort_by, text_lt, contains, sorted_set}
use nexus_mcp.Dict.{select}
use nexus_mcp.Errors.{nexus, NexusMcpError}
use nexus_mcp.Action.{◌>>=◌, pure, lift, Action}
use nexus_mcp.Toolsets.Scopes.{McpEndpointScope, granted_toolsets}
use nexus_mcp.Result.{Result, ok, err}
use nexus_mcp.Context.{ActorContext}
use nexus_mcp.Kinds.{McpScopeType}
use nexus_mcp.Catalog.Published.{PublishedTool, is_visible_to}
use nexus_mcp.Toolsets.{
  Toolset, ToolsetDiscoveryMode, is_all_published, ids_of_members, is_available,
}
use nexus_mcp.Toolsets.Catalog.{ToolsetCatalogSnapshot, list_member_snapshots}
use nexus_mcp.Toolsets.Store.{ToolsetWorld, with_unit_of_work, ToolsetSession}
use nexus_mcp.Toolsets.UseCases.{read, read_catalog}

pub record ResolvedToolsetAccess : Type 0 where
  pub endpoint_scope : McpEndpointScope
  pub tools : List PublishedTool
  pub unavailable_tool_names : List String
  pub discovery_mode : Option ToolsetDiscoveryMode
  pub toolset_id : Option String
  pub toolset_revision : Option ℕ

-- `require_business_tool`
unfoldable pub require_business_tool : ResolvedToolsetAccess → String → Result (Unit {0})
unfolding contains
require_business_tool access canonical_name =
    if any (λ tool. tool.canonical_name == canonical_name) access.tools
    then ok tt
    else if contains canonical_name access.unavailable_tool_names
    then err (nexus NexusMcpError.toolset_member_unavailable)
    else err (nexus NexusMcpError.toolset_access_denied)

-- The tools of the explicit tool sets.
unfoldable pub explicit_ids : List Toolset → List String
explicit_ids [] = []
explicit_ids (t ∷ ts) =
    let rest = explicit_ids ts in
    if is_all_published t.kind then rest else ids_of_members t.members ++ rest

-- `_member_snapshots`
unfoldable pub member_snapshots :
    List ToolsetCatalogSnapshot → String → List Toolset → List ToolsetCatalogSnapshot
unfolding explicit_ids list_member_snapshots sorted_set
member_snapshots catalog tenant_id toolsets =
    list_member_snapshots catalog tenant_id (sorted_set (explicit_ids toolsets))

-- `allowed_all_published`
abbrev pub allows_all : List Toolset → Bool
allows_all = any (λ t. is_all_published t.kind)

-- The identifiers of the snapshots.
abbrev pub snapshot_ids : List ToolsetCatalogSnapshot → List String
snapshot_ids [] = []
snapshot_ids (s ∷ ss) = s.tool_id ∷ snapshot_ids ss

-- The identifiers of the published tools.
abbrev published_ids : List PublishedTool → List String
published_ids [] = []
published_ids (tool ∷ tools) = tool.tool_id ∷ published_ids tools

-- `eligible`
unfoldable pub eligible :
    ActorContext
    → List Toolset
    → List ToolsetCatalogSnapshot
    → List PublishedTool
    → List PublishedTool
unfolding contains is_visible_to
eligible context toolsets snapshots published =
    sort_by (λ s t. text_lt s.canonical_name t.canonical_name)
      (select
        (λ tool.
          (allows_all toolsets || contains tool.tool_id (snapshot_ids snapshots))
          && is_visible_to tool context.principal_id)
        published)

-- `unavailable_names`, a set.
unfoldable pub unavailable_names : List ToolsetCatalogSnapshot → List PublishedTool → List String
unfolding contains
unavailable_names [] published = []
unavailable_names (s ∷ ss) published =
    let rest = unavailable_names ss published in
    elim s.canonical_name [
      | none ↦ rest
      | some name ↦
          if not (is_available s.availability) || not (contains s.tool_id (published_ids published))
          then name ∷ rest
          else rest
    ]

-- `toolsets[0]` for the endpoint of a tool set.
abbrev scoped_toolset : McpScopeType → List Toolset → Option Toolset
scoped_toolset McpScopeType.root toolsets = none
scoped_toolset McpScopeType.toolset [] = none
scoped_toolset McpScopeType.toolset (t ∷ ts) = some t

-- The result of `execute`.
unfoldable pub access_of :
    ActorContext
    → McpEndpointScope
    → List Toolset × List ToolsetCatalogSnapshot
    → List PublishedTool
    → ResolvedToolsetAccess
unfolding eligible unavailable_names
access_of context scope (toolsets, snapshots) published =
    let scoped = scoped_toolset scope.type toolsets in
    record {
      endpoint_scope = scope;
      tools = eligible context toolsets snapshots published;
      unavailable_tool_names = unavailable_names snapshots published;
      discovery_mode = Option.map (λ t. t.discovery_mode) scoped;
      toolset_id = Option.map (λ t. t.id) scoped;
      toolset_revision = Option.map (λ t. t.revision) scoped;
    }

-- What the unit of work reads.
unfoldable pub read_grants :
    ActorContext
    → McpEndpointScope
    → Action ToolsetSession (List Toolset × List ToolsetCatalogSnapshot)
unfolding read read_catalog
read_grants context scope = do
  granted ← read (granted_toolsets context scope.type scope.toolset_slug)
  toolsets ← lift granted
  snapshots ← read_catalog (λ catalog. member_snapshots catalog context.tenant_id toolsets)
  pure (toolsets, snapshots)

-- `ResolveToolsetAccess.execute`; the reader of published tools is a port.
unfoldable pub resolve_access :
    (String → Action ToolsetWorld (List PublishedTool))
    → ActorContext
    → McpEndpointScope
    → Action ToolsetWorld ResolvedToolsetAccess
resolve_access list_published_by_tenant context scope = do
  grants ← with_unit_of_work (read_grants context scope)
  published ← list_published_by_tenant context.tenant_id
  pure (access_of context scope grants published)
