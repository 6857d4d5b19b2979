-- ===== src/Toolsets/Members.antt =====
-- The members and grants that `replace_members` and `replace_grants` of
-- src/nexusmcp/modules/toolsets/domain.py put together.
use nexus_mcp.Base.{ℕ, String, Option, none, some, List, [], ◌∷◌}
use nexus_mcp.Dict.{Dict, get, put}
use nexus_mcp.Result.{Result, ok, ◌>>=◌}
use nexus_mcp.Toolsets.{ToolsetMember, ToolsetAccessGrant, Toolset}
use nexus_mcp.Toolsets.Validation.{new_member, new_grant}

-- `{member.tool_id: member for member in self.members}`
unfoldable pub members_by_id : Dict ToolsetMember → List ToolsetMember → Dict ToolsetMember
members_by_id existing [] = existing
members_by_id existing (m ∷ ms) = members_by_id (put m.tool_id m existing) ms

-- `existing.get(tool_id) or ToolsetMember(…)`
abbrev keep_member : Option ToolsetMember → ToolsetMember → Result ToolsetMember
keep_member (some kept) fresh = ok kept
keep_member none fresh = new_member fresh

-- The members under the ids.
unfoldable pub members_for :
    Toolset → Dict ToolsetMember → String → ℕ → List String → Result (List ToolsetMember)
unfolding new_member
members_for t existing actor_id occurred_at [] = ok []
members_for t existing actor_id occurred_at (tool_id ∷ tool_ids) = do
  member ← keep_member (get tool_id existing) (record {
    tenant_id = t.tenant_id;
    toolset_id = t.id;
    tool_id = tool_id;
    added_by = actor_id;
    added_at = occurred_at;
  })
  members ← members_for t existing actor_id occurred_at tool_ids
  ok (member ∷ members)

-- `{grant.principal_id: grant for grant in self.grants}`
unfoldable pub grants_by_id :
    Dict ToolsetAccessGrant → List ToolsetAccessGrant → Dict ToolsetAccessGrant
grants_by_id existing [] = existing
grants_by_id existing (g ∷ gs) = grants_by_id (put g.principal_id g existing) gs

-- `existing.get(principal_id) or ToolsetAccessGrant(…)`
abbrev keep_grant : Option ToolsetAccessGrant → ToolsetAccessGrant → Result ToolsetAccessGrant
keep_grant (some kept) fresh = ok kept
keep_grant none fresh = new_grant fresh

-- The grants under the ids.
unfoldable pub grants_for :
    Toolset → Dict ToolsetAccessGrant → String → ℕ → List String → Result (List ToolsetAccessGrant)
unfolding new_grant
grants_for t existing actor_id occurred_at [] = ok []
grants_for t existing actor_id occurred_at (principal_id ∷ principal_ids) = do
  grant ← keep_grant (get principal_id existing) (record {
    tenant_id = t.tenant_id;
    toolset_id = t.id;
    principal_id = principal_id;
    granted_by = actor_id;
    granted_at = occurred_at;
  })
  grants ← grants_for t existing actor_id occurred_at principal_ids
  ok (grant ∷ grants)
