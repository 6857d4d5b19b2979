-- ===== src/Toolsets/Repository.antt =====
-- What `InMemoryToolsetRepository` of src/nexusmcp/modules/toolsets/adapters/in_memory.py writes,
-- with the rules of _repository_rules.py beside it.
use nexus_mcp.Base.{
  ◌+◌, String, Bool, true, false, not, ◌&&◌, Option, none, some, List, [], ◌∷◌, ◌==◌, same_text?,
  eqb, if◌then◌else◌,
}
use nexus_mcp.Dict.{Dict, get, put}
use nexus_mcp.Errors.{value_error, toolset_domain, ToolsetDomainError}
use nexus_mcp.Result.{Result, ok, err, ◌>>=◌, ◌>>◌, reject_if}
use nexus_mcp.Action.{Action}
use nexus_mcp.Toolsets.{
  Toolset, ToolsetMember, ToolsetAccessGrant, ToolsetKind, ToolsetStatus, is_all_published,
  same_mode,
}
use nexus_mcp.Toolsets.Store.{ToolsetSession, lookup_by_id, lookup_by_slug, lookup_all_published}

abbrev pub same_kind : ToolsetKind → ToolsetKind → Bool
same_kind ToolsetKind.explicit ToolsetKind.explicit = true
same_kind ToolsetKind.all_published ToolsetKind.all_published = true
same_kind _ _ = false

abbrev pub same_status : ToolsetStatus → ToolsetStatus → Bool
same_status ToolsetStatus.draft ToolsetStatus.draft = true
same_status ToolsetStatus.active ToolsetStatus.active = true
same_status ToolsetStatus.disabled ToolsetStatus.disabled = true
same_status _ _ = false

same_member : ToolsetMember → ToolsetMember → Bool
same_member m n =
    m.tenant_id == n.tenant_id
    && m.toolset_id == n.toolset_id
    && m.tool_id == n.tool_id
    && m.added_by == n.added_by
    && eqb m.added_at n.added_at

same_members : List ToolsetMember → List ToolsetMember → Bool
unfolding same_member
same_members [] [] = true
same_members (m ∷ ms) (n ∷ ns) =
    let rest = same_members ms ns in if same_member m n then rest else false
same_members _ _ = false

same_grant : ToolsetAccessGrant → ToolsetAccessGrant → Bool
same_grant g h =
    g.tenant_id == h.tenant_id
    && g.toolset_id == h.toolset_id
    && g.principal_id == h.principal_id
    && g.granted_by == h.granted_by
    && eqb g.granted_at h.granted_at

same_grants : List ToolsetAccessGrant → List ToolsetAccessGrant → Bool
unfolding same_grant
same_grants [] [] = true
same_grants (g ∷ gs) (h ∷ hs) =
    let rest = same_grants gs hs in if same_grant g h then rest else false
same_grants _ _ = false

-- `==` on tool sets, which compares all fields.
unfoldable pub same_toolset : Toolset → Toolset → Bool
unfolding same_members same_grants
same_toolset t u =
    t.id == u.id
    && t.tenant_id == u.tenant_id
    && t.slug == u.slug
    && t.name == u.name
    && same_text? t.description u.description
    && same_kind t.kind u.kind
    && same_mode t.discovery_mode u.discovery_mode
    && same_status t.status u.status
    && eqb t.revision u.revision
    && t.membership_digest == u.membership_digest
    && t.created_by == u.created_by
    && eqb t.created_at u.created_at
    && eqb t.updated_at u.updated_at
    && same_members t.members u.members
    && same_grants t.grants u.grants

-- The stable identity fields are those of the stored tool set.
unfoldable pub same_identity : Toolset → Toolset → Bool
same_identity current replacement =
    current.id == replacement.id
    && current.tenant_id == replacement.tenant_id
    && current.slug == replacement.slug
    && same_kind current.kind replacement.kind
    && current.created_by == replacement.created_by
    && eqb current.created_at replacement.created_at

-- `requires_persistence_update`
unfoldable pub requires_persistence_update : Toolset → Toolset → Result Bool
requires_persistence_update current replacement = do
  reject_if (not (same_identity current replacement)) "toolset stable identity fields are immutable"
  (if same_toolset replacement current
      then ok false
      else if not (eqb replacement.revision (current.revision + 1))
      then err (
          toolset_domain
            (ToolsetDomainError.stale_revision "toolset revision transition was invalid"))
      else ok true)

abbrev is_other : Toolset → Option Toolset → Bool
is_other t none = false
is_other t (some owner) = not (owner.id == t.id)

abbrev is_there : Option Toolset → Bool
is_there none = false
is_there (some t) = true

-- The checks of `add`, and what is stored.
unfoldable pub added : String → Toolset → Dict Toolset → Result (Dict Toolset)
unfolding lookup_by_slug lookup_all_published
added tenant_id t d = do
  reject_if (not (tenant_id == t.tenant_id)) "entity tenant does not match repository tenant scope"
  reject_if (is_there (get t.id d)) "toolset id already exists"
  reject_if (is_there (lookup_by_slug tenant_id t.slug d)) "toolset slug already exists in tenant"
  reject_if (is_all_published t.kind && is_there (lookup_all_published tenant_id d))
      "all_published toolset already exists in tenant"
  ok (put t.id t d)

-- The rest of `save`, once the stored tool set has been compared.
replaced : String → Toolset → Dict Toolset → Bool → Result (Dict Toolset)
unfolding lookup_by_slug lookup_all_published
replaced tenant_id t d false = ok d
replaced tenant_id t d true = do
  reject_if (is_other t (lookup_by_slug tenant_id t.slug d)) "toolset slug already exists in tenant"
  reject_if (is_all_published t.kind && is_other t (lookup_all_published tenant_id d))
      "all_published toolset already exists in tenant"
  ok (put t.id t d)

abbrev save_over : String → Toolset → Dict Toolset → Option Toolset → Result (Dict Toolset)
save_over tenant_id t d none = err (value_error "toolset does not exist in tenant")
save_over tenant_id t d (some current) = do
  needed ← requires_persistence_update current t
  replaced tenant_id t d needed

-- The checks of `save`, and what is stored.
unfoldable pub saved : String → Toolset → Dict Toolset → Result (Dict Toolset)
unfolding requires_persistence_update replaced lookup_by_id
saved tenant_id t d = do
  reject_if (not (tenant_id == t.tenant_id)) "entity tenant does not match repository tenant scope"
  save_over tenant_id t d (lookup_by_id tenant_id t.id d)

abbrev store : Result (Dict Toolset) → Action ToolsetSession (Unit {0})
store (ok d) s = (ok tt, record s { working = d })
store (err e) s = (err e, s)

-- `add`
unfoldable pub add : String → Toolset → Action ToolsetSession (Unit {0})
unfolding added
add tenant_id t s = store (added tenant_id t s.working) s

-- `save`
unfoldable pub save : String → Toolset → Action ToolsetSession (Unit {0})
unfolding saved
save tenant_id t s = store (saved tenant_id t s.working) s
