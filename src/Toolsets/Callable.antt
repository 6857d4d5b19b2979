-- ===== src/Toolsets/Callable.antt =====
-- The tools that may be called at an endpoint: src/nexusmcp/modules/toolsets/runtime.py.
use nexus_mcp.Base.{
  String, true, ◌&&◌, ◌||◌, List, [], ◌∷◌, ◌++◌, ◌==◌, ◌≡◌, ◌⊎◌, refl, sym, subst, arith, inl, inr,
  Bool-cases, Option-cases, ◌∙◌,
}
use nexus_mcp.Base.Order.{contains, sorted_set}
use nexus_mcp.Base.Order.Sets.{contains-sorted_set}
use nexus_mcp.Base.Elements.{Element, any-Element, Element-sort_by}
use nexus_mcp.Dict.{Dict, find}
use nexus_mcp.Errors.{Exc}
use nexus_mcp.Result.{Result, ok, err, Result-cases}
use nexus_mcp.Action.{Action, ◌>>=◌, continue, pure}
use nexus_mcp.Context.{ActorContext}
use nexus_mcp.Catalog.Published.{PublishedTool, is_visible_to}
use nexus_mcp.Toolsets.{Toolset, Digests, is_all_published, ids_of_members}
use nexus_mcp.Toolsets.Catalog.{ToolsetCatalogSnapshot, list_member_snapshots}
use nexus_mcp.Toolsets.Store.{ToolsetWorld, with_unit_of_work, clone}
use nexus_mcp.Toolsets.Scopes.{McpEndpointScope, granted_toolsets}
use nexus_mcp.Toolsets.Runtime.{
  ResolvedToolsetAccess, explicit_ids, member_snapshots, snapshot_ids, allows_all, eligible,
  access_of, read_grants, resolve_access, require_business_tool,
}
use nexus_mcp.Toolsets.Invariant.{Inv, clone_lem}
use nexus_mcp.Toolsets.Access.{Granted, Element-select, find-passes, granted_toolsets-Granted}

-- The tool set has the tool: it has all that are published, or it is a member.
abbrev pub Covers : Toolset → PublishedTool → Type 0
Covers t tool =
    (is_all_published t.kind ≡ true) ⊎ (contains tool.tool_id (ids_of_members t.members) ≡ true)

contains-append :
    (k : String) (xs ys : List String) → contains k (xs ++ ys) ≡ (contains k xs || contains k ys)
unfolding contains
contains-append k [] ys = refl
contains-append k (x ∷ xs) ys = ground (arith, contains-append k xs ys)

explicit_ids-Element :
    (k : String) (ts : List Toolset)
    → contains k (explicit_ids ts) ≡ true
    → (t : Toolset) × Element t ts × (contains k (ids_of_members t.members) ≡ true)
unfolding explicit_ids contains
explicit_ids-Element k [] h = ground arith
explicit_ids-Element k (t ∷ ts) h = elim (Bool-cases (contains k (explicit_ids ts))) [
  | inl later ↦ let (u, m, c) = explicit_ids-Element k ts later in (u, inr m, c)
  | inr none_later ↦
      (t, inl refl, ground (arith, contains-append k (ids_of_members t.members) (explicit_ids ts)))
]

snapshot_ids-contains :
    (k : String) (catalog : List ToolsetCatalogSnapshot) (tenant_id : String) (ids : List String)
    → contains k (snapshot_ids (list_member_snapshots catalog tenant_id ids)) ≡ true
    → contains k ids ≡ true
unfolding contains list_member_snapshots
snapshot_ids-contains k catalog tenant_id [] h = h
snapshot_ids-contains k catalog tenant_id (id ∷ ids) h =
    elim (Option-cases (find (λ s. s.tenant_id == tenant_id && s.tool_id == id) catalog)) [
      | inl n ↦ ground (arith, snapshot_ids-contains k catalog tenant_id ids)
      | inr (s, e) ↦ ground (
        arith,
        snapshot_ids-contains k catalog tenant_id ids,
        find-passes (λ s. s.tenant_id == tenant_id && s.tool_id == id) s catalog e,
      )
    ]

member_of_some :
    (k tenant_id : String) (ts : List Toolset) (catalog : List ToolsetCatalogSnapshot)
    → contains k (snapshot_ids (member_snapshots catalog tenant_id ts)) ≡ true
    → (t : Toolset) × Element t ts × (contains k (ids_of_members t.members) ≡ true)
unfolding member_snapshots
member_of_some k tenant_id ts catalog h = explicit_ids-Element k ts (
    sym (contains-sorted_set k (explicit_ids ts))
    ∙ snapshot_ids-contains k catalog tenant_id (sorted_set (explicit_ids ts)) h)

-- A tool that is eligible is published and visible, and one of the tool sets has it.
record IsEligible (context : ActorContext) (ts : List Toolset) (published : List PublishedTool)
    (tool : PublishedTool) : Type 0 where
  listed : Element tool published
  visible : is_visible_to tool context.principal_id ≡ true
  toolset : Toolset
  given : Element toolset ts
  covers : Covers toolset tool

eligible-IsEligible :
    (context : ActorContext) (ts : List Toolset) (catalog : List ToolsetCatalogSnapshot)
    (published : List PublishedTool) (tool : PublishedTool)
    → Element tool (eligible context ts (member_snapshots catalog context.tenant_id ts) published)
    → IsEligible context ts published tool
unfolding eligible
eligible-IsEligible context ts catalog published tool h =
    let (listed, passed) =
      Element-select
        (λ tool.
          (allows_all ts
            || contains tool.tool_id (snapshot_ids (member_snapshots catalog context.tenant_id ts)))
          && is_visible_to tool context.principal_id)
        tool published (Element-sort_by _ tool _ h) in
    elim (Bool-cases (allows_all ts)) [
      | inl all ↦
          let (t, m, covers) = any-Element (λ t. is_all_published t.kind) ts all in
          record {
            listed = listed;
            visible = ground arith;
            toolset = t;
            given = m;
            covers = inl covers;
          }
      | inr some_only ↦
          let (t, m, covers) =
            member_of_some tool.tool_id context.tenant_id ts catalog (ground arith) in
          record {
            listed = listed;
            visible = ground arith;
            toolset = t;
            given = m;
            covers = inr covers;
          }
    ]

-- A tool of that name is published and visible to the principal, and a tool set that is granted
-- to the principal has it.
pub record Callable (context : ActorContext) (d : Dict Toolset) (published : List PublishedTool)
    (canonical_name : String) : Type 0 where
  pub tool : PublishedTool
  pub named : tool.canonical_name ≡ canonical_name
  pub listed : Element tool published
  pub visible : is_visible_to tool context.principal_id ≡ true
  pub toolset : Toolset
  pub granted : Granted context d toolset
  pub covers : Covers toolset tool

module _ (list_published : String → Action ToolsetWorld (List PublishedTool))
    (context : ActorContext) (scope : McpEndpointScope) where
  reading :
      (w : ToolsetWorld) (ts : List Toolset)
      → clone w.toolsets ≡ ok w.toolsets
      → granted_toolsets context scope.type scope.toolset_slug w.toolsets ≡ ok ts
      → with_unit_of_work (read_grants context scope) w
        ≡ (ok (ts, member_snapshots w.snapshots context.tenant_id ts), w)
  unfolding with_unit_of_work read_grants ◌>>=◌
  reading w ts c q = rw (c, q) refl

  refused :
      (w : ToolsetWorld) (e : Exc)
      → clone w.toolsets ≡ ok w.toolsets
      → granted_toolsets context scope.type scope.toolset_slug w.toolsets ≡ err e
      → with_unit_of_work (read_grants context scope) w ≡ (err e, w)
  unfolding with_unit_of_work read_grants ◌>>=◌
  refused w e c q = rw (c, q) refl

  -- The end of the call, after the port.
  ended :
      (w' : ToolsetWorld) (access : ResolvedToolsetAccess)
      (grants : List Toolset × List ToolsetCatalogSnapshot)
      (o : Result (List PublishedTool) × ToolsetWorld)
      → continue o.0 (λ published. pure (access_of context scope grants published)) o.1
        ≡ (ok access, w')
      → (published : List PublishedTool) × (o ≡ (ok published, w'))
        × (access_of context scope grants published ≡ access)
  ended w' access grants (ok published, w1) h = (published, ground arith, ground arith)
  ended w' access grants (err e, w1) h = ground arith

  -- What was read, and what the port answered.
  resolved :
      (w w' : ToolsetWorld) (access : ResolvedToolsetAccess)
      → clone w.toolsets ≡ ok w.toolsets
      → resolve_access list_published context scope w ≡ (ok access, w')
      → (ts : List Toolset) × (published : List PublishedTool) × (granted_toolsets context
            scope.type scope.toolset_slug w.toolsets
          ≡ ok ts)
        × (list_published context.tenant_id w ≡ (ok published, w'))
        × (access_of context scope (ts, member_snapshots w.snapshots context.tenant_id ts) published
            ≡ access)
  unfolding resolve_access ◌>>=◌
  resolved w w' access c h =
      elim (Result-cases (granted_toolsets context scope.type scope.toolset_slug w.toolsets)) [
        | inl (ts, q) ↦
            let (published, p, a) =
              ended w' access (ts, member_snapshots w.snapshots context.tenant_id ts)
                (list_published context.tenant_id w) (rw (reading w ts c q) at h) in
            (ts, published, q, p, a)
        | inr (e, q) ↦ let k = rw (refused w e c q) at h in ground arith
      ]

  -- On stores that satisfy the invariant: where the resolution of an endpoint returns and the name
  -- of a tool then passes `require_business_tool`, the reader of published tools has returned a tool
  -- of that name that is visible to the principal, and some stored tool set of the tenant that is
  -- active and that the principal has a grant to has the tool: as a member, or because it has all
  -- published tools.
  pub resolve_access-Callable :
      (digests : Digests) (w w' : ToolsetWorld) (access : ResolvedToolsetAccess)
      (canonical_name : String)
      → Inv digests w.toolsets
      → resolve_access list_published context scope w ≡ (ok access, w')
      → require_business_tool access canonical_name ≡ ok tt
      → (published : List PublishedTool) × (list_published context.tenant_id w ≡ (ok published, w'))
        × Callable context w.toolsets published canonical_name
  unfolding require_business_tool access_of
  resolve_access-Callable digests w w' access canonical_name v h r =
      let (ts, published, q, p, a) = resolved w w' access (clone_lem digests w.toolsets v) h in
      let (tool, m, named) =
        any-Element (λ t. t.canonical_name == canonical_name) access.tools (ground arith) in
      let e =
        eligible-IsEligible context ts w.snapshots published tool
          (subst (Element tool) (ground arith) m) in
      (
        published,
        p,
        record {
          tool = tool;
          named = ground arith;
          listed = e.listed;
          visible = e.visible;
          toolset = e.toolset;
          granted =
              granted_toolsets-Granted context scope.type scope.toolset_slug w.toolsets ts e.toolset
                v.keyed q e.given;
          covers = e.covers;
        },
      )
