-- ===== src/Toolsets/Revisions.antt =====
-- What the methods of `Toolset` in src/nexusmcp/modules/toolsets/domain.py do to its revision.
use nexus_mcp.Base.{
  ℕ, ◌+◌, ◌≤◌, String, Option, List, [], ◌≡◌, ◌≢◌, ◌⊎◌, inl, inr, arith, ◌==◌, ◌&&◌, same_text?,
  Bool-cases,
}
use nexus_mcp.Errors.{ToolsetDomainError, toolset_domain}
use nexus_mcp.Result.{Result, ok, err, Result-cases, ◌>>=◌}
use nexus_mcp.Toolsets.{
  ToolsetDiscoveryMode, ToolsetStatus, Toolset, Digests, is_active, same_mode, is_disabled,
  ToolsetMember, ToolsetAccessGrant, ids_of_members, ids_of_grants,
}
use nexus_mcp.Toolsets.Ids.{normalized_ids}
use nexus_mcp.Toolsets.Validation.{new_toolset, calculate_membership_digest}
use nexus_mcp.Toolsets.Members.{members_by_id, members_for, grants_by_id, grants_for}
use nexus_mcp.Toolsets.Changes.{
  update_profile, replace_members, replace_grants, activate, disable, same_ids,
}

-- A call of a method that changes a tool set.
pub data Change : Type 0 where
  profile : String → Option String → ToolsetDiscoveryMode → Change
  members grants : List String → String → Change
  activation disabling : Change

module _ (digests : Digests) where
  -- The call, with the expected revision and the time of the change.
  abbrev pub change : Change → Toolset → ℕ → ℕ → Result Toolset
  change (Change.profile name description mode) t expected at =
      update_profile digests t expected name description mode at
  change (Change.members ids actor) t expected at = replace_members digests t expected ids actor at
  change (Change.grants ids actor) t expected at = replace_grants digests t expected ids actor at
  change Change.activation t expected at = activate digests t expected at
  change Change.disabling t expected at = disable digests t expected at

  pub new_toolset_self : (t u : Toolset) → new_toolset digests t ≡ ok u → u ≡ t
  unfolding new_toolset
  new_toolset_self t u h = ground arith

  -- The next revision of the tool set, made at the time.
  pub record IsNext (t : Toolset) (at : ℕ) (u : Toolset) : Type 0 where
    pub valid : new_toolset digests u ≡ ok u
    pub next_revision : u.revision ≡ t.revision + 1
    pub updated : u.updated_at ≡ at
    pub in_order : t.updated_at ≤ at
    pub same_id : u.id ≡ t.id
    pub same_tenant : u.tenant_id ≡ t.tenant_id
    pub same_slug : u.slug ≡ t.slug
    pub same_kind : u.kind ≡ t.kind
    pub same_creator : u.created_by ≡ t.created_by
    pub same_creation : u.created_at ≡ t.created_at

  update_profile-IsNext :
      (t u : Toolset) (expected : ℕ) (name : String) (description : Option String)
      (mode : ToolsetDiscoveryMode) (at : ℕ)
      → update_profile digests t expected name description mode at ≡ ok u
      → (u ≡ t) ⊎ IsNext t at u
  unfolding update_profile
  update_profile-IsNext t u expected name description mode at h =
      elim (Bool-cases (
        t.name == name
        && same_text? t.description description
        && same_mode t.discovery_mode mode)) [
          | inl e ↦ inl (ground arith)
          | inr e ↦ inr (
              ground (
                arith,
                new_toolset_self
                    (record t {
                      name = name;
                      description = description;
                      discovery_mode = mode;
                      revision = t.revision + 1;
                      updated_at = at;
                    })
                    u,
              ))
        ]

  activate-IsNext :
      (t u : Toolset) (expected at : ℕ)
      → activate digests t expected at ≡ ok u
      → (u ≡ t) ⊎ IsNext t at u
  unfolding activate
  activate-IsNext t u expected at h = elim (Bool-cases (is_active t.status)) [
    | inl e ↦ inl (ground arith)
    | inr e ↦ inr (
        ground (
          arith,
          new_toolset_self
              (record t {
                status = ToolsetStatus.active;
                revision = t.revision + 1;
                updated_at = at;
              })
              u,
        ))
  ]

  disable-IsNext :
      (t u : Toolset) (expected at : ℕ)
      → disable digests t expected at ≡ ok u
      → (u ≡ t) ⊎ IsNext t at u
  unfolding disable
  disable-IsNext t u expected at h = elim (Bool-cases (is_disabled t.status)) [
    | inl e ↦ inl (ground arith)
    | inr e ↦ inr (
        ground (
          arith,
          new_toolset_self
              (record t {
                status = ToolsetStatus.disabled;
                revision = t.revision + 1;
                updated_at = at;
              })
              u,
        ))
  ]

  replaced_members :
      (t u : Toolset) (at : ℕ) (ids : List String) (ms : Result (List ToolsetMember))
      (d : Result String)
      → (do
        replaced ← ms
        digest ← d
        new_toolset digests (record t {
          members = replaced;
          membership_digest = digest;
          revision = t.revision + 1;
          updated_at = at;
        }))
        ≡ ok u
      → t.updated_at ≤ at
      → IsNext t at u
  replaced_members t u at ids (ok ms) (ok d) h l = ground (
    arith,
    new_toolset_self
        (record t {
          members = ms;
          membership_digest = d;
          revision = t.revision + 1;
          updated_at = at;
        })
        u,
  )
  replaced_members t u at ids (ok ms) (err e) h l = ground arith
  replaced_members t u at ids (err e) d h l = ground arith

  replace_members-IsNext :
      (t u : Toolset) (expected : ℕ) (ids : List String) (actor : String) (at : ℕ)
      → replace_members digests t expected ids actor at ≡ ok u
      → (u ≡ t) ⊎ IsNext t at u
  unfolding replace_members
  replace_members-IsNext t u expected ids actor at h = elim (Result-cases (normalized_ids ids)) [
    | inl (n, q) ↦ elim (Bool-cases (same_ids n (ids_of_members t.members))) [
      | inl e ↦ inl (ground arith)
      | inr e ↦ inr (
          ground (
            arith,
            replaced_members t u at n (members_for t (members_by_id [] t.members) actor at n)
                (calculate_membership_digest digests t.kind n),
          ))
    ]
    | inr (e, q) ↦ ground arith
  ]

  replaced_grants :
      (t u : Toolset) (at : ℕ) (gs : Result (List ToolsetAccessGrant))
      → (do
        replaced ← gs
        new_toolset digests
            (record t { grants = replaced; revision = t.revision + 1; updated_at = at }))
        ≡ ok u
      → t.updated_at ≤ at
      → IsNext t at u
  replaced_grants t u at (ok gs) h l = ground (
    arith,
    new_toolset_self (record t { grants = gs; revision = t.revision + 1; updated_at = at }) u,
  )
  replaced_grants t u at (err e) h l = ground arith

  replace_grants-IsNext :
      (t u : Toolset) (expected : ℕ) (ids : List String) (actor : String) (at : ℕ)
      → replace_grants digests t expected ids actor at ≡ ok u
      → (u ≡ t) ⊎ IsNext t at u
  unfolding replace_grants
  replace_grants-IsNext t u expected ids actor at h = elim (Result-cases (normalized_ids ids)) [
    | inl (n, q) ↦ elim (Bool-cases (same_ids n (ids_of_grants t.grants))) [
      | inl e ↦ inl (ground arith)
      | inr e ↦ inr (
          ground
            (arith, replaced_grants t u at (grants_for t (grants_by_id [] t.grants) actor at n)))
    ]
    | inr (e, q) ↦ ground arith
  ]

  -- A change that succeeds gives the tool set itself, or its next revision: valid, numbered one
  -- higher, stamped with the time of the change, which is not before the last one, and with the
  -- identity, tenant, slug, kind, creator and creation time unchanged.
  pub change-IsNext :
      (c : Change) (t u : Toolset) (expected at : ℕ)
      → change c t expected at ≡ ok u
      → (u ≡ t) ⊎ IsNext t at u
  change-IsNext (Change.profile name description mode) t u expected at =
      update_profile-IsNext t u expected name description mode at
  change-IsNext (Change.members ids actor) t u expected at =
      replace_members-IsNext t u expected ids actor at
  change-IsNext (Change.grants ids actor) t u expected at =
      replace_grants-IsNext t u expected ids actor at
  change-IsNext Change.activation t u expected at = activate-IsNext t u expected at
  change-IsNext Change.disabling t u expected at = disable-IsNext t u expected at

  -- Every change is refused as stale where another revision than the present one is expected.
  pub change_stale :
      (c : Change) (t : Toolset) (expected at : ℕ)
      → expected ≢ t.revision
      → change c t expected at
        ≡ err (toolset_domain (ToolsetDomainError.stale_revision "toolset revision conflict"))
  unfolding update_profile replace_members replace_grants activate disable
  change_stale (Change.profile name description mode) t expected at n = ground arith
  change_stale (Change.members ids actor) t expected at n = ground arith
  change_stale (Change.grants ids actor) t expected at n = ground arith
  change_stale Change.activation t expected at n = ground arith
  change_stale Change.disabling t expected at n = ground arith
