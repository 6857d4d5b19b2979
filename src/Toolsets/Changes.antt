-- ===== src/Toolsets/Changes.antt =====
-- The methods of `Toolset` in src/nexusmcp/modules/toolsets/domain.py. `replace` builds a new
-- object, so each change runs `__post_init__` again.
use nexus_mcp.Base.{
  ℕ, ◌+◌, String, Bool, true, false, not, ◌&&◌, ◌||◌, Option, some, List, [], ◌∷◌, ◌==◌, same_text?,
  eqb, ltb, if◌then◌else◌,
}
use nexus_mcp.Errors.{ToolsetDomainError, toolset_domain}
use nexus_mcp.Result.{Result, ok, err, ◌>>=◌, ◌>>◌, reject_if}
use nexus_mcp.Toolsets.Members.{members_by_id, members_for, grants_by_id, grants_for}
use nexus_mcp.Toolsets.Ids.{normalized_ids}
use nexus_mcp.Toolsets.Validation.{new_toolset, calculate_membership_digest, is_empty_list}
use nexus_mcp.Toolsets.{
  ToolsetKind, ToolsetDiscoveryMode, ToolsetStatus, Toolset, Digests, ids_of_members, ids_of_grants,
  is_all_published, is_active, is_disabled, same_mode,
}

-- `==` on tuples of texts
unfoldable pub same_ids : List String → List String → Bool
same_ids [] [] = true
same_ids (x ∷ xs) (y ∷ ys) = let rest = same_ids xs ys in if x == y then rest else false
same_ids _ _ = false

-- `if condition: raise SystemToolsetMutationError(message)`
abbrev pub reject_system_if : Bool → String → Result (Unit {0})
reject_system_if true message = err (toolset_domain (ToolsetDomainError.system_mutation message))
reject_system_if false message = ok tt

-- `_require_revision`
unfoldable pub require_revision : Toolset → ℕ → Result (Unit {0})
require_revision t expected_revision =
    if eqb expected_revision t.revision
    then ok tt
    else err (toolset_domain (ToolsetDomainError.stale_revision "toolset revision conflict"))

-- `_require_mutation_time`
unfoldable pub require_mutation_time : Toolset → ℕ → Result (Unit {0})
require_mutation_time t occurred_at =
    reject_if (ltb occurred_at t.updated_at) "toolset mutation time must not precede updated_at"

module _ (digests : Digests) where
  -- `create_explicit`
  unfoldable pub create_explicit :
      String
      → String
      → String
      → String
      → Option String
      → String
      → ℕ
      → ToolsetDiscoveryMode
      → Result Toolset
  create_explicit toolset_id tenant_id slug name description created_by created_at discovery_mode =
      do
        digest ← calculate_membership_digest digests ToolsetKind.explicit []
        new_toolset digests (record {
          id = toolset_id;
          tenant_id = tenant_id;
          slug = slug;
          name = name;
          description = description;
          kind = ToolsetKind.explicit;
          discovery_mode = discovery_mode;
          status = ToolsetStatus.draft;
          revision = 1;
          membership_digest = digest;
          created_by = created_by;
          created_at = created_at;
          updated_at = created_at;
          members = [];
          grants = [];
        })

  -- `create_all_published`
  unfoldable pub create_all_published : String → String → String → ℕ → Result Toolset
  create_all_published toolset_id tenant_id created_by created_at = new_toolset digests (record {
    id = toolset_id;
    tenant_id = tenant_id;
    slug = "all-published";
    name = "All Published Tools";
    description = some "System-managed view of all current published tools.";
    kind = ToolsetKind.all_published;
    discovery_mode = ToolsetDiscoveryMode.search_first;
    status = ToolsetStatus.active;
    revision = 1;
    membership_digest = digests.of_all_published;
    created_by = created_by;
    created_at = created_at;
    updated_at = created_at;
    members = [];
    grants = [];
  })

  -- `update_profile`
  unfoldable pub update_profile :
      Toolset → ℕ → String → Option String → ToolsetDiscoveryMode → ℕ → Result Toolset
  unfolding require_revision require_mutation_time
  update_profile t expected_revision name description discovery_mode updated_at = do
    require_revision t expected_revision
    reject_system_if
        (is_all_published t.kind
          && (not (t.name == name) || not (same_text? t.description description)))
        "system all_published toolset identity is immutable"
    (if t.name == name
          && same_text? t.description description
          && same_mode t.discovery_mode discovery_mode
        then ok t
        else do
          require_mutation_time t updated_at
          new_toolset digests (record t {
            name = name;
            description = description;
            discovery_mode = discovery_mode;
            revision = t.revision + 1;
            updated_at = updated_at;
          }))

  -- `replace_members`
  unfoldable pub replace_members : Toolset → ℕ → List String → String → ℕ → Result Toolset
  unfolding require_revision require_mutation_time
  replace_members t expected_revision tool_ids actor_id occurred_at = do
    require_revision t expected_revision
    reject_system_if (is_all_published t.kind)
        "all_published toolset does not accept explicit members"
    normalized ← normalized_ids tool_ids
    reject_if (is_active t.status && is_empty_list normalized)
        "active explicit toolset must contain at least one member"
    (if same_ids normalized (ids_of_members t.members) then ok t else do
      require_mutation_time t occurred_at
      members ← members_for t (members_by_id [] t.members) actor_id occurred_at normalized
      digest ← calculate_membership_digest digests t.kind normalized
      new_toolset digests (record t {
        members = members;
        membership_digest = digest;
        revision = t.revision + 1;
        updated_at = occurred_at;
      }))

  -- `replace_grants`
  unfoldable pub replace_grants : Toolset → ℕ → List String → String → ℕ → Result Toolset
  unfolding require_revision require_mutation_time
  replace_grants t expected_revision principal_ids actor_id occurred_at = do
    require_revision t expected_revision
    normalized ← normalized_ids principal_ids
    (if same_ids normalized (ids_of_grants t.grants) then ok t else do
      require_mutation_time t occurred_at
      grants ← grants_for t (grants_by_id [] t.grants) actor_id occurred_at normalized
      new_toolset digests
          (record t { grants = grants; revision = t.revision + 1; updated_at = occurred_at }))

  -- `activate`
  unfoldable pub activate : Toolset → ℕ → ℕ → Result Toolset
  unfolding require_revision require_mutation_time
  activate t expected_revision activated_at = do
    require_revision t expected_revision
    (if is_active t.status then ok t else do
      reject_if (not (is_all_published t.kind) && is_empty_list t.members)
          "explicit toolset must contain members before activation"
      require_mutation_time t activated_at
      new_toolset digests (record t {
        status = ToolsetStatus.active;
        revision = t.revision + 1;
        updated_at = activated_at;
      }))

  -- `disable`
  unfoldable pub disable : Toolset → ℕ → ℕ → Result Toolset
  unfolding require_revision require_mutation_time
  disable t expected_revision disabled_at = do
    require_revision t expected_revision
    (if is_disabled t.status then ok t else do
      reject_system_if (is_all_published t.kind) "system all_published toolset cannot be disabled"
      require_mutation_time t disabled_at
      new_toolset digests (record t {
        status = ToolsetStatus.disabled;
        revision = t.revision + 1;
        updated_at = disabled_at;
      }))
