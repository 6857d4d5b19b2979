-- ===== src/Toolsets/Validation.antt =====
-- The `__post_init__` methods of src/nexusmcp/modules/toolsets/domain.py.
use nexus_mcp.Base.{
  String, Bool, true, false, not, ◌&&◌, ◌||◌, List, [], ◌∷◌, ◌==◌, is_blank, codes, length, eqb,
  ltb,
}
use nexus_mcp.Base.Order.{contains, add_element}
use nexus_mcp.Result.{Result, ok, ◌>>=◌, ◌>>◌, reject_if}
use nexus_mcp.Toolsets.{
  ToolsetKind, ToolsetMember, ToolsetAccessGrant, Toolset, Digests, ids_of_members,
  is_all_published, is_active,
}
use nexus_mcp.Toolsets.Ids.{is_slug, is_digest, normalized_ids}

-- `ToolsetMember(...)`: the constructor runs `__post_init__`.
unfoldable pub new_member : ToolsetMember → Result ToolsetMember
new_member m = do
  reject_if (is_blank m.tenant_id) "member tenant id must not be blank"
  reject_if (is_blank m.toolset_id) "member toolset id must not be blank"
  reject_if (is_blank m.tool_id) "member tool id must not be blank"
  reject_if (is_blank m.added_by) "member actor id must not be blank"
  ok m

-- `ToolsetAccessGrant(...)`: the constructor runs `__post_init__`.
unfoldable pub new_grant : ToolsetAccessGrant → Result ToolsetAccessGrant
new_grant g = do
  reject_if (is_blank g.tenant_id) "grant tenant id must not be blank"
  reject_if (is_blank g.toolset_id) "grant toolset id must not be blank"
  reject_if (is_blank g.principal_id) "grant principal id must not be blank"
  reject_if (is_blank g.granted_by) "grant actor id must not be blank"
  ok g

-- The loop of `_validate_members`.
validate_members : String → String → List String → List ToolsetMember → Result (Unit {0})
validate_members tenant_id id tool_ids [] = ok tt
validate_members tenant_id id tool_ids (m ∷ ms) = do
  reject_if (not (m.tenant_id == tenant_id) || not (m.toolset_id == id))
      "toolset member crossed aggregate tenant or identity boundary"
  reject_if (contains m.tool_id tool_ids) "toolset member tool id must be unique"
  validate_members tenant_id id (add_element m.tool_id tool_ids) ms

-- The loop of `_validate_grants`.
validate_grants : String → String → List String → List ToolsetAccessGrant → Result (Unit {0})
validate_grants tenant_id id principal_ids [] = ok tt
validate_grants tenant_id id principal_ids (g ∷ gs) = do
  reject_if (not (g.tenant_id == tenant_id) || not (g.toolset_id == id))
      "toolset grant crossed aggregate tenant or identity boundary"
  reject_if (contains g.principal_id principal_ids) "toolset grant principal id must be unique"
  validate_grants tenant_id id (add_element g.principal_id principal_ids) gs

abbrev pub is_empty_list {ℓ} : {A : Type ℓ} → List A → Bool
is_empty_list [] = true
is_empty_list (x ∷ xs) = false

module _ (digests : Digests) where
  -- The part of `calculate_membership_digest` after the normalization.
  unfoldable pub digest_of : ToolsetKind → List String → Result String
  digest_of ToolsetKind.explicit normalized = ok (digests.of_explicit normalized)
  digest_of ToolsetKind.all_published normalized = do
    reject_if (not (is_empty_list normalized))
        "all_published membership digest does not accept tool ids"
    ok digests.of_all_published

  -- `calculate_membership_digest`
  unfoldable pub calculate_membership_digest : ToolsetKind → List String → Result String
  unfolding digest_of
  calculate_membership_digest kind tool_ids = do
    normalized ← normalized_ids tool_ids
    digest_of kind normalized

  -- `Toolset(...)`: the constructor runs `__post_init__`.
  unfoldable pub new_toolset : Toolset → Result Toolset
  unfolding calculate_membership_digest validate_members validate_grants
  new_toolset t = do
    reject_if (is_blank t.id) "toolset id must not be blank"
    reject_if (is_blank t.tenant_id) "toolset tenant id must not be blank"
    reject_if (is_blank t.name) "toolset name must not be blank"
    reject_if (is_blank t.created_by) "toolset creator must not be blank"
    reject_if (ltb 64 (length (codes t.slug)) || not (is_slug t.slug))
        "toolset slug must use lowercase kebab-case"
    reject_if (ltb 128 (length (codes t.name))) "toolset name must not exceed 128 characters"
    reject_if (eqb t.revision 0) "toolset revision must be positive"
    reject_if (not (is_digest t.membership_digest))
        "toolset membership digest must be a lowercase sha256 digest"
    reject_if (ltb t.updated_at t.created_at) "toolset updated_at must not precede created_at"
    reject_if (is_all_published t.kind && not (t.slug == "all-published"))
        "system all_published toolset must use reserved slug"
    reject_if (is_all_published t.kind && not (is_empty_list t.members))
        "all_published toolset must not contain explicit members"
    reject_if (not (is_all_published t.kind) && is_active t.status && is_empty_list t.members)
        "active explicit toolset must contain at least one member"
    validate_members t.tenant_id t.id [] t.members
    validate_grants t.tenant_id t.id [] t.grants
    digest ← calculate_membership_digest t.kind (ids_of_members t.members)
    reject_if (not (t.membership_digest == digest))
        "toolset membership digest did not match members"
    ok t
