-- ===== src/Toolsets/Valid.antt =====
-- What the checks of `Toolset.__post_init__` in src/nexusmcp/modules/toolsets/domain.py have found
-- of a tool set that passes them.
use nexus_mcp.Base.{String, List, [], ◌≡◌, ◌≢◌, ◌∙◌, arith, inl, inr, subst}
use nexus_mcp.Base.Order.{sorted_set}
use nexus_mcp.Result.{ok, Result-cases}
use nexus_mcp.Toolsets.{Toolset, ToolsetKind, ToolsetStatus, Digests, ids_of_members}
use nexus_mcp.Toolsets.Ids.{normalized_ids}
use nexus_mcp.Toolsets.Validation.{new_toolset, calculate_membership_digest}
use nexus_mcp.Toolsets.Invariant.{IsValid}
use nexus_mcp.Toolsets.Membership.{normalized_ids-sorted_set}

module _ (digests : Digests) where
  explicit_digest :
      (ids : List String) (d : String)
      → calculate_membership_digest digests ToolsetKind.explicit ids ≡ ok d
      → d ≡ digests.of_explicit (sorted_set ids)
  unfolding calculate_membership_digest
  explicit_digest ids d h = elim (Result-cases (normalized_ids ids)) [
    | inl (n, q) ↦ ground (arith, normalized_ids-sorted_set ids n q)
    | inr (e, q) ↦ ground arith
  ]

module _ (digests : Digests) (t : Toolset) (v : IsValid digests t) where
  pub valid-members :
      t.kind ≡ ToolsetKind.explicit → t.status ≡ ToolsetStatus.active → t.members ≢ []
  unfolding new_toolset
  valid-members k s e = ground arith

  checked_digest :
      (d : String)
      → calculate_membership_digest digests t.kind (ids_of_members t.members) ≡ ok d
      → t.membership_digest ≡ d
  unfolding new_toolset
  checked_digest d q = ground arith

  calculated :
      (d : String) × (calculate_membership_digest digests t.kind (ids_of_members t.members) ≡ ok d)
  unfolding new_toolset
  calculated =
      elim (Result-cases (calculate_membership_digest digests t.kind (ids_of_members t.members))) [
        | inl (d, q) ↦ (d, q)
        | inr (e, q) ↦ ground arith
      ]

  pub valid-digest :
      t.kind ≡ ToolsetKind.explicit
      → t.membership_digest ≡ digests.of_explicit (sorted_set (ids_of_members t.members))
  valid-digest k =
      let (d, q) = calculated in
      checked_digest d q
      ∙ explicit_digest digests (ids_of_members t.members) d (
          subst (λ kind. calculate_membership_digest digests kind (ids_of_members t.members) ≡ ok d)
            k q)
