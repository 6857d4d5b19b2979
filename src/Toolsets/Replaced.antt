-- ===== src/Toolsets/Replaced.antt =====
-- Which members `replace_members` of src/nexusmcp/modules/toolsets/domain.py leaves.
use nexus_mcp.Base.{
  ap, ℕ, ◌+◌, String, none, some, List, [], ◌≡◌, refl, sym, ◌∙◌, arith, if◌then◌else◌, Bool-cases,
  inl, inr,
}
use nexus_mcp.Result.{◌>>=◌, Result, ok, err, Result-cases}
use nexus_mcp.Base.Order.{contains, sorted_set}
use nexus_mcp.Base.Order.Sets.{contains-sorted_set}
use nexus_mcp.Dict.{Dict, get}
use nexus_mcp.Toolsets.{ToolsetMember, Toolset, Digests, ids_of_members}
use nexus_mcp.Toolsets.Ids.{normalized_ids}
use nexus_mcp.Toolsets.Validation.{new_toolset, calculate_membership_digest}
use nexus_mcp.Toolsets.Members.{members_by_id, members_for}
use nexus_mcp.Toolsets.Changes.{same_ids, replace_members}
use nexus_mcp.Toolsets.Revisions.{new_toolset_self}
use nexus_mcp.Toolsets.Membership.{
  nil-IsKeyed, IsKeyed, members_by_id-IsKeyed, get-members_by_id, get_or, fresh_member, member_of,
  members_for-ids, member_of-members_for, normalized_ids-sorted_set, same_ids-eq,
}

nil-absent : (k : String) → get {V = ToolsetMember} k [] ≡ none
unfolding get
nil-absent k = refl

module _ (digests : Digests) (t : Toolset) (ids : List String) (actor : String) (at : ℕ) where
  -- The members that the tool set should have.
  pub record Replaced (u : Toolset) : Type 0 where
    pub listed : ids_of_members u.members ≡ sorted_set ids
    pub member :
        (k : String)
        → member_of k u.members ≡ (
            if contains k ids
            then some (get_or (fresh_member t actor at k) (member_of k t.members))
            else none)

  unchanged-Replaced : sorted_set ids ≡ ids_of_members t.members → Replaced t
  unchanged-Replaced e = record {
    listed = sym e;
    member = λ k. ground (
      arith,
      contains-sorted_set k ids,
      get-members_by_id k [] t.members,
      ap (contains k) e,
      nil-absent k,
    );
  }

  remade-Replaced :
      (n : List String) (ms : List ToolsetMember) (u : Toolset)
      → n ≡ sorted_set ids
      → members_for t (members_by_id [] t.members) actor at n ≡ ok ms
      → u.members ≡ ms
      → Replaced u
  remade-Replaced n ms u e h q = record {
    listed = ap ids_of_members q ∙ members_for-ids t existing keyed actor at n ms h ∙ e;
    member = λ k. rw q (
        ground (
          arith,
          member_of-members_for t existing keyed actor at k [] n ms h,
          contains-sorted_set k ids,
          ap (contains k) e,
          nil-absent k,
        ));
  }
    where
      existing : Dict ToolsetMember
      existing = members_by_id [] t.members

      keyed : IsKeyed existing
      keyed = members_by_id-IsKeyed [] t.members nil-IsKeyed

  remake :
      (kept : Result (List ToolsetMember)) (d : Result String) (u : Toolset)
      → (do
        replaced ← kept
        digest ← d
        new_toolset digests (record t {
          members = replaced;
          membership_digest = digest;
          revision = t.revision + 1;
          updated_at = at;
        }))
        ≡ ok u
      → (ms : List ToolsetMember) × (kept ≡ ok ms) × (u.members ≡ ms)
  remake (ok ms) (ok d) u h = (
    ms,
    refl,
    ground (
      arith,
      new_toolset_self digests
          (record t {
            members = ms;
            membership_digest = d;
            revision = t.revision + 1;
            updated_at = at;
          })
          u,
    ),
  )
  remake (ok ms) (err e) u h = ground arith
  remake (err e) d u h = ground arith

  -- Where `replace_members` succeeds, the tool identifiers are the sorted set of the requested ones,
  -- and under each of them stands the member that was there before, with who added it and when, or,
  -- where there was none, a member of this tool set added by the actor at the time of the change.
  pub replace_members-Replaced :
      (expected : ℕ) (u : Toolset)
      → replace_members digests t expected ids actor at ≡ ok u
      → Replaced u
  unfolding replace_members
  replace_members-Replaced expected u h = elim (Result-cases (normalized_ids ids)) [
    | inl (n, q) ↦
        let s = normalized_ids-sorted_set ids n q in
        elim (Bool-cases (same_ids n (ids_of_members t.members))) [
          | inl e ↦
              let same : u ≡ t = ground arith in
              rw same (unchanged-Replaced (sym s ∙ same_ids-eq n (ids_of_members t.members) e))
          | inr e ↦
              let (ms, k, m) =
                remake (members_for t (members_by_id [] t.members) actor at n)
                  (calculate_membership_digest digests t.kind n) u (ground arith) in
              remade-Replaced n ms u s k m
        ]
    | inr (e, q) ↦ ground arith
  ]
