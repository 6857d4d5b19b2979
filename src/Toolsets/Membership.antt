-- ===== src/Toolsets/Membership.antt =====
-- The members by their identifiers: lemmas on `replace_members` of
-- src/nexusmcp/modules/toolsets/domain.py.
use nexus_mcp.Base.{
  ℕ, String, true, ◌||◌, Option, none, some, List, [], ◌∷◌, ◌≡◌, refl, arith, is_some,
  if◌then◌else◌, inl, inr,
}
use nexus_mcp.Base.Order.{contains, add_elements, add_element, sort_by, text_lt, sorted_set}
use nexus_mcp.Dict.{Dict, get, put}
use nexus_mcp.Dict.Laws.{get-put}
use nexus_mcp.Result.{ok, Result-cases}
use nexus_mcp.Toolsets.{ToolsetMember, Toolset, ids_of_members}
use nexus_mcp.Toolsets.Ids.{normalize, normalized_ids}
use nexus_mcp.Toolsets.Validation.{new_member}
use nexus_mcp.Toolsets.Members.{members_by_id, members_for}
use nexus_mcp.Toolsets.Changes.{same_ids}

normalize-sort :
    (s values r : List String)
    → normalize s values ≡ ok r
    → r ≡ sort_by text_lt (add_elements s values)
unfolding normalize add_elements
normalize-sort s [] r h = ground arith
normalize-sort s (v ∷ vs) r h = ground (arith, normalize-sort (add_element v s) vs r)

-- Normalized identifiers are the sorted set of the given ones.
pub normalized_ids-sorted_set :
    (values r : List String) → normalized_ids values ≡ ok r → r ≡ sorted_set values
unfolding normalized_ids sorted_set
normalized_ids-sorted_set values r h = normalize-sort [] values r h

pub same_ids-eq : (xs ys : List String) → same_ids xs ys ≡ true → xs ≡ ys
unfolding same_ids
same_ids-eq [] [] h = refl
same_ids-eq [] (y ∷ ys) h = ground arith
same_ids-eq (x ∷ xs) [] h = ground arith
same_ids-eq (x ∷ xs) (y ∷ ys) h = ground (arith, same_ids-eq xs ys)

-- The member that is made for an identifier that had none.
abbrev pub fresh_member : Toolset → String → ℕ → String → ToolsetMember
fresh_member t actor_id occurred_at tool_id = record {
  tenant_id = t.tenant_id;
  toolset_id = t.id;
  tool_id = tool_id;
  added_by = actor_id;
  added_at = occurred_at;
}

abbrev pub get_or : ToolsetMember → Option ToolsetMember → ToolsetMember
get_or fresh none = fresh
get_or fresh (some m) = m

-- The member of the list under the identifier.
abbrev pub member_of : String → List ToolsetMember → Option ToolsetMember
member_of k ms = get k (members_by_id [] ms)

-- Every member stands under its identifier.
abbrev pub IsKeyed : Dict ToolsetMember → Type 0
IsKeyed d = (k : String) (m : ToolsetMember) → get k d ≡ some m → m.tool_id ≡ k

put-IsKeyed : (m : ToolsetMember) (d : Dict ToolsetMember) → IsKeyed d → IsKeyed (put m.tool_id m d)
put-IsKeyed m d h k n e = ground (arith, get-put m.tool_id k m d, h k n)

pub members_by_id-IsKeyed :
    (d : Dict ToolsetMember) (ms : List ToolsetMember) → IsKeyed d → IsKeyed (members_by_id d ms)
unfolding members_by_id
members_by_id-IsKeyed d [] h = h
members_by_id-IsKeyed d (m ∷ ms) h =
    members_by_id-IsKeyed (put m.tool_id m d) ms (put-IsKeyed m d h)

pub nil-IsKeyed : IsKeyed []
unfolding get
nil-IsKeyed k m e = ground arith

pub get-members_by_id :
    (k : String) (d : Dict ToolsetMember) (ms : List ToolsetMember)
    → is_some (get k (members_by_id d ms)) ≡ (contains k (ids_of_members ms) || is_some (get k d))
unfolding members_by_id contains
get-members_by_id k d [] = ground arith
get-members_by_id k d (m ∷ ms) =
    ground (arith, get-members_by_id k (put m.tool_id m d) ms, get-put m.tool_id k m d)

new_member_self : (m n : ToolsetMember) → new_member m ≡ ok n → n ≡ m
unfolding new_member
new_member_self m n h = ground arith

module _ (t : Toolset) (existing : Dict ToolsetMember) (keyed : IsKeyed existing) (actor : String)
    (at : ℕ) where
  abbrev pub chosen : String → ToolsetMember
  chosen k = get_or (fresh_member t actor at k) (get k existing)

  chosen-id : (k : String) → (chosen k).tool_id ≡ k
  chosen-id k = ground (arith, keyed k (get_or (fresh_member t actor at k) (get k existing)))

  members_for-chosen :
      (id : String) (ids : List String) (ms : List ToolsetMember)
      → members_for t existing actor at (id ∷ ids) ≡ ok ms
      → (rest : List ToolsetMember) × (ms ≡ chosen id ∷ rest)
        × (members_for t existing actor at ids ≡ ok rest)
  unfolding members_for new_member
  members_for-chosen id ids ms h = elim (Result-cases (members_for t existing actor at ids)) [
    | inl (rest, q) ↦
        (rest, ground (arith, new_member_self (fresh_member t actor at id) (chosen id)), q)
    | inr (e, q) ↦ ground arith
  ]

  pub member_of-members_for :
      (k : String) (d : Dict ToolsetMember) (ids : List String) (ms : List ToolsetMember)
      → members_for t existing actor at ids ≡ ok ms
      → get k (members_by_id d ms) ≡ (if contains k ids then some (chosen k) else get k d)
  unfolding contains members_by_id members_for
  member_of-members_for k d [] ms h = ground arith
  member_of-members_for k d (id ∷ ids) ms h =
      let (rest, e, q) = members_for-chosen id ids ms h in
      rw e (
        ground (
          arith,
          member_of-members_for k (put (chosen id).tool_id (chosen id) d) ids rest q,
          chosen-id id,
          get-put (chosen id).tool_id k (chosen id) d,
        ))

  pub members_for-ids :
      (ids : List String) (ms : List ToolsetMember)
      → members_for t existing actor at ids ≡ ok ms
      → ids_of_members ms ≡ ids
  unfolding members_for
  members_for-ids [] ms h = ground arith
  members_for-ids (id ∷ ids) ms h =
      let (rest, e, q) = members_for-chosen id ids ms h in
      rw e (ground (arith, chosen-id id, members_for-ids ids rest q))
