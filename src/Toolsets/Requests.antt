-- ===== src/Toolsets/Requests.antt =====
-- The order and the repetitions of a request do not matter: `replace_members` of
-- src/nexusmcp/modules/toolsets/domain.py.
use nexus_mcp.Base.{
  ap, ℕ, String, List, [], ◌≡◌, refl, sym, ◌∙◌, arith, if◌then◌else◌, Bool-cases, inl, inr, true,
  Bool, is_blank, false, ◌∷◌,
}
use nexus_mcp.Result.{ok, err}
use nexus_mcp.Base.Order.{contains, sorted_set, add_elements, sort_by, text_lt, add_element}
use nexus_mcp.Base.Order.Sets.{contains-sorted_set, Ascending-ext, sorted_set-Ascending}
use nexus_mcp.Toolsets.{Toolset, Digests}
use nexus_mcp.Toolsets.Ids.{normalized_ids, normalize}
use nexus_mcp.Toolsets.Changes.{replace_members}
use nexus_mcp.Errors.{value_error}

-- Some identifier is blank.
has_blank : List String → Bool
has_blank [] = false
has_blank (x ∷ xs) = let rest = has_blank xs in if is_blank x then true else rest

normalize-eq :
    (s xs : List String)
    → normalize s xs ≡ (
        if has_blank xs
        then err (value_error "id must not be blank")
        else ok (sort_by text_lt (add_elements s xs)))
unfolding normalize has_blank add_elements
normalize-eq s [] = refl
normalize-eq s (x ∷ xs) = ground (arith, normalize-eq (add_element x s) xs)

has_blank-contains :
    (xs : List String)
    → has_blank xs ≡ true
    → (k : String) × (contains k xs ≡ true) × (is_blank k ≡ true)
unfolding has_blank contains
has_blank-contains [] h = ground arith
has_blank-contains (x ∷ xs) h = elim (Bool-cases (is_blank x)) [
  | inl b ↦ (x, ground arith, b)
  | inr b ↦ let (k, c, d) = has_blank-contains xs (ground arith) in (k, ground arith, d)
]

contains-has_blank :
    (k : String) (xs : List String) → contains k xs ≡ true → is_blank k ≡ true → has_blank xs ≡ true
unfolding has_blank contains
contains-has_blank k [] c b = ground arith
contains-has_blank k (x ∷ xs) c b = ground (arith, contains-has_blank k xs)

module _ (xs ys : List String) (same : (k : String) → contains k xs ≡ contains k ys) where
  has_blank-congr : has_blank xs ≡ has_blank ys
  has_blank-congr = elim (Bool-cases (has_blank xs)) [
    | inl p ↦
        let (k, c, b) = has_blank-contains xs p in
        p ∙ sym (contains-has_blank k ys (sym (same k) ∙ c) b)
    | inr p ↦ elim (Bool-cases (has_blank ys)) [
      | inl q ↦
          let (k, c, b) = has_blank-contains ys q in contains-has_blank k xs (same k ∙ c) b ∙ sym q
      | inr q ↦ p ∙ sym q
    ]
  ]

  sorted_set-congr : sorted_set xs ≡ sorted_set ys
  sorted_set-congr =
      Ascending-ext (sorted_set xs) (sorted_set ys) (sorted_set-Ascending xs)
        (sorted_set-Ascending ys)
        λ k. contains-sorted_set k xs ∙ same k ∙ sym (contains-sorted_set k ys)

  normalized_ids-congr : normalized_ids xs ≡ normalized_ids ys
  unfolding normalized_ids sorted_set
  normalized_ids-congr =
      rw (normalize-eq [] xs, normalize-eq [] ys, has_blank-congr)
        (ap (λ r. if has_blank ys then err (value_error "id must not be blank") else ok r)
          sorted_set-congr)

  -- Two requests with the same identifiers, in any order and repeated at will, have the same
  -- result, be it a tool set or an exception.
  pub replace_members_order :
      (digests : Digests) (t : Toolset) (expected : ℕ) (actor : String) (at : ℕ)
      → replace_members digests t expected xs actor at
        ≡ replace_members digests t expected ys actor at
  unfolding replace_members
  replace_members_order digests t expected actor at = rw normalized_ids-congr
