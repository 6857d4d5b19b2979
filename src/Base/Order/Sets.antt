-- ===== src/Base/Order/Sets.antt =====
-- Sets of texts and their sorted listing: the elements, and that they alone decide the listing.
use nexus_mcp.Base.Tests.{if◌then◌else◌, Bool-cases}
use nexus_mcp.Base.Text.{◌==◌}
use nexus_mcp.Base.Order.{
  text_lt, contains, add_element, add_elements, insert_sorted, sort_by, sorted_set,
}
use nexus_mcp.Base.Order.Sorting.{text_lt_irrefl, text_lt_trans, text_lt_antisym}
use Prim.Native.String.{String}
use mathlib.Core.Path.{◌≡◌, refl, sym, ap, ◌∙◌, subst}
use mathlib.Core.Logic.{inl, inr}
use mathlib.Core.Bool.{true, false, ◌||◌}
use mathlib.Core.List.{List, [], ◌∷◌}
use native.Mathlib.Omega.{arith}

abbrev pub Distinct : List String → Type 0
Distinct [] = Unit {0}
Distinct (x ∷ xs) = (contains x xs ≡ false) × Distinct xs

pub contains-add_elements :
    (k : String) (s xs : List String)
    → contains k (add_elements s xs) ≡ (contains k s || contains k xs)
unfolding contains add_elements add_element
contains-add_elements k s [] = ground arith
contains-add_elements k s (x ∷ xs) =
    ground (arith, contains-add_elements k (x ∷ s) xs, contains-add_elements k s xs)

pub Distinct-add_element : (x : String) (s : List String) → Distinct s → Distinct (add_element x s)
unfolding add_element
Distinct-add_element x s h = ground arith

pub Distinct-add_elements : (s xs : List String) → Distinct s → Distinct (add_elements s xs)
unfolding add_elements
Distinct-add_elements s [] h = h
Distinct-add_elements s (x ∷ xs) h =
    Distinct-add_elements (add_element x s) xs (Distinct-add_element x s h)

contains-insert_sorted :
    (k x : String) (ys : List String)
    → contains k (insert_sorted text_lt x ys) ≡ (if k == x then true else contains k ys)
unfolding contains insert_sorted
contains-insert_sorted k x [] = refl
contains-insert_sorted k x (y ∷ ys) = ground (arith, contains-insert_sorted k x ys)

pub contains-sort_by :
    (k : String) (xs : List String) → contains k (sort_by text_lt xs) ≡ contains k xs
unfolding contains sort_by
contains-sort_by k [] = refl
contains-sort_by k (x ∷ xs) =
    ground (arith, contains-insert_sorted k x (sort_by text_lt xs), contains-sort_by k xs)

-- Smaller than all of the list.
abbrev pub Below : String → List String → Type 0
Below x [] = Unit {0}
Below x (y ∷ ys) = (text_lt x y ≡ true) × Below x ys

-- Each element is smaller than the next.
abbrev pub Ascending : List String → Type 0
Ascending [] = Unit {0}
Ascending (x ∷ xs) = Below x xs × Ascending xs

Below-trans : (x y : String) (ys : List String) → text_lt x y ≡ true → Below y ys → Below x ys
Below-trans x y [] h b = tt
Below-trans x y (z ∷ ys) h (k, b) = (text_lt_trans x y z h k, Below-trans x y ys h b)

Below-insert_sorted :
    (x y : String) (ys : List String)
    → text_lt x y ≡ true
    → Below x ys
    → Below x (insert_sorted text_lt y ys)
unfolding insert_sorted
Below-insert_sorted x y [] h b = (h, tt)
Below-insert_sorted x y (z ∷ ys) h (k, b) = elim (Bool-cases (text_lt z y)) [
  | inl e ↦ rw e (k, Below-insert_sorted x y ys h b)
  | inr e ↦ rw e (h, (k, b))
]

insert_sorted-Ascending :
    (x : String) (ys : List String)
    → contains x ys ≡ false
    → Ascending ys
    → Ascending (insert_sorted text_lt x ys)
unfolding insert_sorted contains
insert_sorted-Ascending x [] n h = (tt, tt)
insert_sorted-Ascending x (y ∷ ys) n (b, h) = elim (Bool-cases (text_lt y x)) [
  | inl e ↦ rw e (Below-insert_sorted y x ys e b, insert_sorted-Ascending x ys (ground arith) h)
  | inr e ↦
      let above : text_lt x y ≡ true = elim (Bool-cases (text_lt x y)) [
        | inl a ↦ a
        | inr a ↦ ground (arith, text_lt_antisym x y a e)
      ] in
      rw e ((above, Below-trans x y ys above b), (b, h))
]

pub sort_by-Ascending : (xs : List String) → Distinct xs → Ascending (sort_by text_lt xs)
unfolding sort_by
sort_by-Ascending [] h = tt
sort_by-Ascending (x ∷ xs) (n, h) =
    insert_sorted-Ascending x (sort_by text_lt xs) (contains-sort_by x xs ∙ n)
      (sort_by-Ascending xs h)

Below-contains :
    (x k : String) (ys : List String) → Below x ys → contains k ys ≡ true → text_lt x k ≡ true
unfolding contains
Below-contains x k [] b h = ground arith
Below-contains x k (y ∷ ys) (l, b) h = ground (arith, Below-contains x k ys b)

Below-absent : (x : String) (ys : List String) → Below x ys → contains x ys ≡ false
Below-absent x ys b = elim (Bool-cases (contains x ys)) [
  | inl h ↦ ground (arith, Below-contains x x ys b h, text_lt_irrefl x)
  | inr h ↦ h
]

abbrev SameElements : List String → List String → Type 0
SameElements xs ys = (k : String) → contains k xs ≡ contains k ys

same_head :
    (x y : String) (xs ys : List String)
    → Below x xs
    → Below y ys
    → contains x (y ∷ ys) ≡ true
    → contains y (x ∷ xs) ≡ true
    → x ≡ y
unfolding contains
same_head x y xs ys b c h k =
    ground (
      arith,
      Below-contains x y xs b,
      Below-contains y x ys c,
      text_lt_trans x y x,
      text_lt_irrefl x,
    )

same_tail :
    (x : String) (xs ys : List String)
    → Below x xs
    → Below x ys
    → SameElements (x ∷ xs) (x ∷ ys)
    → SameElements xs ys
unfolding contains
same_tail x xs ys b c h k = ground (arith, h k, Below-absent x xs b, Below-absent x ys c)

contains_self : (x : String) (xs : List String) → contains x (x ∷ xs) ≡ true
unfolding contains
contains_self x xs = ground arith

contains-nil : (x : String) (xs : List String) → ¬ SameElements (x ∷ xs) []
unfolding contains
contains-nil x xs h = ground (arith, h x)

-- An ascending list is determined by its elements.
pub Ascending-ext :
    (xs ys : List String) → Ascending xs → Ascending ys → SameElements xs ys → xs ≡ ys
Ascending-ext [] [] a b h = refl
Ascending-ext [] (y ∷ ys) a b h = absurd (contains-nil y ys λ k. sym (h k))
Ascending-ext (x ∷ xs) [] a b h = absurd (contains-nil x xs h)
Ascending-ext (x ∷ xs) (y ∷ ys) (b, a) (c, d) h =
    let e = same_head x y xs ys b c (sym (h x) ∙ contains_self x xs) (h y ∙ contains_self y ys) in
    let c' : Below x ys = rw e c in
    let h' : SameElements (x ∷ xs) (x ∷ ys) =
      subst (λ z. SameElements (x ∷ xs) (z ∷ ys)) (sym e) h in
    rw e (ap (◌∷◌ y) (Ascending-ext xs ys a d (same_tail x xs ys b c' h')))

pub sorted_set-Ascending : (xs : List String) → Ascending (sorted_set xs)
unfolding sorted_set
sorted_set-Ascending xs = sort_by-Ascending (add_elements [] xs) (Distinct-add_elements [] xs tt)

pub contains-sorted_set :
    (k : String) (xs : List String) → contains k (sorted_set xs) ≡ contains k xs
unfolding sorted_set contains
contains-sorted_set k xs = contains-sort_by k (add_elements [] xs) ∙ contains-add_elements k [] xs
