-- ===== src/Base/Elements.antt =====
-- The elements of a list, after a selection and after sorting.
use nexus_mcp.Base.Tests.{any, Bool-cases}
use nexus_mcp.Base.Order.{sort_by, insert_sorted}
use mathlib.Core.Path.{◌≡◌, refl}
use mathlib.Core.Logic.{◌⊎◌, inl, inr}
use mathlib.Core.Bool.{Bool, true}
use mathlib.Core.List.{List, [], ◌∷◌}
use native.Mathlib.Omega.{arith}

module _ {A : Type 0} where
  abbrev pub Element : A → List A → Type 0
  Element x [] = ⊥
  Element x (y ∷ ys) = (x ≡ y) ⊎ Element x ys

  -- Some element passes the test.
  pub any-Element :
      (p : A → Bool) (xs : List A) → any p xs ≡ true → (x : A) × Element x xs × (p x ≡ true)
  any-Element p [] h = ground arith
  any-Element p (x ∷ xs) h = elim (Bool-cases (p x)) [
    | inl e ↦ (x, inl refl, e)
    | inr e ↦ let (y, m, q) = any-Element p xs (ground arith) in (y, inr m, q)
  ]

  Element-insert_sorted :
      (lt : A → A → Bool) (x y : A) (ys : List A)
      → Element x (insert_sorted lt y ys)
      → Element x (y ∷ ys)
  unfolding insert_sorted
  Element-insert_sorted lt x y [] h = h
  Element-insert_sorted lt x y (z ∷ ys) h = elim (Bool-cases (lt z y)) [
    | inl e ↦ below (rw e at h) (Element-insert_sorted lt x y ys)
    | inr e ↦ rw e at h
  ]
    where
      below :
          (x ≡ z) ⊎ Element x (insert_sorted lt y ys)
          → (Element x (insert_sorted lt y ys) → Element x (y ∷ ys))
          → Element x (y ∷ z ∷ ys)
      below (inl e) k = inr (inl e)
      below (inr m) k = elim (k m) [ inl e ↦ inl e | inr n ↦ inr (inr n) ]

  pub Element-sort_by :
      (lt : A → A → Bool) (x : A) (xs : List A) → Element x (sort_by lt xs) → Element x xs
  unfolding sort_by
  Element-sort_by lt x [] h = h
  Element-sort_by lt x (y ∷ ys) h = elim (Element-insert_sorted lt x y (sort_by lt ys) h) [
    | inl e ↦ inl e
    | inr m ↦ inr (Element-sort_by lt x ys m)
  ]
