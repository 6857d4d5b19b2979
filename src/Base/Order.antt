-- ===== src/Base/Order.antt =====
-- Python's order on texts, `set` of texts and `sorted`.
pub mod Sorting
pub mod Sets
use Prim.Native.Nat.{Ordering, compare}
use Prim.Native.Char.{code}
use Prim.Native.String.{String}
use mathlib.Core.Bool.{Bool, true, false}
use mathlib.Core.List.{List, [], ◌∷◌}
use nexus_mcp.Base.Tests.{if◌then◌else◌}
use nexus_mcp.Base.Text.{◌==◌}

-- `s < t` on texts, by code points.
unfoldable pub text_lt : String → String → Bool
text_lt String.[] String.[] = false
text_lt String.[] (String.◌∷◌ d t) = true
text_lt (String.◌∷◌ c s) String.[] = false
text_lt (String.◌∷◌ c s) (String.◌∷◌ d t) = elim (compare (code c) (code d)) [
  | Ordering.lt ↦ true
  | Ordering.eq ↦ text_lt s t
  | Ordering.gt ↦ false
]

-- `x in xs`
unfoldable pub contains : String → List String → Bool
contains x [] = false
contains x (y ∷ ys) = if x == y then true else contains x ys

-- `s.add(x)`: a set is a list without repetition, whose order nothing reads.
unfoldable pub add_element : String → List String → List String
unfolding contains
add_element x s = if contains x s then s else x ∷ s

-- `set(xs)`, with the elements that are already there.
unfoldable pub add_elements : List String → List String → List String
unfolding add_element
add_elements s [] = s
add_elements s (x ∷ xs) = add_elements (add_element x s) xs

module _ {ℓ} {A : Type ℓ} (lt : A → A → Bool) where
  -- Before the first that is not smaller.
  unfoldable pub insert_sorted : A → List A → List A
  insert_sorted x [] = x ∷ []
  insert_sorted x (y ∷ ys) = if lt y x then y ∷ insert_sorted x ys else x ∷ y ∷ ys

  -- `sorted(xs)`, which is stable.
  unfoldable pub sort_by : List A → List A
  unfolding insert_sorted
  sort_by [] = []
  sort_by (x ∷ xs) = insert_sorted x (sort_by xs)

-- `sorted(set(xs))`
unfoldable pub sorted_set : List String → List String
unfolding sort_by add_elements text_lt
sorted_set xs = sort_by text_lt (add_elements [] xs)
