-- ===== src/Base/Order/Sorting.antt =====
-- The order on texts is total, and a sorted set is determined by its elements.
use Prim.Native.Nat.{ℕ, Ordering}
use Prim.Native.Nat.{compare}
use Prim.Native.String.{String}
use text.Mathlib.TextEquality.{codes_equal}
use nexus_mcp.Base.Order.{text_lt}
use mathlib.Core.Path.{◌≡◌, refl}
use mathlib.Core.Bool.{true, false}
use native.Mathlib.Omega.{arith}

pub text_lt_irrefl : (s : String) → text_lt s s ≡ false
unfolding text_lt
text_lt_irrefl String.[] = refl
text_lt_irrefl (String.◌∷◌ c s) = ground (arith, text_lt_irrefl s)

pub text_lt_trans : (s t u : String) → text_lt s t ≡ true → text_lt t u ≡ true → text_lt s u ≡ true
unfolding text_lt
text_lt_trans String.[] String.[] u h k = ground arith
text_lt_trans String.[] (String.◌∷◌ d t) String.[] h k = ground arith
text_lt_trans String.[] (String.◌∷◌ d t) (String.◌∷◌ e u) h k = refl
text_lt_trans (String.◌∷◌ c s) String.[] u h k = ground arith
text_lt_trans (String.◌∷◌ c s) (String.◌∷◌ d t) String.[] h k = ground arith
text_lt_trans (String.◌∷◌ c s) (String.◌∷◌ d t) (String.◌∷◌ e u) h k =
    ground (arith, text_lt_trans s t u)

compare-eq : (m n : ℕ) → compare m n ≡ Ordering.eq → m ≡ n
compare-eq m n h = ground arith

pub text_lt_antisym : (s t : String) → text_lt s t ≡ false → text_lt t s ≡ false → s ≡ t
unfolding text_lt
text_lt_antisym String.[] String.[] h k = refl
text_lt_antisym String.[] (String.◌∷◌ d t) h k = ground arith
text_lt_antisym (String.◌∷◌ c s) String.[] h k = ground arith
text_lt_antisym (String.◌∷◌ c s) (String.◌∷◌ d t) h k =
    ground (arith, text_lt_antisym s t, codes_equal c d)
