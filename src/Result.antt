-- ===== src/Result.antt =====
-- A pure function that may raise.
use nexus_mcp.Base.{Bool, true, false, String, ◌≡◌, refl, ◌⊎◌, inl, inr}
use nexus_mcp.Errors.{Exc, value_error}

pub data Result (A : Type 0) : Type 0 where
  ok : A → Result A
  err : Exc → Result A

infixl 5 ◌>>=◌ ◌>>◌
abbrev pub ◌>>=◌ : {A B : Type 0} → Result A → (A → Result B) → Result B
ok a >>= f = f a
err e >>= f = err e

abbrev pub ◌>>◌ : {B : Type 0} → Result (Unit {0}) → Result B → Result B
ok a >> k = k
err e >> k = err e

-- `if condition: raise ValueError(message)`
abbrev pub reject_if : Bool → String → Result (Unit {0})
reject_if true message = err (value_error message)
reject_if false message = ok tt

pub Result-cases : {A : Type 0} (r : Result A) → ((a : A) × (r ≡ ok a)) ⊎ ((e : Exc) × (r ≡ err e))
Result-cases (ok a) = inl (a, refl)
Result-cases (err e) = inr (e, refl)
