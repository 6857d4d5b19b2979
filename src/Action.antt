-- ===== src/Action.antt =====
-- Methods that change an object and may raise. What was written before a raise stays written, so
-- the state comes back beside the error too.
pub mod Rules
pub mod Given
use nexus_mcp.Base.{Bool, true, false}
use nexus_mcp.Errors.{Exc}
use nexus_mcp.Result.{Result, ok, err}

abbrev pub Action : Type 0 → Type 0 → Type 0
Action S A = S → Result A × S

module _ {S A : Type 0} where
  abbrev pub pure : A → Action S A
  pure a s = (ok a, s)

  abbrev pub raise : Exc → Action S A
  raise e s = (err e, s)

  abbrev pub lift : Result A → Action S A
  lift r s = (r, s)

module _ {S A B : Type 0} where
  abbrev pub continue : Result A → (A → Action S B) → Action S B
  continue (ok a) f s = f a s
  continue (err e) f s = (err e, s)

  infixl 5 ◌>>=◌ ◌>>◌
  unfoldable pub ◌>>=◌ : Action S A → (A → Action S B) → Action S B
  ◌>>=◌ m f s = let (r, s') = m s in continue r f s'

  abbrev pub ◌>>◌ : Action S A → Action S B → Action S B
  m >> n = m >>= λ _. n

module _ {S : Type 0} where
  -- `if condition: raise e`
  abbrev pub raise_if : Bool → Exc → Action S (Unit {0})
  raise_if true e = raise e
  raise_if false e = pure tt

module _ {S A B : Type 0} where
  abbrev pub resume : Result A → (Exc → Action S B) → (A → Action S B) → Action S B
  resume (ok a) handler rest s = rest a s
  resume (err e) handler rest s = handler e s

  -- `try: m`, `except`: the handler, on every exception, and `else`: the rest.
  unfoldable pub try_else : Action S A → (Exc → Action S B) → (A → Action S B) → Action S B
  try_else m handler rest s = let (r, s') = m s in resume r handler rest s'
