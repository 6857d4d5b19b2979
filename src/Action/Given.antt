-- ===== src/Action/Given.antt =====
-- Predicates that survive a step whose value is known something of.
use nexus_mcp.Base.{Bool, true, false, ◌≡◌, refl, if◌then◌else◌}
use nexus_mcp.Errors.{Exc}
use nexus_mcp.Result.{Result, ok, err}
use nexus_mcp.Action.{Action, ◌>>=◌, pure, lift, raise, try_else}
use nexus_mcp.Action.Rules.{Keeps, Post, Post-both, both-Post, bind-Post}

-- The step keeps the predicate and returns values of which `V` holds.
pub record Gives {S A : Type 0} (P : S → Type 0) (V : A → Type 0) (m : Action S A) : Type 0 where
  pub given : (before : S) → P before → Post (λ a t. V a × P t) (λ e t. P t) (m before)

module _ {S A B : Type 0} {P : S → Type 0} (V : A → Type 0) where
  pub Keeps-bind-Gives :
      (m : Action S A) (f : A → Action S B)
      → Gives P V m
      → ((a : A) → V a → Keeps P (f a))
      → Keeps P (m >>= f)
  Keeps-bind-Gives m f g k = record {
    kept = λ s h. Post-both P ((m >>= f) s) (
        bind-Post (λ a t. V a × P t) (λ _ t. P t) (λ _ t. P t) m f s (g.given s h)
          λ a t p. both-Post P (f a t) ((k a p.0).kept t p.1));
  }

module _ {S A : Type 0} {P : S → Type 0} {V : A → Type 0} where
  pub Gives-pure : (a : A) → V a → Gives P V (pure a)
  Gives-pure a v = record { given = λ s h. (v, h) }

  pub Gives-lift : (r : Result A) → ((a : A) → r ≡ ok a → V a) → Gives P V (lift r)
  Gives-lift (ok a) v = record { given = λ s h. (v a refl, h) }
  Gives-lift (err e) v = record { given = λ s h. h }

  pub Gives-if :
      (b : Bool) (m n : Action S A) → Gives P V m → Gives P V n → Gives P V (if b then m else n)
  Gives-if true m n g h = g
  Gives-if false m n g h = h

  -- A result whose exception is translated.
  pub Gives-try_lift :
      (r : Result A) (translate : Exc → Exc)
      → ((a : A) → r ≡ ok a → V a)
      → Gives P V (try_else (lift r) (λ e. raise (translate e)) λ a. pure a)
  unfolding try_else
  Gives-try_lift (ok a) translate v = record { given = λ s h. (v a refl, h) }
  Gives-try_lift (err e) translate v = record { given = λ s h. h }

module _ {S A B : Type 0} {P : S → Type 0} {V : B → Type 0} where
  pub Gives-bind :
      (m : Action S A) (f : A → Action S B)
      → Keeps P m
      → ((a : A) → Gives P V (f a))
      → Gives P V (m >>= f)
  Gives-bind m f k g = record {
    given = λ s h.
        bind-Post (λ _ t. P t) (λ b t. V b × P t) (λ _ t. P t) m f s
          (both-Post P (m s) (k.kept s h)) λ a t p. (g a).given t p;
  }
