-- ===== src/Action/Rules.antt =====
-- What holds of actions, one rule for each way to build an action.
use nexus_mcp.Base.{Bool, true, false, ◌≡◌, refl, sym, subst, if◌then◌else◌}
use nexus_mcp.Errors.{Exc}
use nexus_mcp.Result.{Result, ok, err}
use nexus_mcp.Action.{Action, raise_if, pure, raise, lift, ◌>>=◌, try_else, continue, resume}

-- What a call has established: `Q` of the value and the state where it returned, `E` of the
-- exception and the state where it raised.
abbrev pub Post : {S A : Type 0} → (A → S → Type 0) → (Exc → S → Type 0) → Result A × S → Type 0
Post Q E (ok a, s) = Q a s
Post Q E (err e, s) = E e s

module _ {S A B : Type 0} (R : A → S → Type 0) (Q : B → S → Type 0) (E : Exc → S → Type 0) where
  continue-Post :
      (r : Result A) (s : S) (f : A → Action S B)
      → Post R E (r, s)
      → ((a : A) (t : S) → R a t → Post Q E (f a t))
      → Post Q E (continue r f s)
  continue-Post (ok a) s f h k = k a s h
  continue-Post (err e) s f h k = h

  -- The rule of a `do` block's step.
  pub bind-Post :
      (m : Action S A) (f : A → Action S B) (s : S)
      → Post R E (m s)
      → ((a : A) (t : S) → R a t → Post Q E (f a t))
      → Post Q E ((m >>= f) s)
  unfolding ◌>>=◌
  bind-Post m f s h k = let (r, s') = m s in continue-Post r s' f h k

module _ {S A : Type 0} where
  pub weaken-Post :
      (Q Q' : A → S → Type 0) (E E' : Exc → S → Type 0) (o : Result A × S)
      → Post Q E o
      → ((a : A) (t : S) → Q a t → Q' a t)
      → ((e : Exc) (t : S) → E e t → E' e t)
      → Post Q' E' o
  weaken-Post Q Q' E E' (ok a, s) h q x = q a s h
  weaken-Post Q Q' E E' (err e, s) h q x = x e s h

-- The predicate survives the action on both of its ways out.
pub record Keeps {S A : Type 0} (P : S → Type 0) (m : Action S A) : Type 0 where
  pub kept : (before : S) → P before → P (m before).1

module _ {S A B : Type 0} {P : S → Type 0} where
  continue-Keeps :
      (r : Result A) (f : A → Action S B) (s : S)
      → ((a : A) → r ≡ ok a → Keeps P (f a))
      → P s
      → P (continue r f s).1
  continue-Keeps (ok a) f s k h = (k a refl).kept s h
  continue-Keeps (err e) f s k h = h

  pub Keeps-bind :
      (m : Action S A) (f : A → Action S B)
      → Keeps P m
      → ((a : A) → Keeps P (f a))
      → Keeps P (m >>= f)
  unfolding ◌>>=◌
  Keeps-bind m f km kf = record {
    kept = λ s h. let (r, s') = m s in continue-Keeps r f s' (λ a _. kf a) (km.kept s h);
  }

  resume-Keeps :
      (r : Result A) (handler : Exc → Action S B) (rest : A → Action S B) (s : S)
      → ((e : Exc) → Keeps P (handler e))
      → ((a : A) → Keeps P (rest a))
      → P s
      → P (resume r handler rest s).1
  resume-Keeps (ok a) handler rest s kh kr h = (kr a).kept s h
  resume-Keeps (err e) handler rest s kh kr h = (kh e).kept s h

  pub Keeps-try_else :
      (m : Action S A) (handler : Exc → Action S B) (rest : A → Action S B)
      → Keeps P m
      → ((e : Exc) → Keeps P (handler e))
      → ((a : A) → Keeps P (rest a))
      → Keeps P (try_else m handler rest)
  unfolding try_else
  Keeps-try_else m handler rest km kh kr = record {
    kept = λ s h. let (r, s') = m s in resume-Keeps r handler rest s' kh kr (km.kept s h);
  }

module _ {S A : Type 0} {P : S → Type 0} where
  -- An action that leaves the state alone.
  still : (m : Action S A) → ((before : S) → (m before).1 ≡ before) → Keeps P m
  still m same = record { kept = λ before h. subst P (sym (same before)) h }

  pub Keeps-lift : (r : Result A) → Keeps P (lift r)
  Keeps-lift r = still (lift r) λ before. refl

  pub Keeps-raise : (e : Exc) → Keeps P (raise {A = A} e)
  Keeps-raise e = still (raise e) λ before. refl

  pub Keeps-pure : (a : A) → Keeps P (pure a)
  Keeps-pure a = still (pure a) λ before. refl

  pub Keeps-if :
      (test : Bool) (then_branch else_branch : Action S A)
      → Keeps P then_branch
      → Keeps P else_branch
      → Keeps P (if test then then_branch else else_branch)
  Keeps-if true then_branch else_branch t e = t
  Keeps-if false then_branch else_branch t e = e

pub Keeps-raise_if : {S : Type 0} {P : S → Type 0} (b : Bool) (e : Exc) → Keeps P (raise_if b e)
Keeps-raise_if true e = Keeps-raise e
Keeps-raise_if false e = Keeps-pure tt

module _ {S A B : Type 0} {P : S → Type 0} where
  -- A pure step that may raise: the rest may use that it did not.
  pub Keeps-bind-lift :
      (r : Result A) (f : A → Action S B)
      → ((a : A) → r ≡ ok a → Keeps P (f a))
      → Keeps P (lift r >>= f)
  unfolding ◌>>=◌
  Keeps-bind-lift r f k = record { kept = λ before. continue-Keeps r f before k }

pub ruleset keeps_rules =
    (Keeps-bind, Keeps-try_else, Keeps-if, Keeps-lift, Keeps-raise, Keeps-pure)

module _ {S A : Type 0} (Q : A → S → Type 0) (E : Exc → S → Type 0) where
  pub if-Post :
      (b : Bool) (m n : Action S A) (s : S)
      → (b ≡ true → Post Q E (m s))
      → (b ≡ false → Post Q E (n s))
      → Post Q E ((if b then m else n) s)
  if-Post true m n s h k = h refl
  if-Post false m n s h k = k refl

module _ {S A B : Type 0} (Q : B → S → Type 0) (E : Exc → S → Type 0) where
  -- A pure step that may raise: the rest may use that it did not.
  pub lift-Post :
      (r : Result A) (f : A → Action S B) (s : S)
      → ((a : A) → r ≡ ok a → Post Q E (f a s))
      → ((e : Exc) → r ≡ err e → E e s)
      → Post Q E ((lift r >>= f) s)
  unfolding ◌>>=◌
  lift-Post (ok a) f s h k = h a refl
  lift-Post (err e) f s h k = k e refl

  resume-Post :
      (R : A → S → Type 0) (F : Exc → S → Type 0) (o : Result A × S) (handler : Exc → Action S B)
      (rest : A → Action S B)
      → Post R F o
      → ((e : Exc) (t : S) → F e t → Post Q E (handler e t))
      → ((a : A) (t : S) → R a t → Post Q E (rest a t))
      → Post Q E (let (r, s) = o in resume r handler rest s)
  resume-Post R F (ok a, s) handler rest h k l = l a s h
  resume-Post R F (err e, s) handler rest h k l = k e s h

  pub try_else-Post :
      (R : A → S → Type 0) (F : Exc → S → Type 0) (m : Action S A) (handler : Exc → Action S B)
      (rest : A → Action S B) (s : S)
      → Post R F (m s)
      → ((e : Exc) (t : S) → F e t → Post Q E (handler e t))
      → ((a : A) (t : S) → R a t → Post Q E (rest a t))
      → Post Q E (try_else m handler rest s)
  unfolding try_else
  try_else-Post R F m handler rest s h k l = resume-Post R F (m s) handler rest h k l

module _ {S A : Type 0} (P : S → Type 0) where
  pub both-Post : (o : Result A × S) → P o.1 → Post (λ _ t. P t) (λ _ t. P t) o
  both-Post (ok a, s) h = h
  both-Post (err e, s) h = h

  pub Post-both : (o : Result A × S) → Post (λ _ t. P t) (λ _ t. P t) o → P o.1
  Post-both (ok a, s) h = h
  Post-both (err e, s) h = h

  pub Keeps-Post : (m : Action S A) (s : S) → Keeps P m → P s → Post (λ _ t. P t) (λ _ t. P t) (m s)
  Keeps-Post m s k h = both-Post (m s) (k.kept s h)

  -- A call that ends in one state where it returns and in another where it raises.
  pub settle :
      (s t : S) (o : Result A × S) → Post (λ _ u. u ≡ t) (λ _ u. u ≡ s) o → P s → P t → P o.1
  settle s t (ok a, u) h p q = subst P (sym h) q
  settle s t (err e, u) h p q = subst P (sym h) p

module _ {S A B : Type 0} (P : S → Type 0) (Q : B → S → Type 0) (E : Exc → S → Type 0) where
  -- A step that keeps a predicate, which the rest may use and which covers its exceptions.
  pub keeping :
      (m : Action S A) (f : A → Action S B) (s : S)
      → Keeps P m
      → P s
      → ((e : Exc) (t : S) → P t → E e t)
      → ((a : A) (t : S) → P t → Post Q E (f a t))
      → Post Q E ((m >>= f) s)
  keeping m f s k v x h =
      bind-Post (λ _ t. P t) Q E m f s
        (weaken-Post (λ _ t. P t) (λ _ t. P t) (λ _ t. P t) E (m s) (both-Post P (m s) (k.kept s v))
          (λ _ _ p. p) x)
        h

-- Nothing is said of the end of a call.
pub anything : {S A : Type 0} (o : Result A × S) → Post (λ _ _. Unit {0}) (λ _ _. Unit {0}) o
anything (ok a, s) = tt
anything (err e, s) = tt
