-- ===== src/Policy/Ranking.antt =====
-- Lemmas on the lists and maxima of src/nexusmcp/modules/policy/adapters/rule_based.py.
use nexus_mcp.Base.{
  ℕ, List, [], ◌∷◌, ◌≡◌, ◌⊎◌, ◌≤◌, arith, some, Bool, false, refl, sym, ◌∙◌, ltb, true,
  if◌then◌else◌, subst, none, ◌<◌, inl, inr,
}
use nexus_mcp.Policy.{
  ToolPolicy, PolicyEvaluationInput, specificity, candidates, max_score, with_score, with_priority,
  select, max_priority, key_gt, precedence, finalists, first_of,
}
use nexus_mcp.Base.Int.{ℤ, leb_ℤ}

zero_or_positive : (n : ℕ) → (n ≡ 0) ⊎ (0 < n)
zero_or_positive n = ground arith

-- The policy is in the list.
abbrev pub In : ToolPolicy → List ToolPolicy → Type 0
In p [] = ⊥
In p (q ∷ qs) = (p ≡ q) ⊎ In p qs

-- The policy stands in the list with the score.
abbrev pub Scored : ℕ → ToolPolicy → List (ℕ × ToolPolicy) → Type 0
Scored s p [] = ⊥
Scored s p ((t, q) ∷ rest) = ((s ≡ t) × (p ≡ q)) ⊎ Scored s p rest

pub candidates_sound :
    (ps : List ToolPolicy) (i : PolicyEvaluationInput) (s : ℕ) (p : ToolPolicy)
    → Scored s p (candidates ps i)
    → In p ps × (specificity p i ≡ some s)
unfolding candidates
candidates_sound [] i s p m = absurd m
candidates_sound (q ∷ ps) i s p m = ground (arith, candidates_sound ps i s p)

pub candidates_complete :
    (ps : List ToolPolicy) (i : PolicyEvaluationInput) (s : ℕ) (p : ToolPolicy)
    → In p ps
    → specificity p i ≡ some s
    → Scored s p (candidates ps i)
unfolding candidates
candidates_complete [] i s p m h = absurd m
candidates_complete (q ∷ ps) i s p m h = ground (arith, candidates_complete ps i s p)

pub with_score_sound :
    (m : ℕ) (l : List (ℕ × ToolPolicy)) (p : ToolPolicy) → In p (with_score m l) → Scored m p l
unfolding with_score
with_score_sound m [] p h = absurd h
with_score_sound m ((s, q) ∷ l) p h = ground (arith, with_score_sound m l p)

pub with_score_complete :
    (m : ℕ) (l : List (ℕ × ToolPolicy)) (p : ToolPolicy) → Scored m p l → In p (with_score m l)
unfolding with_score
with_score_complete m [] p h = absurd h
with_score_complete m ((s, q) ∷ l) p h = ground (arith, with_score_complete m l p)

pub max_score_bound :
    (l : List (ℕ × ToolPolicy)) (s : ℕ) (p : ToolPolicy) → Scored s p l → s ≤ max_score l
unfolding max_score
max_score_bound [] s p h = absurd h
max_score_bound ((t, q) ∷ l) s p h = ground (arith, max_score_bound l s p)

max_score_positive :
    (l : List (ℕ × ToolPolicy)) → 0 < max_score l → (q : ToolPolicy) × Scored (max_score l) q l
unfolding max_score
max_score_positive [] h = ground arith
max_score_positive ((t, q) ∷ l) h = pick (max_score_positive l) (ltb t (max_score l)) h
  where
    -- As `max_score` picks.
    picked : Bool → ℕ
    picked b = if b then max_score l else t

    pick :
        (0 < max_score l → (r : ToolPolicy) × Scored (max_score l) r l)
        → (b : Bool) → 0 < picked b
        → (r : ToolPolicy) × Scored (picked b) r ((t, q) ∷ l)
    pick below true p = let (r, x) = below p in (r, inr x)
    pick below false p = (q, inl (refl, refl))

pub max_score_found :
    (l : List (ℕ × ToolPolicy)) (s : ℕ) (p : ToolPolicy)
    → Scored s p l
    → (q : ToolPolicy) × Scored (max_score l) q l
max_score_found l s p h = elim (zero_or_positive (max_score l)) [
  | inl z ↦ (p, subst (λ k. Scored k p l) (same (max_score_bound l s p h) z) h)
  | inr pos ↦ max_score_positive l pos
]
  where
    same : s ≤ max_score l → max_score l ≡ 0 → s ≡ max_score l
    same a b = omega arith

with_priority_sound :
    (m : ℤ) (l : List ToolPolicy) (p : ToolPolicy)
    → In p (with_priority m l)
    → In p l × (p.priority ≡ m)
unfolding with_priority
with_priority_sound m [] p h = absurd h
with_priority_sound m (q ∷ l) p h = ground (arith, with_priority_sound m l p)

with_priority_complete :
    (m : ℤ) (l : List ToolPolicy) (p : ToolPolicy)
    → In p l
    → p.priority ≡ m
    → In p (with_priority m l)
unfolding with_priority
with_priority_complete m [] p h e = absurd h
with_priority_complete m (q ∷ l) p h e = ground (arith, with_priority_complete m l p)

leb_ℤ_trans : (a b c : ℤ) → leb_ℤ a b ≡ true → leb_ℤ b c ≡ true → leb_ℤ a c ≡ true
leb_ℤ_trans a b c h k = ground arith

-- One step of `max_priority`.
abbrev larger : ℤ → ToolPolicy → ℤ
larger m q = if leb_ℤ q.priority m then m else q.priority

max_of_priorities :
    (m : ℤ) (q : ToolPolicy)
    → (leb_ℤ m (larger m q) ≡ true) × (leb_ℤ q.priority (larger m q) ≡ true)
max_of_priorities m q = ground arith

max_priority_least : (m : ℤ) (l : List ToolPolicy) → leb_ℤ m (max_priority m l) ≡ true
unfolding max_priority
max_priority_least m [] = ground arith
max_priority_least m (q ∷ l) =
    let b = max_of_priorities m q in
    leb_ℤ_trans m (larger m q) (max_priority (larger m q) l) b.0 (max_priority_least (larger m q) l)

max_priority_bound :
    (m : ℤ) (l : List ToolPolicy) (p : ToolPolicy)
    → In p l
    → leb_ℤ p.priority (max_priority m l) ≡ true
unfolding max_priority
max_priority_bound m [] p h = absurd h
max_priority_bound m (q ∷ l) p (inl e) =
    let b = max_of_priorities m q in
    leb_ℤ_trans p.priority (larger m q) (max_priority (larger m q) l) (rw e b.1)
      (max_priority_least (larger m q) l)
max_priority_bound m (q ∷ l) p (inr h) = max_priority_bound (larger m q) l p h

-- The greatest priority is the first or that of a listed policy.
abbrev Found : ℤ → List ToolPolicy → Type 0
Found m l = (max_priority m l ≡ m) ⊎ ((q : ToolPolicy) × In q l × (q.priority ≡ max_priority m l))

max_priority-Found : (m : ℤ) (l : List ToolPolicy) → Found m l
unfolding max_priority
max_priority-Found m [] = ground arith
max_priority-Found m (q ∷ l) =
    pick (max_priority-Found m l) (max_priority-Found q.priority l) (leb_ℤ q.priority m)
  where
    picked : Bool → ℤ
    picked b = max_priority (if b then m else q.priority) l

    pick :
        Found m l
        → Found q.priority l
        → (b : Bool) → (picked b ≡ m) ⊎ ((p : ToolPolicy) × In p (q ∷ l) × (p.priority ≡ picked b))
    pick kept new true = elim kept [ inl e ↦ inl e | inr (p, h, e) ↦ inr (p, inr h, e) ]
    pick kept new false = elim new [
      | inl e ↦ inr (q, inl refl, sym e)
      | inr (p, h, e) ↦ inr (p, inr h, e)
    ]

select_found : (best : ToolPolicy) (l : List ToolPolicy) → In (select best l) (best ∷ l)
unfolding select
select_found best [] = ground arith
select_found best (p ∷ l) = ground (arith, select_found best l, select_found p l)

select_strict :
    (best : ToolPolicy) (l : List ToolPolicy) (q : ToolPolicy)
    → In q (best ∷ l)
    → precedence q.effect ≤ precedence (select best l).effect
unfolding select key_gt
select_strict best [] q h = ground arith
select_strict best (p ∷ l) q h = ground (
  arith,
  select_strict best l best,
  select_strict p l p,
  select_strict best l q,
  select_strict p l q,
)

priority_bound :
    (r : ToolPolicy) (l : List ToolPolicy) (q : ToolPolicy)
    → In q (r ∷ l)
    → leb_ℤ q.priority (max_priority r.priority l) ≡ true
priority_bound r l q (inl e) = rw e (max_priority_least r.priority l)
priority_bound r l q (inr h) = max_priority_bound r.priority l q h

pub finalists_sound : (l : List ToolPolicy) (p : ToolPolicy) → In p (finalists l) → In p l
unfolding finalists
finalists_sound [] p h = absurd h
finalists_sound (q ∷ l) p h = (with_priority_sound (max_priority q.priority l) (q ∷ l) p h).0

-- The finalists have one priority, which none exceeds.
pub finalists_priority :
    (l : List ToolPolicy) (p q : ToolPolicy)
    → In p (finalists l)
    → In q l
    → (leb_ℤ q.priority p.priority ≡ true) × (q.priority ≡ p.priority → In q (finalists l))
unfolding finalists
finalists_priority [] p q h k = absurd k
finalists_priority (r ∷ l) p q h k =
    let m = max_priority r.priority l in
    let (listed, e) = with_priority_sound m (r ∷ l) p h in
    (
      subst (λ n. leb_ℤ q.priority n ≡ true) (sym e) (priority_bound r l q k),
      λ same. with_priority_complete m (r ∷ l) q k (same ∙ e),
    )

pub finalists_found :
    (l : List ToolPolicy) (p : ToolPolicy) → In p l → (q : ToolPolicy) × In q (finalists l)
unfolding finalists
finalists_found [] p h = absurd h
finalists_found (r ∷ l) p h =
    let m = max_priority r.priority l in
    elim (max_priority-Found r.priority l) [
      | inl e ↦ (r, with_priority_complete m (r ∷ l) r (inl refl) (sym e))
      | inr (q, k, e) ↦ (q, with_priority_complete m (r ∷ l) q (inr k) e)
    ]

pub first_of_found : (l : List ToolPolicy) (p : ToolPolicy) → first_of l ≡ some p → In p l
unfolding first_of
first_of_found [] p h = ground arith
first_of_found (q ∷ l) p h = ground (arith, select_found q l)

pub first_of_strict :
    (l : List ToolPolicy) (p q : ToolPolicy)
    → first_of l ≡ some p
    → In q l
    → precedence q.effect ≤ precedence p.effect
unfolding first_of
first_of_strict [] p q h k = absurd k
first_of_strict (r ∷ l) p q h k = ground (arith, select_strict r l q)

pub first_of-none : (l : List ToolPolicy) (q : ToolPolicy) → first_of l ≡ none → ¬ In q l
unfolding first_of
first_of-none [] q h k = k
first_of-none (r ∷ l) q h k = ground arith
