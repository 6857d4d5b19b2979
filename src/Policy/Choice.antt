-- ===== src/Policy/Choice.antt =====
-- Which policy decides, of src/nexusmcp/modules/policy/adapters/rule_based.py.
use nexus_mcp.Base.{
  ℕ, List, ◌≡◌, ◌⊎◌, ◌≤◌, arith, some, Bool, false, refl, sym, ◌∙◌, true, subst, Option, none, ◌<◌,
  inl, inr, ap,
}
use nexus_mcp.Policy.{
  ToolPolicy, PolicyEvaluationInput, specificity, candidates, max_score, with_score, precedence,
  selected, finalists, first_of, evaluate, default_deny, PolicyEffect, decision_of,
}
use nexus_mcp.Base.Int.{ℤ, leb_ℤ}
use nexus_mcp.Policy.Ranking.{
  In, Scored, candidates_sound, candidates_complete, with_score_sound, with_score_complete,
  max_score_bound, max_score_found, finalists_sound, finalists_priority, finalists_found,
  first_of_found, first_of_strict, first_of-none,
}

-- The rank of a candidate with the first score is not below that of one with the second.
pub data Outranks : ℕ → ToolPolicy → ℕ → ToolPolicy → Type 0 where
  by_score : {s t : ℕ} {p q : ToolPolicy} → t < s → Outranks s p t q
  by_priority :
      {s : ℕ} {p q : ToolPolicy}
      → leb_ℤ p.priority q.priority ≡ false
      → leb_ℤ q.priority p.priority ≡ true
      → Outranks s p s q
  by_effect :
      {s : ℕ} {p q : ToolPolicy}
      → q.priority ≡ p.priority
      → precedence q.effect ≤ precedence p.effect
      → Outranks s p s q

-- The candidates with the greatest score.
abbrev top : List ToolPolicy → PolicyEvaluationInput → List ToolPolicy
top ps i = with_score (max_score (candidates ps i)) (candidates ps i)

below_or_equal : (t m : ℕ) → t ≤ m → (t < m) ⊎ (t ≡ m)
below_or_equal t m h = ground arith

same_priority : (a b : ℤ) → leb_ℤ a b ≡ true → leb_ℤ b a ≡ true → a ≡ b
same_priority a b h k = ground arith

Outranks-equal :
    (l : List ToolPolicy) (p q : ToolPolicy) (s : ℕ)
    → first_of (finalists l) ≡ some p
    → In q l
    → Outranks s p s q
Outranks-equal l p q s h k =
    let (less, same) = finalists_priority l p q (first_of_found (finalists l) p h) k in
    decide less same (leb_ℤ p.priority q.priority) refl
  where
    decide :
        leb_ℤ q.priority p.priority ≡ true
        → (q.priority ≡ p.priority → In q (finalists l))
        → (b : Bool) → leb_ℤ p.priority q.priority ≡ b
        → Outranks s p s q
    decide less same false e = Outranks.by_priority e less
    decide less same true e =
        let equal = same_priority q.priority p.priority less e in
        Outranks.by_effect equal (first_of_strict (finalists l) p q h (same equal))

-- The selected policy is one of those given, and applies to the call with some specificity.
pub selected_applies :
    (ps : List ToolPolicy) (i : PolicyEvaluationInput) (p : ToolPolicy)
    → selected ps i ≡ some p
    → (s : ℕ) × In p ps × (specificity p i ≡ some s)
unfolding selected
selected_applies ps i p h =
    let found = candidates ps i in
    let m = max_score found in
    let finalist = first_of_found (finalists (top ps i)) p h in
    let scored = with_score_sound m found p (finalists_sound (top ps i) p finalist) in
    let (listed, score) = candidates_sound ps i m p scored in (m, listed, score)

-- No given policy that applies to the call outranks the selected one: the selected policy is more
-- specific, or as specific with a greater priority, or equal in both with an effect at least as
-- strict (deny over require_approval over allow).
pub selected-Outranks :
    (ps : List ToolPolicy) (i : PolicyEvaluationInput) (p q : ToolPolicy) (t : ℕ)
    → selected ps i ≡ some p
    → In q ps
    → specificity q i ≡ some t
    → (s : ℕ) × (specificity p i ≡ some s) × Outranks s p t q
unfolding selected
selected-Outranks ps i p q t h k e =
    let found = candidates ps i in
    let m = max_score found in
    let finalist = first_of_found (finalists (top ps i)) p h in
    let scored = with_score_sound m found p (finalists_sound (top ps i) p finalist) in
    let (listed, score) = candidates_sound ps i m p scored in
    let complete = candidates_complete ps i t q k e in
    (
      m,
      score,
      elim (below_or_equal t m (max_score_bound found t q complete)) [
        | inl less ↦ Outranks.by_score less
        | inr same ↦
            subst (λ n. Outranks m p n q) (sym same)
              (Outranks-equal (top ps i) p q m h
                (with_score_complete m found q (subst (λ n. Scored n q found) same complete)))
      ],
    )

selected-some :
    (ps : List ToolPolicy) (i : PolicyEvaluationInput) (q : ToolPolicy) (t : ℕ)
    → selected ps i ≡ none
    → In q ps
    → specificity q i ≡ some t
    → ⊥
unfolding selected
selected-some ps i q t h k e =
    let found = candidates ps i in
    let (r, best) = max_score_found found t q (candidates_complete ps i t q k e) in
    let (f, finalist) =
      finalists_found (top ps i) r (with_score_complete (max_score found) found r best) in
    first_of-none (finalists (top ps i)) f h finalist

no_score : (o : Option ℕ) → ((t : ℕ) → o ≡ some t → ⊥) → o ≡ none
no_score none h = refl
no_score (some t) h = absurd (h t refl)

-- Where no policy is selected, none of those given applies to the call.
pub selected-none :
    (ps : List ToolPolicy) (i : PolicyEvaluationInput) (q : ToolPolicy)
    → selected ps i ≡ none
    → In q ps
    → specificity q i ≡ none
unfolding selected
selected-none ps i q h k = no_score (specificity q i) λ t e. selected-some ps i q t h k e

clash : (s : ℕ) → none ≡ some s → ⊥
clash s h = ground arith

-- Where no given policy applies to the call, the decision is the default: deny.
pub evaluate-none :
    (ps : List ToolPolicy) (i : PolicyEvaluationInput)
    → ((q : ToolPolicy) → In q ps → specificity q i ≡ none)
    → evaluate ps i ≡ default_deny
unfolding evaluate
evaluate-none ps i h =
    elim (selected ps i) as (λ o. selected ps i ≡ o → decision_of o ≡ default_deny) [
      | none ↦ λ e. refl
      | some p ↦ λ e.
          let (s, listed, score) = selected_applies ps i p e in
          absurd (clash s (sym (h p listed) ∙ score))
    ]
      refl

same_score : (s t : ℕ) → some s ≡ some t → s ≡ t
same_score s t h = ground arith

Outranks-deny :
    (s t : ℕ) (p q : ToolPolicy)
    → Outranks s p t q
    → s ≡ t
    → q.effect ≡ PolicyEffect.deny
    → q.priority ≡ p.priority
    → p.effect ≡ PolicyEffect.deny
Outranks-deny s t p q (Outranks.by_score less) e d same = ground arith
Outranks-deny s t p q (Outranks.by_priority above below) e d same = ground arith
Outranks-deny s t p q (Outranks.by_effect equal strict) e d same = ground arith

-- Where a given policy that denies applies to the call with the specificity and the priority of the
-- selected policy, the decision is to deny.
pub evaluate_deny :
    (ps : List ToolPolicy) (i : PolicyEvaluationInput) (p q : ToolPolicy) (t : ℕ)
    → selected ps i ≡ some p
    → In q ps
    → q.effect ≡ PolicyEffect.deny
    → specificity q i ≡ some t
    → specificity p i ≡ some t
    → q.priority ≡ p.priority
    → (evaluate ps i).effect ≡ PolicyEffect.deny
unfolding evaluate
evaluate_deny ps i p q t h k d e f same =
    let (s, score, rank) = selected-Outranks ps i p q t h k e in
    let denies = Outranks-deny s t p q rank (same_score s t (sym score ∙ f)) d same in
    ap (λ o. (decision_of o).effect) h ∙ denies
