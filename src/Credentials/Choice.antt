-- ===== src/Credentials/Choice.antt =====
-- Which credential a call is given, of src/nexusmcp/modules/credentials/adapters/in_memory.py.
use nexus_mcp.Base.{ℕ, List, [], ◌∷◌, ◌≡◌, ◌⊎◌, inl, inr, Option, some, ◌≤◌, arith, ◌<◌, subst}
use nexus_mcp.Result.{ok}
use nexus_mcp.Credentials.{
  CredentialBinding, CredentialBindingStatus, Wanted, specificity, candidates, max_score,
  with_score, only_one, resolve,
}

-- The binding is in the list.
abbrev pub In : CredentialBinding → List CredentialBinding → Type 0
In b [] = ⊥
In b (c ∷ cs) = (b ≡ c) ⊎ In b cs

-- The binding stands in the list with the score.
abbrev Scored : ℕ → CredentialBinding → List (ℕ × CredentialBinding) → Type 0
Scored s b [] = ⊥
Scored s b ((t, c) ∷ rest) = ((s ≡ t) × (b ≡ c)) ⊎ Scored s b rest

candidates_sound :
    (bs : List CredentialBinding) (w : Wanted) (s : ℕ) (b : CredentialBinding)
    → Scored s b (candidates bs w)
    → In b bs × (specificity b w ≡ some s)
unfolding candidates
candidates_sound [] w s b m = absurd m
candidates_sound (c ∷ bs) w s b m = ground (arith, candidates_sound bs w s b)

candidates_complete :
    (bs : List CredentialBinding) (w : Wanted) (s : ℕ) (b : CredentialBinding)
    → In b bs
    → specificity b w ≡ some s
    → Scored s b (candidates bs w)
unfolding candidates
candidates_complete [] w s b m h = absurd m
candidates_complete (c ∷ bs) w s b m h = ground (arith, candidates_complete bs w s b)

with_score_sound :
    (m : ℕ) (l : List (ℕ × CredentialBinding)) (b : CredentialBinding)
    → In b (with_score m l)
    → Scored m b l
unfolding with_score
with_score_sound m [] b h = absurd h
with_score_sound m ((s, c) ∷ l) b h = ground (arith, with_score_sound m l b)

with_score_complete :
    (m : ℕ) (l : List (ℕ × CredentialBinding)) (b : CredentialBinding)
    → Scored m b l
    → In b (with_score m l)
unfolding with_score
with_score_complete m [] b h = absurd h
with_score_complete m ((s, c) ∷ l) b h = ground (arith, with_score_complete m l b)

max_score_bound :
    (l : List (ℕ × CredentialBinding)) (s : ℕ) (b : CredentialBinding)
    → Scored s b l
    → s ≤ max_score l
unfolding max_score
max_score_bound [] s b h = absurd h
max_score_bound ((t, c) ∷ l) s b h = ground (arith, max_score_bound l s b)

only_one_found :
    (l : List CredentialBinding) (b c : CredentialBinding)
    → only_one l ≡ ok (some b)
    → In b l × (In c l → c ≡ b)
unfolding only_one
only_one_found [] b c h = ground arith
only_one_found (d ∷ []) b c h = ground arith
only_one_found (d ∷ e ∷ l) b c h = ground arith

-- The binding's tenant and upstream service are those of the call, and it is active.
pub record IsFor (b : CredentialBinding) (w : Wanted) : Type 0 where
  pub same_tenant : b.tenant_id ≡ w.tenant_id
  pub own_tenant : w.principal.tenant_id ≡ w.tenant_id
  pub same_upstream : b.upstream_service_id ≡ w.upstream_service_id
  pub is_active : b.status ≡ CredentialBindingStatus.active

specificity-IsFor :
    (b : CredentialBinding) (w : Wanted) (s : ℕ)
    → specificity b w ≡ some s
    → w.principal.tenant_id ≡ w.tenant_id
    → IsFor b w
unfolding specificity
specificity-IsFor b w s h e = ground arith

resolve_found :
    (bs : List CredentialBinding) (w : Wanted) (o : Option CredentialBinding)
    → resolve bs w ≡ ok o
    → (w.principal.tenant_id ≡ w.tenant_id)
      × (only_one (with_score (max_score (candidates bs w)) (candidates bs w)) ≡ ok o)
unfolding resolve
resolve_found bs w o h = ground arith

-- A credential binding that is resolved is one of those given, is active, and belongs to the tenant
-- of the call, which is the principal's own, and to the upstream service that is called.
pub resolve-IsFor :
    (bs : List CredentialBinding) (w : Wanted) (b : CredentialBinding)
    → resolve bs w ≡ ok (some b)
    → In b bs × IsFor b w
resolve-IsFor bs w b h =
    let (own, one) = resolve_found bs w (some b) h in
    let found = candidates bs w in
    let m = max_score found in
    let scored = with_score_sound m found b (only_one_found (with_score m found) b b one).0 in
    let (listed, score) = candidates_sound bs w m b scored in
    (listed, specificity-IsFor b w m score own)

-- A given binding that applies to the call is strictly less specific than the resolved one, or equal
-- to it: two equally specific ones are never decided by their order.
pub resolve_most :
    (bs : List CredentialBinding) (w : Wanted) (b c : CredentialBinding) (t : ℕ)
    → resolve bs w ≡ ok (some b)
    → In c bs
    → specificity c w ≡ some t
    → (s : ℕ) × (specificity b w ≡ some s) × ((t < s) ⊎ (c ≡ b))
resolve_most bs w b c t h k e =
    let (own, one) = resolve_found bs w (some b) h in
    let found = candidates bs w in
    let m = max_score found in
    let (last, unique) = only_one_found (with_score m found) b c one in
    let (listed, score) = candidates_sound bs w m b (with_score_sound m found b last) in
    let complete = candidates_complete bs w t c k e in
    (
      m,
      score,
      elim (below_or_equal t m (max_score_bound found t c complete)) [
        | inl less ↦ inl less
        | inr same ↦
            inr
              (unique (with_score_complete m found c (subst (λ n. Scored n c found) same complete)))
      ],
    )
  where
    below_or_equal : (t m : ℕ) → t ≤ m → (t < m) ⊎ (t ≡ m)
    below_or_equal t m h = ground arith
