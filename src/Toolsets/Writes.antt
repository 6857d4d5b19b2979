-- ===== src/Toolsets/Writes.antt =====
-- What `add` and `save` of src/nexusmcp/modules/toolsets/adapters/in_memory.py keep of the
-- invariant, and how a stored tool set may change.
use mathlib.Core.Path.{fun_ext}
use nexus_mcp.Base.{
  ◌+◌, ◌<◌, String, Bool, true, ◌&&◌, none, some, ◌==◌, ◌≡◌, ◌⊎◌, refl, sym, ap, ◌∙◌, arith, inl,
  inr, Option-cases, Bool-cases, subst,
}
use nexus_mcp.Dict.{Dict, get, put, values, find, select, repeats}
use nexus_mcp.Dict.Laws.{get-put, get-put_cases}
use nexus_mcp.Result.{ok, Result-cases}
use nexus_mcp.Toolsets.{Toolset, Digests, is_all_published}
use nexus_mcp.Toolsets.Store.{same_slug, lookup_by_slug, lookup_all_published}
use nexus_mcp.Toolsets.Repository.{added, saved, requires_persistence_update, same_identity}
use nexus_mcp.Dict.Keyed.{put-Keyed}
use nexus_mcp.Toolsets.Uniqueness.{clash-put, clash-added}
use nexus_mcp.Toolsets.Invariant.{
  id_of, Inv, IsValid, always, published, same_tenant, select-always,
}

-- The same tool set, or the same identity at a greater revision.
abbrev pub Later : Toolset → Toolset → Type 0
Later t u =
    ((u ≡ t) ⊎ (t.revision < u.revision))
    × (u.tenant_id ≡ t.tenant_id)
    × (u.slug ≡ t.slug)
    × (u.kind ≡ t.kind)

later :
    {t u v : Toolset}
    → (u ≡ t) ⊎ (t.revision < u.revision)
    → (v ≡ u) ⊎ (u.revision < v.revision)
    → (v ≡ t) ⊎ (t.revision < v.revision)
later (inl e) (inl f) = inl (f ∙ e)
later (inl e) (inr m) = inr (ground arith)
later (inr l) (inl f) = inr (ground arith)
later (inr l) (inr m) = inr (ground arith)

pub Later-trans : (t u v : Toolset) → Later t u → Later u v → Later t v
Later-trans t u v h k = (later h.0 k.0, k.1 ∙ h.1, k.2 ∙ h.2, k.3 ∙ h.3)

-- What is stored in the one is stored in the other, or a later revision of it.
abbrev pub Grows : Dict Toolset → Dict Toolset → Type 0
Grows d e =
    (k : String) (t : Toolset) → get k d ≡ some t → (u : Toolset) × (get k e ≡ some u) × Later t u

pub Grows-refl : (d : Dict Toolset) → Grows d d
Grows-refl d k t e = (t, e, (inl refl, refl, refl, refl))

pub Grows-trans : (a b c : Dict Toolset) → Grows a b → Grows b c → Grows a c
Grows-trans a b c g h k t e =
    let (u, p, l) = g k t e in let (v, q, m) = h k u p in (v, q, Later-trans t u v l m)

pub no_selection :
    (d : Dict Toolset) → repeats same_slug (select always (values d)) ≡ repeats same_slug (values d)
no_selection d = ap (repeats same_slug) (select-always (values d))

and_comm : (a b : Bool) → (a && b) ≡ (b && a)
and_comm a b = ground arith

swapped :
    (tenant_id : String)
    → ◌≡◌ {A = Toolset → Bool}
        (λ x. is_all_published x.kind && x.tenant_id == tenant_id)
        (λ x. x.tenant_id == tenant_id && is_all_published x.kind)
swapped tenant_id = fun_ext λ x. and_comm (is_all_published x.kind) (x.tenant_id == tenant_id)

module _ (digests : Digests) (tenant_id : String) (t : Toolset) (d e : Dict Toolset)
    (v : Inv digests d) (valid : IsValid digests t) where
  -- What `add` has found out.
  added-fresh :
      added tenant_id t d ≡ ok e
      → (tenant_id ≡ t.tenant_id)
        × (get t.id d ≡ none)
        × (lookup_by_slug tenant_id t.slug d ≡ none)
        × (is_all_published t.kind ≡ true → lookup_all_published tenant_id d ≡ none)
        × (e ≡ put t.id t d)
  unfolding added
  added-fresh h = ground arith

  -- The stored tool set that `save` replaces.
  record IsBefore (c : Toolset) : Type 0 where
    stored : get t.id d ≡ some c
    next_revision : t.revision ≡ c.revision + 1
    tenant : t.tenant_id ≡ c.tenant_id
    slug : t.slug ≡ c.slug
    kind : t.kind ≡ c.kind

  required-same_identity :
      (c : Toolset)
      → requires_persistence_update c t ≡ ok true
      → (same_identity c t ≡ true) × (t.revision ≡ c.revision + 1)
  unfolding requires_persistence_update
  required-same_identity c h = ground arith

  same_identity-fields :
      (c : Toolset)
      → same_identity c t ≡ true
      → (t.tenant_id ≡ c.tenant_id) × (t.slug ≡ c.slug) × (t.kind ≡ c.kind)
  unfolding same_identity
  same_identity-fields c h = ground arith

  required-IsBefore :
      (c : Toolset) → get t.id d ≡ some c → requires_persistence_update c t ≡ ok true → IsBefore c
  required-IsBefore c p h =
      let (same, next) = required-same_identity c h in
      let (tenant, slug, kind) = same_identity-fields c same in
      record { stored = p; next_revision = next; tenant = tenant; slug = slug; kind = kind }

  -- What `save` has found out.
  saved-found :
      saved tenant_id t d ≡ ok e → (e ≡ d) ⊎ ((c : Toolset) × IsBefore c × (e ≡ put t.id t d))
  unfolding saved
  saved-found h = elim (Option-cases (get t.id d)) [
    | inl n ↦ ground arith
    | inr (c, p) ↦ elim (Result-cases (requires_persistence_update c t)) [
      | inl (needed, q) ↦ elim (Bool-cases needed) [
        | inl w ↦ inr (c, required-IsBefore c p (q ∙ ap ok w), ground arith)
        | inr w ↦ inl (ground arith)
      ]
      | inr (x, q) ↦ ground arith
    ]
  ]

  put-IsValid : (k : String) (u : Toolset) → get k (put t.id t d) ≡ some u → IsValid digests u
  put-IsValid k u p = elim (get-put_cases t.id k t u d p) [
    | inl (i, same) ↦ subst (IsValid digests) same valid
    | inr q ↦ v.valid k u q
  ]

  added-Inv : added tenant_id t d ≡ ok e → Inv digests e
  unfolding same_slug lookup_by_slug lookup_all_published
  added-Inv h =
      let (tenant, fresh, slug, system, result) = added-fresh h in
      rw result (record {
        keyed = put-Keyed id_of t d v.keyed;
        slugs =
            sym (no_selection (put t.id t d))
            ∙ clash-added same_slug always t t.id d fresh
                (λ _.
                  subst (λ i. find (λ x. x.tenant_id == i && x.slug == t.slug) (values d) ≡ none)
                    tenant slug)
                (no_selection d ∙ v.slugs);
        systems =
            clash-added same_tenant published t t.id d fresh
              (λ p. rw (swapped t.tenant_id) (
                subst
                  (λ i. find (λ x. x.tenant_id == i && is_all_published x.kind) (values d) ≡ none)
                  tenant (system p)))
              v.systems;
        valid = put-IsValid;
      })

  added-Grows : added tenant_id t d ≡ ok e → Grows d e
  added-Grows h k u p =
      let (tenant, fresh, slug, system, result) = added-fresh h in
      (u, rw result (ground (arith, get-put t.id k t d)), (inl refl, refl, refl, refl))

  before-Inv : (c : Toolset) → IsBefore c → Inv digests (put t.id t d)
  unfolding same_slug
  before-Inv c b = record {
    keyed = put-Keyed id_of t d v.keyed;
    slugs =
        sym (no_selection (put t.id t d))
        ∙ clash-put same_slug always c t refl (λ x. ground arith) (λ y. ground arith) t.id d
            b.stored
        ∙ no_selection d
        ∙ v.slugs;
    systems =
        clash-put same_tenant published c t (ap is_all_published b.kind) (λ x. ground arith)
          (λ y. ground arith) t.id d b.stored
        ∙ v.systems;
    valid = put-IsValid;
  }

  before-Grows : (c : Toolset) → IsBefore c → Grows d (put t.id t d)
  before-Grows c b k u p = elim (Bool-cases (t.id == k)) [
    | inl same ↦ (
      t,
      ground (arith, get-put t.id k t d),
      (inr (ground arith), ground arith, ground arith, ground arith),
    )
    | inr other ↦ (u, ground (arith, get-put t.id k t d), (inl refl, refl, refl, refl))
  ]

  -- `add` and `save` keep the invariant, and what is stored only grows.
  pub added-keeps : added tenant_id t d ≡ ok e → Inv digests e × Grows d e
  added-keeps h = (added-Inv h, added-Grows h)

  pub saved-keeps : saved tenant_id t d ≡ ok e → Inv digests e × Grows d e
  saved-keeps h = elim (saved-found h) [
    | inl same ↦ (subst (Inv digests) (sym same) v, subst (Grows d) (sym same) (Grows-refl d))
    | inr (c, b, result) ↦ (
      subst (Inv digests) (sym result) (before-Inv c b),
      subst (Grows d) (sym result) (before-Grows c b),
    )
  ]
