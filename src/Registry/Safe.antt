-- ===== src/Registry/Safe.antt =====
-- The use cases of src/nexusmcp/modules/registry/use_cases.py keep what is stored
-- checked: the invariant, and the units of work.
use nexus_mcp.Base.{
  String, some, ◌≡◌, ◌⊎◌, refl, sym, ap, ◌∙◌, subst, arith, inl, inr, Bool-cases, ◌==◌,
}
use nexus_mcp.Dict.{Dict, get, put}
use nexus_mcp.Dict.Laws.{get-put, get-put_cases}
use nexus_mcp.Dict.Keyed.{Keyed, put-Keyed, Keyed-get}
use nexus_mcp.Result.{Result, ok}
use nexus_mcp.Action.Rules.{Keeps}
use nexus_mcp.Store.{Ports}
use nexus_mcp.Registry.{
  UpstreamService, UpstreamServiceType, UpstreamStatus, update, disable, switched_off, id_of,
}
use nexus_mcp.Registry.Checks.{TextPorts, validate_registration}
use nexus_mcp.Registry.UseCases.{
  RegistryWorld, RegisterUpstreamCommand, UpdateUpstreamCommand, DisableUpstreamCommand,
  with_unit_of_work, change_body, insert_body, registered, change_upstream, disable_upstream,
}
use nexus_mcp.Registry.Writes.{new_upstream_self, unit-lem, change_body-cases, insert_body-cases}

disabled-ok :
    (u v : UpstreamService) (s : UpstreamStatus)
    → switched_off u s ≡ ok v
    → (u ≡ v) ⊎ (record u { status = UpstreamStatus.disabled } ≡ v)
disabled-ok u v UpstreamStatus.disabled h = inl (ground arith)
disabled-ok u v UpstreamStatus.draft h = inr (new_upstream_self _ v h)
disabled-ok u v UpstreamStatus.active h = inr (new_upstream_self _ v h)

module _ (texts : TextPorts) where
  -- The service passes the checks of a registration.
  abbrev pub IsChecked : UpstreamService → Type 0
  IsChecked u = validate_registration texts u.owner u.endpoint u.config u.service_type ≡ ok tt

  disable-IsChecked :
      (u v : UpstreamService)
      → disable u ≡ ok v
      → IsChecked u
      → IsChecked v × (v.id ≡ u.id) × (v.service_type ≡ u.service_type)
  unfolding disable
  disable-IsChecked u v h p = elim (disabled-ok u v u.status h) [
    | inl e ↦
        subst (λ x. IsChecked x × (x.id ≡ u.id) × (x.service_type ≡ u.service_type)) e
          (p, refl, refl)
    | inr e ↦
        subst (λ x. IsChecked x × (x.id ≡ u.id) × (x.service_type ≡ u.service_type)) e
          (p, refl, refl)
  ]

  -- What is stored stands under its identifier and is checked, and what was stored at the start is
  -- still there, with the same type of service.
  pub record Holds (start d : Dict UpstreamService) : Type 0 where
    pub keyed : Keyed id_of d
    pub checked : (k : String) (u : UpstreamService) → get k d ≡ some u → IsChecked u
    pub kept :
        (k : String) (u : UpstreamService)
        → get k start ≡ some u
        → (v : UpstreamService) × (get k d ≡ some v) × (v.service_type ≡ u.service_type)

  abbrev pub Since : Dict UpstreamService → RegistryWorld → Type 0
  Since start w = Holds start w.upstreams

  pub from_now : (start d : Dict UpstreamService) → Holds start d → Holds d d
  from_now start d h = record { keyed = h.keyed; checked = h.checked; kept = λ k u p. (u, p, refl) }

  put-IsChecked :
      (d : Dict UpstreamService) (v : UpstreamService)
      → ((k : String) (u : UpstreamService) → get k d ≡ some u → IsChecked u)
      → IsChecked v
      → (k : String) (u : UpstreamService) → get k (put v.id v d) ≡ some u
      → IsChecked u
  put-IsChecked d v h c k u p = elim (get-put_cases v.id k v u d p) [
    | inl (i, same) ↦ subst IsChecked same c
    | inr q ↦ h k u q
  ]

  put-Holds :
      (start d : Dict UpstreamService) (v : UpstreamService)
      → Holds start d
      → IsChecked v
      → ((u : UpstreamService) → get v.id d ≡ some u → v.service_type ≡ u.service_type)
      → Holds start (put v.id v d)
  put-Holds start d v h c same = record {
    keyed = put-Keyed id_of v d h.keyed;
    checked = put-IsChecked d v h.checked c;
    kept = λ k u p.
        let (x, q, e) = h.kept k u p in
        elim (Bool-cases (v.id == k)) [
          | inl here ↦ (v, ground (arith, get-put v.id k v d), ground (arith, same x))
          | inr there ↦ (x, ground (arith, get-put v.id k v d), e)
        ];
  }

  -- A unit of work that changes a stored service keeps all, where the change does.
  change-Since :
      (start : Dict UpstreamService) (tenant_id id : String)
      (change : UpstreamService → Result UpstreamService) (w : RegistryWorld)
      → Since start w
      → ((u v : UpstreamService)
          → get id w.upstreams ≡ some u
          → change u ≡ ok v
          → IsChecked v × (v.id ≡ u.id) × (v.service_type ≡ u.service_type))
      → Since start (with_unit_of_work (change_body tenant_id id change) w).1
  change-Since start tenant_id id change w h good =
      let body = change_body tenant_id id change in
      subst (λ o. Since start o.1) (sym (unit-lem body w h.keyed))
        (elim (change_body-cases tenant_id id change w) [
          | inl same ↦ subst (Since start) (sym same) h
          | inr (u, v, p, q, result) ↦
              let (c, i, s) = good u v p q in
              let under = Keyed-get id_of id u w.upstreams h.keyed p in
              subst (Holds start) (sym result)
                (put-Holds start w.upstreams v h c λ x r. ground arith)
        ])

  pub disable_upstream-Since :
      (start : Dict UpstreamService) (c : DisableUpstreamCommand)
      → Keeps (Since start) (disable_upstream c)
  unfolding disable_upstream
  disable_upstream-Since start c = record {
    kept = λ w h.
        change-Since start c.context.tenant_id c.upstream_service_id disable w h
          λ u v p q. disable-IsChecked u v q (h.checked c.upstream_service_id u p);
  }

  -- The service is stored, with this type.
  abbrev pub Knows : String → UpstreamServiceType → RegistryWorld → Type 0
  Knows id service_type w =
      (u : UpstreamService) × (get id w.upstreams ≡ some u) × (u.service_type ≡ service_type)

  updated-ok :
      (c : UpdateUpstreamCommand) (u v : UpstreamService)
      → update u c.description c.owner c.endpoint c.auth_scheme c.config ≡ ok v
      → record u {
        description = c.description;
        owner = c.owner;
        endpoint = c.endpoint;
        auth_scheme = c.auth_scheme;
        config = c.config;
      }
        ≡ v
  unfolding update
  updated-ok c u v h = new_upstream_self _ v h

  pub change_upstream-Since :
      (start : Dict UpstreamService) (c : UpdateUpstreamCommand)
      (service_type : UpstreamServiceType) (w : RegistryWorld)
      → validate_registration texts c.owner c.endpoint c.config service_type ≡ ok tt
      → Since start w
      → Knows c.upstream_service_id service_type w
      → Since start (change_upstream c w).1
  unfolding change_upstream
  change_upstream-Since start c service_type w valid h (x, p, e) =
      change-Since start c.context.tenant_id c.upstream_service_id _ w h λ u v q r.
        let same : x ≡ u = ground arith in
        subst (λ y. IsChecked y × (y.id ≡ u.id) × (y.service_type ≡ u.service_type))
          (updated-ok c u v r)
          (
            subst (λ t. validate_registration texts c.owner c.endpoint c.config t ≡ ok tt)
                (sym e ∙ ap (λ y. y.service_type) same) valid,
            refl,
            refl,
          )

  pub inserted-Since :
      (start : Dict UpstreamService) (ports : Ports) (c : RegisterUpstreamCommand)
      → validate_registration texts c.owner c.endpoint c.config c.service_type ≡ ok tt
      → Keeps (Since start) (with_unit_of_work (insert_body ports c))
  inserted-Since start ports c valid = record {
    kept = λ w h.
        subst (λ o. Since start o.1) (sym (unit-lem (insert_body ports c) w h.keyed))
          (elim (insert_body-cases ports c w) [
            | inl same ↦ subst (Holds start) (sym same) h
            | inr (id, fresh, result) ↦
                subst (Holds start) (sym result)
                  (put-Holds start w.upstreams (registered c id) h valid λ x r. ground arith)
          ]);
  }
