-- ===== src/Registry/Writes.antt =====
-- What the units of work of src/nexusmcp/modules/registry/use_cases.py do to the registry.
use nexus_mcp.Base.{
  String, none, some, ◌≡◌, ◌⊎◌, refl, sym, ap, ◌∙◌, subst, arith, inl, inr, Option-cases,
}
use nexus_mcp.Dict.{Dict, get, put}
use nexus_mcp.Dict.Keyed.{Keyed, index-values}
use nexus_mcp.Result.{Result, ok, Result-cases}
use nexus_mcp.Action.{Action, ◌>>=◌}
use nexus_mcp.Store.{Ports}
use nexus_mcp.Registry.{
  UpstreamService, new_upstream, upstream_by_id, upstream_by_name, add_upstream, save_upstream,
  clone_upstreams, id_of,
}
use nexus_mcp.Registry.UseCases.{
  RegistryWorld, RegistrySession, RegisterUpstreamCommand, with_unit_of_work, run_on, change_body,
  insert_body, registered, read, write, commit, new_id, save_changed,
}

pub new_upstream_self : (u v : UpstreamService) → new_upstream u ≡ ok v → u ≡ v
unfolding new_upstream
new_upstream_self u v h = ground arith

copied : (d : Dict UpstreamService) → Keyed id_of d → clone_upstreams d ≡ d
unfolding clone_upstreams
copied d k = index-values id_of d k

pub found_stored :
    (tenant_id id : String) (u : UpstreamService) (d : Dict UpstreamService)
    → upstream_by_id tenant_id id d ≡ some u
    → get id d ≡ some u
unfolding upstream_by_id
found_stored tenant_id id u d h = ground arith

saved-put :
    (tenant_id : String) (u : UpstreamService) (d e : Dict UpstreamService)
    → save_upstream tenant_id u d ≡ ok e
    → put u.id u d ≡ e
unfolding save_upstream
saved-put tenant_id u d e h = ground arith

added-put :
    (tenant_id : String) (u : UpstreamService) (d e : Dict UpstreamService)
    → add_upstream tenant_id u d ≡ ok e
    → (get u.id d ≡ none) × (put u.id u d ≡ e)
unfolding add_upstream
added-put tenant_id u d e h = ground arith

pub unit-lem :
    {A : Type 0} (body : Action RegistrySession A) (w : RegistryWorld)
    → Keyed id_of w.upstreams
    → with_unit_of_work body w ≡ run_on body w w.upstreams
unfolding with_unit_of_work
unit-lem body w k = ap (run_on body w) (copied w.upstreams k)

-- What a change of a stored service has done to the registry.
pub change_body-cases :
    (tenant_id id : String) (change : UpstreamService → Result UpstreamService) (w : RegistryWorld)
    → ((run_on (change_body tenant_id id change) w w.upstreams).1 ≡ w)
      ⊎ ((u : UpstreamService) × (v : UpstreamService) × (get id w.upstreams ≡ some u)
          × (change u ≡ ok v)
          × ((run_on (change_body tenant_id id change) w w.upstreams).1.upstreams
              ≡ put v.id v w.upstreams))
unfolding change_body read save_changed write commit ◌>>=◌
change_body-cases tenant_id id change w =
    elim (Option-cases (upstream_by_id tenant_id id w.upstreams)) [
      | inl n ↦ inl (rw (run_on, n) refl)
      | inr (u, p) ↦ elim (Result-cases (change u)) [
        | inr (x, q) ↦ inl (rw (run_on, p, q) refl)
        | inl (v, q) ↦ elim (Result-cases (save_upstream tenant_id v w.upstreams)) [
          | inr (x, r) ↦ inl (rw (run_on, p, q, r) refl)
          | inl (e, r) ↦ inr (
            u,
            v,
            found_stored tenant_id id u w.upstreams p,
            q,
            rw (run_on, p, q, r) (sym (saved-put tenant_id v w.upstreams e r)),
          )
        ]
      ]
    ]

-- What a registration has done to the registry.
pub insert_body-cases :
    (ports : Ports) (c : RegisterUpstreamCommand) (w : RegistryWorld)
    → ((run_on (insert_body ports c) w w.upstreams).1.upstreams ≡ w.upstreams)
      ⊎ ((id : String) × (get id w.upstreams ≡ none)
          × ((run_on (insert_body ports c) w w.upstreams).1.upstreams
              ≡ put id (registered c id) w.upstreams))
unfolding insert_body read write commit new_id ◌>>=◌
insert_body-cases ports c w =
    let id = ports.ids w.issued in
    elim (Option-cases (upstream_by_name c.context.tenant_id c.namespace c.name w.upstreams)) [
      | inr (u, p) ↦ inl (rw (run_on, p) refl)
      | inl n ↦ elim (Result-cases (new_upstream (registered c id))) [
        | inr (x, q) ↦ inl (rw (run_on, n, q) refl)
        | inl (u, q) ↦ elim (Result-cases (add_upstream c.context.tenant_id u w.upstreams)) [
          | inr (x, r) ↦ inl (rw (run_on, n, q, r) refl)
          | inl (e, r) ↦
              let same = new_upstream_self (registered c id) u q in
              let (fresh, result) = added-put c.context.tenant_id u w.upstreams e r in
              inr (
                id,
                subst (λ v. get v.id w.upstreams ≡ none) (sym same) fresh,
                rw (run_on, n, q, r) (sym result ∙ ap (λ v. put v.id v w.upstreams) (sym same)),
              )
        ]
      ]
    ]
