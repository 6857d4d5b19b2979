-- ===== src/Registry/Serving.antt =====
-- The calls of src/nexusmcp/modules/registry/use_cases.py that await the policy of endpoints keep
-- what is stored checked, also where other clients change the registry meanwhile.
use nexus_mcp.Base.{String, Option, some, ◌≡◌, refl, sym, ◌∙◌, subst, arith}
use nexus_mcp.Dict.{Dict, get}
use nexus_mcp.Result.{ok}
use nexus_mcp.Action.{Action, lift}
use nexus_mcp.Action.Rules.{
  Keeps, Keeps-bind, Keeps-bind-lift, Keeps-lift, Keeps-raise_if, Post, Post-both, both-Post,
  bind-Post, lift-Post, keeping,
}
use nexus_mcp.Store.{Ports}
use nexus_mcp.Registry.{UpstreamService, UpstreamServiceType, upstream_by_id}
use nexus_mcp.Registry.Checks.{TextPorts, validate_registration, validate_namespace}
use nexus_mcp.Registry.UseCases.{
  RegistryWorld, RegisterUpstreamCommand, UpdateUpstreamCommand, with_unit_of_work, change_upstream,
  register_upstream, update_observed, update_upstream, read, require_found,
}
use nexus_mcp.Registry.Writes.{unit-lem, found_stored}
use nexus_mcp.Registry.Safe.{Since, Knows, from_now, inserted-Since, change_upstream-Since}

found-some :
    (o : Option UpstreamService) (u : UpstreamService) → require_found o ≡ ok u → o ≡ some u
found-some o u h = ground arith

module _ (texts : TextPorts) where
  module _ (policy : String → Action RegistryWorld (Unit {0}))
      (quiet : (start : Dict UpstreamService) (endpoint : String)
        → Keeps (Since texts start) (policy endpoint)) where
    pub register_upstream-Since :
        (start : Dict UpstreamService) (ports : Ports) (c : RegisterUpstreamCommand)
        → Keeps (Since texts start) (register_upstream texts policy ports c)
    unfolding register_upstream
    register_upstream-Since start ports c =
        Keeps-bind (lift (validate_namespace c.namespace)) _ (Keeps-lift _) λ _.
          Keeps-bind _ _ (Keeps-raise_if _ _) λ _. Keeps-bind _ _ (Keeps-raise_if _ _) λ _.
            Keeps-bind-lift (validate_registration texts c.owner c.endpoint c.config c.service_type)
              _
              λ _ valid.
                Keeps-bind (policy c.endpoint) _ (quiet start c.endpoint)
                  λ _. inserted-Since texts start ports c valid

    -- While the policy is awaited, a service stays what it was known to be.
    policy-Knows :
        (start : Dict UpstreamService) (endpoint id : String) (service_type : UpstreamServiceType)
        → Keeps (λ w. Since texts start w × Knows texts id service_type w) (policy endpoint)
    policy-Knows start endpoint id service_type = record {
      kept = λ w (h, (u, p, e)).
          let before = from_now texts start w.upstreams h in
          let (v, q, s) = ((quiet w.upstreams endpoint).kept w before).kept id u p in
          ((quiet start endpoint).kept w h, (v, q, s ∙ e));
    }

    update_observed-Post :
        (start : Dict UpstreamService) (c : UpdateUpstreamCommand) (observed : UpstreamService)
        (w : RegistryWorld)
        → Since texts start w
        → get c.upstream_service_id w.upstreams ≡ some observed
        → Post
            (λ _ t. Since texts start t)
            (λ _ t. Since texts start t)
            (update_observed texts policy c observed w)
    unfolding update_observed
    update_observed-Post start c observed w h p =
        let type = observed.service_type in
        let now = λ (t : RegistryWorld). Since texts start t in
        lift-Post (λ _. now) (λ _. now)
          (validate_registration texts c.owner c.endpoint c.config type) _ w
          (λ _ valid.
            keeping (λ t. Since texts start t × Knows texts c.upstream_service_id type t) (λ _. now)
              (λ _. now) (policy c.endpoint) _ w
              (policy-Knows start c.endpoint c.upstream_service_id type) (h, (observed, p, refl))
              (λ e t q. q.0)
              λ _ t q.
                both-Post now (change_upstream c t)
                  (change_upstream-Since texts start c type t valid q.0 q.1))
          (λ e q. h)

    observe-Post :
        (start : Dict UpstreamService) (c : UpdateUpstreamCommand) (w : RegistryWorld)
        → Since texts start w
        → Post
            (λ found t.
              (t ≡ w)
              × (found ≡ upstream_by_id c.context.tenant_id c.upstream_service_id w.upstreams))
            (λ _ t. Since texts start t)
            (with_unit_of_work (read (upstream_by_id c.context.tenant_id c.upstream_service_id)) w)
    unfolding read
    observe-Post start c w h =
        let f = upstream_by_id c.context.tenant_id c.upstream_service_id in
        subst (Post (λ found t. (t ≡ w) × (found ≡ f w.upstreams)) (λ _ t. Since texts start t))
          (sym (unit-lem (read f) w h.keyed)) (refl, refl)

    pub update_upstream-Since :
        (start : Dict UpstreamService) (c : UpdateUpstreamCommand)
        → Keeps (Since texts start) (update_upstream texts policy c)
    unfolding update_upstream
    update_upstream-Since start c = record {
      kept = λ w h.
          let now = λ (t : RegistryWorld). Since texts start t in
          let find = upstream_by_id c.context.tenant_id c.upstream_service_id in
          Post-both now (update_upstream texts policy c w) (
            bind-Post (λ found t. (t ≡ w) × (found ≡ find w.upstreams)) (λ _. now) (λ _. now)
              (with_unit_of_work (read find)) _ w (observe-Post start c w h)
              λ found t (same, e).
                lift-Post (λ _. now) (λ _. now) (require_found found) _ t
                  (λ u q.
                    subst (λ s. Post (λ _. now) (λ _. now) (update_observed texts policy c u s))
                      (sym same)
                      (update_observed-Post start c u w h (
                        found_stored c.context.tenant_id c.upstream_service_id u w.upstreams
                          (sym e ∙ found-some found u q))))
                  (λ x q. subst now (sym same) h));
    }
