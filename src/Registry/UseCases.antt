-- ===== src/Registry/UseCases.antt =====
-- The use cases of src/nexusmcp/modules/registry/use_cases.py and the unit of work of
-- src/nexusmcp/modules/registry/adapters/in_memory_uow.py. The policy that an endpoint is checked
-- with is awaited outside a unit of work: it is an arbitrary action, in which other clients may
-- change the registry too.
use nexus_mcp.Base.{ℕ, ◌+◌, String, not, Option, none, some, List, is_blank, is_none}
use nexus_mcp.Dict.{Dict}
use nexus_mcp.Errors.{nexus, NexusMcpError}
use nexus_mcp.Json.{Fields}
use nexus_mcp.Result.{Result, ok, err}
use nexus_mcp.Action.{Action, pure, raise_if, lift, ◌>>=◌, ◌>>◌}
use nexus_mcp.Context.{ActorContext}
use nexus_mcp.Store.{Ports}
use nexus_mcp.Registry.{
  UpstreamService, UpstreamServiceType, UpstreamStatus, new_upstream, update, disable,
  upstream_by_id, upstream_by_name, add_upstream, save_upstream, upstreams_by_tenant,
  clone_upstreams,
}
use nexus_mcp.Registry.Checks.{TextPorts, validate_namespace, validate_registration}

-- What is committed, and how often the identifier generator has been asked.
pub record RegistryWorld : Type 0 where
  pub upstreams : Dict UpstreamService
  pub issued : ℕ

-- The inside of a unit of work: `working` is the copy that the repository changes.
pub record RegistrySession : Type 0 where
  pub world : RegistryWorld
  pub working : Dict UpstreamService

-- The body of a unit of work on a copy; the copy is dropped at the end.
abbrev pub run_on :
    {A : Type 0}
    → Action RegistrySession A
    → RegistryWorld
    → Dict UpstreamService
    → Result A × RegistryWorld
run_on body w copy = let (r, s) = body (record { world = w; working = copy }) in (r, s.world)

-- `async with factory() as unit_of_work: body`
unfoldable pub with_unit_of_work : {A : Type 0} → Action RegistrySession A → Action RegistryWorld A
with_unit_of_work body w = run_on body w (clone_upstreams w.upstreams)

-- `commit`
unfoldable pub commit : Action RegistrySession (Unit {0})
commit s = (ok tt, record s { world = record s.world { upstreams = s.working } })

-- `identifier_generator.new_id()`
unfoldable pub new_id : Ports → Action RegistrySession String
new_id ports s = (
  ok (ports.ids s.world.issued),
  record s { world = record s.world { issued = s.world.issued + 1 } },
)

-- A reading of the repository.
unfoldable pub read : {A : Type 0} → (Dict UpstreamService → A) → Action RegistrySession A
read f s = (ok (f s.working), s)

abbrev stored : Result (Dict UpstreamService) → Action RegistrySession (Unit {0})
stored (ok d) s = (ok tt, record s { working = d })
stored (err e) s = (err e, s)

-- A change of the repository.
unfoldable pub write :
    (Dict UpstreamService → Result (Dict UpstreamService)) → Action RegistrySession (Unit {0})
write f s = stored (f s.working) s

pub record RegisterUpstreamCommand : Type 0 where
  pub context : ActorContext
  pub namespace : String
  pub name : String
  pub description : Option String
  pub owner : String
  pub endpoint : String
  pub auth_scheme : Option String
  pub config : Fields
  pub service_type : UpstreamServiceType
  pub transport_type : String

pub record UpdateUpstreamCommand : Type 0 where
  pub context : ActorContext
  pub upstream_service_id : String
  pub description : Option String
  pub owner : String
  pub endpoint : String
  pub auth_scheme : Option String
  pub config : Fields

pub record DisableUpstreamCommand : Type 0 where
  pub context : ActorContext
  pub upstream_service_id : String

-- `if upstream is None: raise UpstreamNotFoundError(…)`
abbrev pub require_found : Option UpstreamService → Result UpstreamService
require_found none = err (nexus NexusMcpError.upstream_not_found)
require_found (some u) = ok u

-- The service that a registration stores.
abbrev pub registered : RegisterUpstreamCommand → String → UpstreamService
registered c id = record {
  id = id;
  tenant_id = c.context.tenant_id;
  namespace = c.namespace;
  name = c.name;
  description = c.description;
  owner = c.owner;
  service_type = c.service_type;
  transport_type = c.transport_type;
  endpoint = c.endpoint;
  protocol_min = none;
  protocol_max = none;
  auth_scheme = c.auth_scheme;
  config = c.config;
  status = UpstreamStatus.active;
}

-- The unit of work of `RegisterUpstream.execute`.
unfoldable pub insert_body :
    Ports → RegisterUpstreamCommand → Action RegistrySession UpstreamService
unfolding read
insert_body ports c = do
  existing ← read (upstream_by_name c.context.tenant_id c.namespace c.name)
  raise_if (not (is_none existing)) (nexus NexusMcpError.upstream_conflict)
  id ← new_id ports
  u ← lift (new_upstream (registered c id))
  write (add_upstream c.context.tenant_id u)
  commit
  pure u

-- The end of a change: `save` and `commit`.
unfoldable pub save_changed : String → UpstreamService → Action RegistrySession UpstreamService
save_changed tenant_id u = do write (save_upstream tenant_id u); commit; pure u

-- The body of a unit of work that changes a stored service.
unfoldable pub change_body :
    String
    → String
    → (UpstreamService → Result UpstreamService)
    → Action RegistrySession UpstreamService
unfolding read save_changed
change_body tenant_id upstream_service_id change = do
  found ← read (upstream_by_id tenant_id upstream_service_id)
  u ← lift (require_found found)
  changed ← lift (change u)
  save_changed tenant_id changed

-- The second unit of work of `UpdateUpstream.execute`.
unfoldable pub change_upstream : UpdateUpstreamCommand → Action RegistryWorld UpstreamService
unfolding change_body
change_upstream c = with_unit_of_work (
    change_body c.context.tenant_id c.upstream_service_id
      (λ u. update u c.description c.owner c.endpoint c.auth_scheme c.config))

-- `DisableUpstream.execute`
unfoldable pub disable_upstream : DisableUpstreamCommand → Action RegistryWorld UpstreamService
unfolding change_body
disable_upstream c =
    with_unit_of_work (change_body c.context.tenant_id c.upstream_service_id disable)

-- `ListUpstreams.execute`
unfoldable pub list_upstreams : ActorContext → Action RegistryWorld (List UpstreamService)
list_upstreams context = with_unit_of_work (read (upstreams_by_tenant context.tenant_id))

module _ (texts : TextPorts) (policy : String → Action RegistryWorld (Unit {0})) where
  -- `RegisterUpstream.execute`
  unfoldable pub register_upstream :
      Ports → RegisterUpstreamCommand → Action RegistryWorld UpstreamService
  register_upstream ports c = do
    lift (validate_namespace c.namespace)
    raise_if (is_blank c.name) (nexus NexusMcpError.invalid_arguments)
    raise_if (is_blank c.transport_type) (nexus NexusMcpError.invalid_arguments)
    lift (validate_registration texts c.owner c.endpoint c.config c.service_type)
    policy c.endpoint
    with_unit_of_work (insert_body ports c)

  -- `UpdateUpstream.execute`, once the service has been observed.
  unfoldable pub update_observed :
      UpdateUpstreamCommand → UpstreamService → Action RegistryWorld UpstreamService
  update_observed c observed = do
    lift (validate_registration texts c.owner c.endpoint c.config observed.service_type)
    policy c.endpoint
    change_upstream c

  -- `UpdateUpstream.execute`
  unfoldable pub update_upstream : UpdateUpstreamCommand → Action RegistryWorld UpstreamService
  unfolding read
  update_upstream c = do
    found ← with_unit_of_work (read (upstream_by_id c.context.tenant_id c.upstream_service_id))
    observed ← lift (require_found found)
    update_observed c observed
