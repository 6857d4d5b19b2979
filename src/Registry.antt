-- ===== src/Registry.antt =====
-- The upstream services: src/nexusmcp/modules/registry/domain.py and `InMemoryUpstreamRepository`
-- of src/nexusmcp/modules/registry/adapters/in_memory.py.
pub mod Checks
pub mod UseCases
pub mod Writes
pub mod Safe
pub mod Serving
pub mod Reachable
use nexus_mcp.Base.{
  String, Bool, true, false, not, ◌&&◌, ◌||◌, Option, none, some, List, [], ◌==◌, if◌then◌else◌,
  is_blank, is_none,
}
use nexus_mcp.Base.Order.{sort_by, text_lt}
use nexus_mcp.Dict.{Dict, get, put, values, find, select, index}
use nexus_mcp.Json.{Fields}
use nexus_mcp.Result.{Result, ok, ◌>>◌, reject_if}

pub data UpstreamServiceType : Type 0 where
  http remote_mcp : UpstreamServiceType

pub data UpstreamStatus : Type 0 where
  draft active disabled : UpstreamStatus

abbrev pub is_active : UpstreamStatus → Bool
is_active UpstreamStatus.active = true
is_active _ = false

pub record UpstreamService : Type 0 where
  pub id : String
  pub tenant_id : String
  pub namespace : String
  pub name : String
  pub description : Option String
  pub owner : String
  pub service_type : UpstreamServiceType
  pub transport_type : String
  pub endpoint : String
  pub protocol_min : Option String
  pub protocol_max : Option String
  pub auth_scheme : Option String
  pub config : Fields
  pub status : UpstreamStatus

-- `UpstreamService(...)`: the constructor runs `__post_init__`.
unfoldable pub new_upstream : UpstreamService → Result UpstreamService
new_upstream u = do
  reject_if (is_blank u.id) "upstream service id must not be blank"
  reject_if (is_blank u.tenant_id) "tenant id must not be blank"
  reject_if (is_blank u.namespace) "upstream namespace must not be blank"
  reject_if (is_blank u.name) "upstream name must not be blank"
  reject_if (is_blank u.owner) "upstream owner must not be blank"
  reject_if (is_blank u.transport_type) "upstream transport type must not be blank"
  reject_if (is_blank u.endpoint) "upstream endpoint must not be blank"
  ok u

-- `update`
unfoldable pub update :
    UpstreamService
    → Option String
    → String
    → String
    → Option String
    → Fields
    → Result UpstreamService
unfolding new_upstream
update u description owner endpoint auth_scheme config = new_upstream (record u {
  description = description;
  owner = owner;
  endpoint = endpoint;
  auth_scheme = auth_scheme;
  config = config;
})

-- `disable`, of the status.
abbrev switched_off : UpstreamService → UpstreamStatus → Result UpstreamService
switched_off u UpstreamStatus.disabled = ok u
switched_off u _ = new_upstream (record u { status = UpstreamStatus.disabled })

unfoldable pub disable : UpstreamService → Result UpstreamService
disable u = switched_off u u.status

abbrev pub id_of : UpstreamService → String
id_of u = u.id

abbrev of_tenant : String → Option UpstreamService → Option UpstreamService
of_tenant tenant_id none = none
of_tenant tenant_id (some u) = if u.tenant_id == tenant_id then some u else none

-- `get_by_id`, and `get_for_update`, which calls it.
unfoldable pub upstream_by_id : String → String → Dict UpstreamService → Option UpstreamService
upstream_by_id tenant_id upstream_service_id d = of_tenant tenant_id (get upstream_service_id d)

-- `get_by_name`
unfoldable pub upstream_by_name :
    String → String → String → Dict UpstreamService → Option UpstreamService
upstream_by_name tenant_id namespace name d =
    find (λ u. u.tenant_id == tenant_id && u.namespace == namespace && u.name == name) (values d)

-- `add`
unfoldable pub add_upstream :
    String → UpstreamService → Dict UpstreamService → Result (Dict UpstreamService)
unfolding upstream_by_name
add_upstream tenant_id u d = do
  reject_if (not (tenant_id == u.tenant_id)) "entity tenant does not match repository tenant scope"
  reject_if (not (is_none (get u.id d))) "upstream service id already exists"
  reject_if (not (is_none (upstream_by_name tenant_id u.namespace u.name d)))
      "upstream service name already exists in namespace"
  ok (put u.id u d)

-- `save`
unfoldable pub save_upstream :
    String → UpstreamService → Dict UpstreamService → Result (Dict UpstreamService)
unfolding upstream_by_id
save_upstream tenant_id u d = do
  reject_if (not (tenant_id == u.tenant_id)) "entity tenant does not match repository tenant scope"
  reject_if (is_none (upstream_by_id tenant_id u.id d)) "upstream service does not exist in tenant"
  ok (put u.id u d)

-- The order of the pairs of namespace and name.
abbrev name_lt : UpstreamService → UpstreamService → Bool
name_lt u v =
    text_lt u.namespace v.namespace || (u.namespace == v.namespace && text_lt u.name v.name)

-- `list_by_tenant`
unfoldable pub upstreams_by_tenant : String → Dict UpstreamService → List UpstreamService
upstreams_by_tenant tenant_id d =
    sort_by name_lt (select (λ u. u.tenant_id == tenant_id) (values d))

-- `clone`
unfoldable pub clone_upstreams : Dict UpstreamService → Dict UpstreamService
clone_upstreams d = index id_of [] (values d)
