-- ===== src/Toolsets/Store.antt =====
-- `InMemoryToolsetRepository` and the unit of work: src/nexusmcp/modules/toolsets/adapters/
-- in_memory.py, in_memory_uow.py and _repository_rules.py. A unit of work is entered once and used
-- inside its block, so the errors of a wrong use are left out.
use nexus_mcp.Base.{ℕ, ◌+◌, String, Bool, ◌&&◌, Option, none, some, List, [], ◌==◌, if◌then◌else◌}
use nexus_mcp.Base.Order.{contains, text_lt, sort_by}
use nexus_mcp.Dict.{Dict, index, repeats, get, values, find, select}
use nexus_mcp.Result.{Result, ok, err, ◌>>◌, reject_if}
use nexus_mcp.Action.{Action}
use nexus_mcp.Store.{Ports}
use nexus_mcp.Toolsets.{Toolset, is_all_published, is_active, ids_of_grants}
use nexus_mcp.Toolsets.Catalog.{ToolsetCatalogSnapshot}

-- What is committed, the catalogue that the tool sets are read against, and how often the clock
-- and the identifier generator have been asked.
pub record ToolsetWorld : Type 0 where
  pub toolsets : Dict Toolset
  pub snapshots : List ToolsetCatalogSnapshot
  pub ticks : ℕ
  pub issued : ℕ

-- The inside of a unit of work: `working` is the copy that the repository changes.
pub record ToolsetSession : Type 0 where
  pub world : ToolsetWorld
  pub working : Dict Toolset

-- `clock.now()`
unfoldable pub now : Ports → Action ToolsetWorld ℕ
now ports w = (ok (ports.times w.ticks), record w { ticks = w.ticks + 1 })

-- `identifier_generator.new_id()`
unfoldable pub new_id : Ports → Action ToolsetWorld String
new_id ports w = (ok (ports.ids w.issued), record w { issued = w.issued + 1 })

module _ {A : Type 0} where
  -- A call of a port inside a unit of work.
  unfoldable pub outside : Action ToolsetWorld A → Action ToolsetSession A
  outside m s = let (r, w) = m s.world in (r, record s { world = w })

-- `(toolset.tenant_id, toolset.slug)`, compared.
unfoldable pub same_slug : Toolset → Toolset → Bool
same_slug t u = t.tenant_id == u.tenant_id && t.slug == u.slug

-- `_validate_seed_uniqueness`, of the values of the dictionary.
unfoldable pub validate_seed_uniqueness : List Toolset → Result (Unit {0})
unfolding repeats same_slug
validate_seed_uniqueness ts = do
  reject_if (repeats (λ t u. t.id == u.id) ts) "toolset id already exists"
  reject_if (repeats same_slug ts) "toolset slug already exists in tenant"
  reject_if (repeats (λ t u. t.tenant_id == u.tenant_id) (select (λ t. is_all_published t.kind) ts))
      "all_published toolset already exists in tenant"

-- `InMemoryToolsetRepository(toolsets)`
unfoldable pub new_repository : List Toolset → Result (Dict Toolset)
unfolding repeats validate_seed_uniqueness index
new_repository seed = do
  reject_if (repeats (λ t u. t.id == u.id) seed) "toolset id already exists"
  validate_seed_uniqueness (values (index (λ t. t.id) [] seed))
  ok (index (λ t. t.id) [] seed)

-- `clone`
unfoldable pub clone : Dict Toolset → Result (Dict Toolset)
unfolding new_repository
clone d = new_repository (values d)

module _ {A : Type 0} where
  abbrev enter : Result (Dict Toolset) → Action ToolsetSession A → Action ToolsetWorld A
  enter (err e) body w = (err e, w)
  enter (ok copy) body w = let (r, s) = body (record { world = w; working = copy }) in (r, s.world)

  -- `async with factory() as unit_of_work: body`. `__aenter__` clones what is committed, and
  -- `__aexit__` drops the copy. Nothing else runs between them: the repository is used by one
  -- task at a time.
  unfoldable pub with_unit_of_work : Action ToolsetSession A → Action ToolsetWorld A
  unfolding clone
  with_unit_of_work body w = enter (clone w.toolsets) body w

-- `commit`
unfoldable pub commit : Action ToolsetSession (Unit {0})
commit s = (ok tt, record s { world = record s.world { toolsets = s.working } })

abbrev restart : Result (Dict Toolset) → Action ToolsetSession (Unit {0})
restart (err e) s = (err e, s)
restart (ok copy) s = (ok tt, record s { working = copy })

-- `rollback`
unfoldable pub rollback : Action ToolsetSession (Unit {0})
unfolding clone
rollback s = restart (clone s.world.toolsets) s

-- `get_by_id`, and `get_for_update`, which calls it.
abbrev pub of_tenant : String → Option Toolset → Option Toolset
of_tenant tenant_id none = none
of_tenant tenant_id (some t) = if t.tenant_id == tenant_id then some t else none

unfoldable pub lookup_by_id : String → String → Dict Toolset → Option Toolset
lookup_by_id tenant_id toolset_id d = of_tenant tenant_id (get toolset_id d)

-- `get_by_slug`
unfoldable pub lookup_by_slug : String → String → Dict Toolset → Option Toolset
lookup_by_slug tenant_id slug d = find (λ t. t.tenant_id == tenant_id && t.slug == slug) (values d)

-- `get_all_published`
unfoldable pub lookup_all_published : String → Dict Toolset → Option Toolset
lookup_all_published tenant_id d =
    find (λ t. t.tenant_id == tenant_id && is_all_published t.kind) (values d)

-- `list_by_tenant`
unfoldable pub list_by_tenant : String → Dict Toolset → List Toolset
unfolding sort_by text_lt
list_by_tenant tenant_id d =
    sort_by (λ t u. text_lt t.slug u.slug) (select (λ t. t.tenant_id == tenant_id) (values d))

-- `list_granted_active`
unfoldable pub list_granted_active : String → String → Dict Toolset → List Toolset
unfolding list_by_tenant contains
list_granted_active tenant_id principal_id d =
    select (λ t. is_active t.status && contains principal_id (ids_of_grants t.grants))
      (list_by_tenant tenant_id d)
