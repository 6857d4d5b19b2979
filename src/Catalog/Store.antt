-- ===== src/Catalog/Store.antt =====
-- `InMemoryToolCatalogRepository` of src/nexusmcp/modules/catalog/adapters/in_memory.py, without
-- the published projection. What changes the repository gives the changed dictionary, or raises and
-- leaves it alone.
use nexus_mcp.Base.{
  ℕ, ◌+◌, String, Bool, false, not, ◌&&◌, Option, none, some, List, [], ◌∷◌, ◌==◌, if◌then◌else◌,
  is_none, eqb, leb, any,
}
use nexus_mcp.Dict.{Dict, get, put, values, find, select, repeats}
use nexus_mcp.Result.{Result, ok, ◌>>◌, reject_if}
use nexus_mcp.Catalog.{Tool, ToolVersion, is_published}

abbrev pub id_of_tool : Tool → String
id_of_tool t = t.id

abbrev pub id_of_version : ToolVersion → String
id_of_version v = v.id

-- `get_tool_by_id`, of what stands under the identifier.
abbrev pub tool_of_tenant : String → Option Tool → Option Tool
tool_of_tenant tenant_id none = none
tool_of_tenant tenant_id (some t) = if t.tenant_id == tenant_id then some t else none

-- `get_tool_by_id`, and `get_tool_for_update`, which calls it.
unfoldable pub tool_by_id : String → String → Dict Tool → Option Tool
tool_by_id tenant_id tool_id d = tool_of_tenant tenant_id (get tool_id d)

-- `get_tool_by_name`, and `get_tool_by_name_for_update`, which calls it.
unfoldable pub tool_by_name : String → String → Dict Tool → Option Tool
tool_by_name tenant_id canonical_name d =
    find (λ t. t.tenant_id == tenant_id && t.canonical_name == canonical_name) (values d)

-- `name_owner is not None and name_owner.id != tool.id`
abbrev is_other : Tool → Option Tool → Bool
is_other t none = false
is_other t (some owner) = not (owner.id == t.id)

-- `add_tool`
unfoldable pub add_tool : String → Tool → Dict Tool → Result (Dict Tool)
unfolding tool_by_name
add_tool tenant_id t d = do
  reject_if (not (tenant_id == t.tenant_id)) "entity tenant does not match repository tenant scope"
  reject_if (not (is_none (get t.id d))) "tool id already exists"
  reject_if (not (is_none (tool_by_name tenant_id t.canonical_name d)))
      "tool canonical name already exists in tenant"
  ok (put t.id t d)

-- `save_tool`
unfoldable pub save_tool : String → Tool → Dict Tool → Result (Dict Tool)
unfolding tool_by_id tool_by_name
save_tool tenant_id t d = do
  reject_if (not (tenant_id == t.tenant_id)) "entity tenant does not match repository tenant scope"
  reject_if (is_none (tool_by_id tenant_id t.id d)) "tool does not exist in tenant"
  reject_if (is_other t (tool_by_name tenant_id t.canonical_name d))
      "tool canonical name already exists in tenant"
  ok (put t.id t d)

-- `get_version_by_id`, of what stands under the identifier.
abbrev pub version_of_tenant : String → Option ToolVersion → Option ToolVersion
version_of_tenant tenant_id none = none
version_of_tenant tenant_id (some v) = if v.tenant_id == tenant_id then some v else none

-- `get_version_by_id`, and `get_version_for_update`, which calls it.
unfoldable pub version_by_id : String → String → Dict ToolVersion → Option ToolVersion
version_by_id tenant_id tool_version_id d = version_of_tenant tenant_id (get tool_version_id d)

-- The version is the published one of the tool.
abbrev pub publishes : String → String → ToolVersion → Bool
publishes tenant_id tool_id v =
    v.tenant_id == tenant_id && v.tool_id == tool_id && is_published v.status

-- `get_published_version`
unfoldable pub published_version : String → String → Dict ToolVersion → Option ToolVersion
published_version tenant_id tool_id d = find (publishes tenant_id tool_id) (values d)

-- Both are the same numbered version of the same tool.
abbrev same_number : ToolVersion → ToolVersion → Bool
same_number v w = v.tool_id == w.tool_id && eqb v.version w.version

-- `add_version`, with `_version_number_exists`.
unfoldable pub add_version : String → ToolVersion → Dict ToolVersion → Result (Dict ToolVersion)
add_version tenant_id v d = do
  reject_if (not (tenant_id == v.tenant_id)) "entity tenant does not match repository tenant scope"
  reject_if (not (is_none (get v.id d))) "tool version id already exists"
  reject_if (any (same_number v) (values d)) "tool version number already exists"
  ok (put v.id v d)

-- `save_version`
unfoldable pub save_version : String → ToolVersion → Dict ToolVersion → Result (Dict ToolVersion)
unfolding version_by_id
save_version tenant_id v d = do
  reject_if (not (tenant_id == v.tenant_id)) "entity tenant does not match repository tenant scope"
  reject_if (is_none (version_by_id tenant_id v.id d)) "tool version does not exist in tenant"
  reject_if (any (λ w. not (w.id == v.id) && same_number w v) (values d))
      "tool version number already exists"
  ok (put v.id v d)

-- `max(numbers, default=0)`
unfoldable pub greatest : List ToolVersion → ℕ
greatest [] = 0
greatest (v ∷ vs) = let rest = greatest vs in if leb rest v.version then v.version else rest

-- `next_version_number`
unfoldable pub next_version_number : String → String → Dict ToolVersion → ℕ
unfolding greatest
next_version_number tenant_id tool_id d =
    greatest (select (λ v. v.tenant_id == tenant_id && v.tool_id == tool_id) (values d)) + 1

abbrev same_name : Tool → Tool → Bool
same_name t u = t.tenant_id == u.tenant_id && t.canonical_name == u.canonical_name

-- `_validate_seed_uniqueness`
unfoldable pub check_catalog : Dict Tool → Dict ToolVersion → Result (Unit {0})
check_catalog tools versions = do
  reject_if (repeats same_name (values tools)) "tool canonical name already exists in tenant"
  reject_if (repeats same_number (values versions)) "tool version number already exists"
