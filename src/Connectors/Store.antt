-- ===== src/Connectors/Store.antt =====
-- `InMemoryToolBindingRepository` of src/nexusmcp/modules/connectors/adapters/in_memory.py. What
-- changes the repository gives the changed dictionary, or raises and leaves it alone.
use nexus_mcp.Base.{
  String, Bool, false, not, ◌&&◌, Option, none, some, [], ◌==◌, if◌then◌else◌, is_none,
}
use nexus_mcp.Dict.{Dict, get, put, values, find, index, repeats}
use nexus_mcp.Result.{Result, ok, ◌>>◌, reject_if}
use nexus_mcp.Connectors.{ToolBinding}

abbrev pub id_of : ToolBinding → String
id_of b = b.id

-- `get_by_id`, of what stands under the identifier.
abbrev pub of_tenant : String → Option ToolBinding → Option ToolBinding
of_tenant tenant_id none = none
of_tenant tenant_id (some b) = if b.tenant_id == tenant_id then some b else none

-- `get_by_id`, and `get_for_update`, which calls it.
unfoldable pub binding_by_id : String → String → Dict ToolBinding → Option ToolBinding
binding_by_id tenant_id binding_id d = of_tenant tenant_id (get binding_id d)

-- `get_by_tool_version`, and `get_by_tool_version_for_update`, which calls it.
unfoldable pub binding_of_version : String → String → Dict ToolBinding → Option ToolBinding
binding_of_version tenant_id tool_version_id d =
    find (λ b. b.tenant_id == tenant_id && b.tool_version_id == tool_version_id) (values d)

-- `version_owner is not None and version_owner.id != binding.id`
abbrev is_other : ToolBinding → Option ToolBinding → Bool
is_other b none = false
is_other b (some owner) = not (owner.id == b.id)

-- `add`
unfoldable pub add_binding : String → ToolBinding → Dict ToolBinding → Result (Dict ToolBinding)
unfolding binding_of_version
add_binding tenant_id b d = do
  reject_if (not (tenant_id == b.tenant_id)) "entity tenant does not match repository tenant scope"
  reject_if (not (is_none (get b.id d))) "tool binding id already exists"
  reject_if (not (is_none (binding_of_version tenant_id b.tool_version_id d)))
      "tool version already has a binding"
  ok (put b.id b d)

-- `save`
unfoldable pub save_binding : String → ToolBinding → Dict ToolBinding → Result (Dict ToolBinding)
unfolding binding_of_version binding_by_id
save_binding tenant_id b d = do
  reject_if (not (tenant_id == b.tenant_id)) "entity tenant does not match repository tenant scope"
  reject_if (is_none (binding_by_id tenant_id b.id d)) "tool binding does not exist in tenant"
  reject_if (is_other b (binding_of_version tenant_id b.tool_version_id d))
      "tool version already has a binding"
  ok (put b.id b d)

-- `clone`: the constructor, with `_validate_seed_uniqueness`.
unfoldable pub clone_bindings : Dict ToolBinding → Result (Dict ToolBinding)
clone_bindings d = do
  reject_if
      (repeats (λ b c. b.tool_version_id == c.tool_version_id) (values (index id_of [] (values d))))
      "tool version already has a binding"
  ok (index id_of [] (values d))
