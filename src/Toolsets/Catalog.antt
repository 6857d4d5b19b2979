-- ===== src/Toolsets/Catalog.antt =====
-- The catalogue as the tool sets read it: src/nexusmcp/modules/toolsets/ports.py and
-- `InMemoryToolsetCatalogReader` of src/nexusmcp/modules/toolsets/adapters/in_memory.py.
use nexus_mcp.Base.{
  ℕ, String, Bool, true, not, ◌&&◌, ◌||◌, Option, none, some, List, [], ◌∷◌, ◌==◌, is_blank,
  is_empty, is_some,
}
use nexus_mcp.Base.Order.{text_lt, sort_by}
use nexus_mcp.Dict.{find, select}
use nexus_mcp.Result.{Result, ok, ◌>>◌, reject_if}
use nexus_mcp.Toolsets.{ToolsetMemberAvailability, is_available}

pub record ToolsetCatalogSnapshot : Type 0 where
  pub tool_id : String
  pub tenant_id : String
  pub availability : ToolsetMemberAvailability
  pub published_tool_version_id : Option String
  pub canonical_name : Option String
  pub description : Option String
  pub serialized_schema_size : ℕ

-- `not value`, of a text or `None`.
abbrev missing : Option String → Bool
missing none = true
missing (some value) = is_empty value

-- `ToolsetCatalogSnapshot(...)`: the constructor runs `__post_init__`. A size is a natural number.
unfoldable pub new_snapshot : ToolsetCatalogSnapshot → Result ToolsetCatalogSnapshot
new_snapshot s = do
  reject_if (is_blank s.tool_id || is_blank s.tenant_id) "catalog snapshot ids must not be blank"
  reject_if (is_available s.availability && missing s.published_tool_version_id)
      "available catalog snapshot requires published version id"
  reject_if (not (is_available s.availability) && is_some s.published_tool_version_id)
      "unavailable catalog snapshot must not expose published version id"
  ok s

-- `list_member_snapshots`
unfoldable pub list_member_snapshots :
    List ToolsetCatalogSnapshot → String → List String → List ToolsetCatalogSnapshot
list_member_snapshots snapshots tenant_id [] = []
list_member_snapshots snapshots tenant_id (tool_id ∷ tool_ids) =
    let rest = list_member_snapshots snapshots tenant_id tool_ids in
    elim (find (λ s. s.tenant_id == tenant_id && s.tool_id == tool_id) snapshots) [
      | none ↦ rest
      | some s ↦ s ∷ rest
    ]

-- `name or ""`
abbrev or_empty : Option String → String
or_empty none = ""
or_empty (some name) = name

-- The order by `(snapshot.canonical_name or "", snapshot.tool_id)`.
unfoldable pub snapshot_lt : ToolsetCatalogSnapshot → ToolsetCatalogSnapshot → Bool
unfolding text_lt
snapshot_lt s t =
    text_lt (or_empty s.canonical_name) (or_empty t.canonical_name)
    || (or_empty s.canonical_name == or_empty t.canonical_name && text_lt s.tool_id t.tool_id)

-- `list_published_snapshots`
unfoldable pub list_published_snapshots :
    List ToolsetCatalogSnapshot → String → List ToolsetCatalogSnapshot
unfolding snapshot_lt sort_by
list_published_snapshots snapshots tenant_id =
    sort_by snapshot_lt
      (select (λ s. s.tenant_id == tenant_id && is_available s.availability) snapshots)
