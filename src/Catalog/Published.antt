-- ===== src/Catalog/Published.antt =====
-- `PublishedTool` of src/nexusmcp/modules/catalog/domain.py.
use nexus_mcp.Base.{ℕ, String, Bool, true, false, not, Option, List, ◌==◌, is_blank, eqb}
use nexus_mcp.Json.{Fields}
use nexus_mcp.Kinds.{ToolVisibility, ToolSideEffect}
use nexus_mcp.Result.{Result, ok, ◌>>◌, reject_if}
use nexus_mcp.Catalog.{validate_input_schema}

pub record PublishedTool : Type 0 where
  pub tool_id : String
  pub tool_version_id : String
  pub tenant_id : String
  pub canonical_name : String
  pub display_name : String
  pub description : String
  pub input_schema : Fields
  pub output_schema : Option Fields
  pub version : ℕ
  pub visibility : ToolVisibility
  pub side_effect : ToolSideEffect
  pub schema_digest : String
  pub owner : Option String
  pub tags : List String

-- `PublishedTool(...)`: the constructor runs `__post_init__`.
unfoldable pub new_published_tool : PublishedTool → Result PublishedTool
unfolding validate_input_schema
new_published_tool t = do
  reject_if (is_blank t.tool_id) "tool id must not be blank"
  reject_if (is_blank t.tool_version_id) "tool version id must not be blank"
  reject_if (is_blank t.tenant_id) "tenant id must not be blank"
  reject_if (is_blank t.canonical_name) "tool canonical name must not be blank"
  reject_if (is_blank t.display_name) "tool display name must not be blank"
  reject_if (is_blank t.schema_digest) "schema digest must not be blank"
  reject_if (eqb t.version 0) "tool version must be positive"
  validate_input_schema t.input_schema
  ok t

-- `is_visible_to`, of the visibility.
unfoldable pub visible : ToolVisibility → String → Bool
visible ToolVisibility.public principal_id = true
visible ToolVisibility.authenticated principal_id = not (principal_id == "anonymous")
visible ToolVisibility.restricted principal_id = false

-- `is_visible_to`
unfoldable pub is_visible_to : PublishedTool → String → Bool
unfolding visible
is_visible_to t principal_id = visible t.visibility principal_id
