-- ===== src/Catalog.antt =====
-- The tools and their versions: src/nexusmcp/modules/catalog/domain.py. `replace` builds a new
-- object, so each transition runs `__post_init__` again.
pub mod Published
pub mod Store
pub mod Publish
pub mod Review
pub mod Reachable
pub mod Versions
use nexus_mcp.Base.{
  ℕ, String, Bool, true, false, not, ◌&&◌, ◌||◌, Option, none, some, List, [], ◌∷◌, ◌++◌, ◌==◌,
  is_blank, is_none, codes, starts_with, eqb, if◌then◌else◌,
}
use nexus_mcp.Json.{Fields, field_of, is_text}
use nexus_mcp.Kinds.{ToolVisibility, ToolSideEffect}
use nexus_mcp.Result.{Result, ok, ◌>>=◌, ◌>>◌, reject_if}

pub data ToolStatus : Type 0 where
  active disabled : ToolStatus

pub data ToolVersionStatus : Type 0 where
  draft review published retired : ToolVersionStatus

abbrev pub is_draft : ToolVersionStatus → Bool
is_draft ToolVersionStatus.draft = true
is_draft _ = false

abbrev pub is_review : ToolVersionStatus → Bool
is_review ToolVersionStatus.review = true
is_review _ = false

abbrev pub is_published : ToolVersionStatus → Bool
is_published ToolVersionStatus.published = true
is_published _ = false

abbrev pub is_retired : ToolVersionStatus → Bool
is_retired ToolVersionStatus.retired = true
is_retired _ = false

pub record Tool : Type 0 where
  pub id : String
  pub tenant_id : String
  pub namespace : String
  pub canonical_name : String
  pub owner : String
  pub status : ToolStatus

-- `is_reserved_tool_namespace` of src/nexusmcp/shared/tool_namespaces.py.
unfoldable pub is_reserved_tool_namespace : String → Bool
is_reserved_tool_namespace namespace = namespace == "nexus"

-- `Tool(...)`: the constructor runs `__post_init__`.
unfoldable pub new_tool : Tool → Result Tool
unfolding is_reserved_tool_namespace
new_tool t = do
  reject_if (is_blank t.id) "tool id must not be blank"
  reject_if (is_blank t.tenant_id) "tenant id must not be blank"
  reject_if (is_blank t.namespace) "tool namespace must not be blank"
  reject_if (is_blank t.canonical_name) "tool canonical name must not be blank"
  reject_if (is_blank t.owner) "tool owner must not be blank"
  reject_if (not (starts_with (codes t.namespace ++ codes ".") (codes t.canonical_name)))
      "tool canonical name must start with its namespace"
  reject_if (is_reserved_tool_namespace t.namespace) "tool namespace is reserved by NexusMCP"
  ok t

-- `Tool.activate`, of the status.
abbrev activated : Tool → ToolStatus → Result Tool
activated t ToolStatus.active = ok t
activated t ToolStatus.disabled = new_tool (record t { status = ToolStatus.active })

unfoldable pub activate : Tool → Result Tool
activate t = activated t t.status

-- `Tool.disable`, of the status.
abbrev switched_off : Tool → ToolStatus → Result Tool
switched_off t ToolStatus.disabled = ok t
switched_off t ToolStatus.active = new_tool (record t { status = ToolStatus.disabled })

unfoldable pub disable : Tool → Result Tool
disable t = switched_off t t.status

pub record ToolVersion : Type 0 where
  pub id : String
  pub tenant_id : String
  pub tool_id : String
  pub version : ℕ
  pub display_name : String
  pub description : String
  pub input_schema : Fields
  pub output_schema : Option Fields
  pub schema_digest : String
  pub tags : List String
  pub side_effect : ToolSideEffect
  pub visibility : ToolVisibility
  pub status : ToolVersionStatus
  pub created_by : String
  pub created_at : ℕ
  pub reviewed_at : Option ℕ
  pub published_at : Option ℕ
  pub retired_at : Option ℕ

-- `_validate_input_schema`
unfoldable pub validate_input_schema : Fields → Result (Unit {0})
unfolding field_of
validate_input_schema schema =
    reject_if (not (is_text "object" (field_of "type" schema)))
      "tool input schema root type must be object"

-- `_validate_lifecycle_timestamps`
unfoldable pub validate_lifecycle_timestamps : ToolVersion → Result (Unit {0})
validate_lifecycle_timestamps v = do
  reject_if
      ((is_review v.status || is_published v.status || is_retired v.status)
        && is_none v.reviewed_at)
      "review tool version must have reviewed_at"
  reject_if ((is_published v.status || is_retired v.status) && is_none v.published_at)
      "published tool version must have published_at"
  reject_if (is_retired v.status && is_none v.retired_at)
      "retired tool version must have retired_at"

-- `ToolVersion(...)`: the constructor runs `__post_init__`.
unfoldable pub new_version : ToolVersion → Result ToolVersion
unfolding validate_lifecycle_timestamps
new_version v = do
  reject_if (is_blank v.id) "tool version id must not be blank"
  reject_if (is_blank v.tenant_id) "tenant id must not be blank"
  reject_if (is_blank v.tool_id) "tool id must not be blank"
  reject_if (is_blank v.display_name) "tool display name must not be blank"
  reject_if (is_blank v.schema_digest) "schema digest must not be blank"
  reject_if (is_blank v.created_by) "tool version creator must not be blank"
  reject_if (eqb v.version 0) "tool version must be positive"
  validate_input_schema v.input_schema
  validate_lifecycle_timestamps v
  ok v

-- `submit_for_review`
unfoldable pub submit_for_review : ToolVersion → ℕ → Result ToolVersion
submit_for_review v reviewed_at = do
  reject_if (not (is_draft v.status)) "only draft tool version can be submitted for review"
  new_version (record v { status = ToolVersionStatus.review; reviewed_at = some reviewed_at })

-- `ToolVersion.publish`
unfoldable pub publish : ToolVersion → ℕ → Result ToolVersion
publish v published_at = do
  reject_if (not (is_review v.status)) "only review tool version can be published"
  new_version (record v { status = ToolVersionStatus.published; published_at = some published_at })

-- `retire`
unfoldable pub retire : ToolVersion → ℕ → Result ToolVersion
retire v retired_at = do
  reject_if (not (is_published v.status)) "only published tool version can be retired"
  new_version (record v { status = ToolVersionStatus.retired; retired_at = some retired_at })
