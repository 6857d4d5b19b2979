-- ===== src/Connectors.antt =====
-- The bindings of tool versions to what executes them: src/nexusmcp/modules/connectors/domain.py
-- and digests.py. `replace` builds a new object, so each transition runs `__post_init__` again.
pub mod Store
use nexus_mcp.Base.{ℕ, String, Bool, true, false, not, ◌&&◌, Option, none, some, is_blank, is_none}
use nexus_mcp.Json.{Fields, Value}
use nexus_mcp.Result.{Result, ok, ◌>>◌, reject_if}

pub data ToolBindingType : Type 0 where
  http remote_mcp : ToolBindingType

pub data ToolBindingStatus : Type 0 where
  draft published disabled : ToolBindingStatus

abbrev pub is_draft : ToolBindingStatus → Bool
is_draft ToolBindingStatus.draft = true
is_draft _ = false

abbrev pub is_published : ToolBindingStatus → Bool
is_published ToolBindingStatus.published = true
is_published _ = false

pub record ToolBinding : Type 0 where
  pub id : String
  pub tenant_id : String
  pub tool_version_id : String
  pub upstream_service_id : String
  pub imported_operation_id : Option String
  pub binding_type : ToolBindingType
  pub binding_config : Fields
  pub binding_digest : String
  pub status : ToolBindingStatus
  pub created_at : ℕ
  pub published_at : Option ℕ

-- `ToolBinding(...)`: the constructor runs `__post_init__`.
unfoldable pub new_binding : ToolBinding → Result ToolBinding
new_binding b = do
  reject_if (is_blank b.id) "tool binding id must not be blank"
  reject_if (is_blank b.tenant_id) "tenant id must not be blank"
  reject_if (is_blank b.tool_version_id) "tool version id must not be blank"
  reject_if (is_blank b.upstream_service_id) "upstream service id must not be blank"
  reject_if (is_blank b.binding_digest) "binding digest must not be blank"
  reject_if (is_published b.status && is_none b.published_at)
      "published tool binding must have published_at"
  ok b

-- `publish`
unfoldable pub publish : ToolBinding → ℕ → Result ToolBinding
publish b published_at = do
  reject_if (not (is_draft b.status)) "only draft tool binding can be published"
  new_binding (record b { status = ToolBindingStatus.published; published_at = some published_at })

-- `disable`
unfoldable pub disable : ToolBinding → Result ToolBinding
disable b = do
  reject_if (not (is_published b.status)) "only published tool binding can be disabled"
  new_binding (record b { status = ToolBindingStatus.disabled })

-- `binding_type.value`
abbrev pub text_of_type : ToolBindingType → String
text_of_type ToolBindingType.http = "http"
text_of_type ToolBindingType.remote_mcp = "remote_mcp"

-- `calculate_binding_digest`. `sha256_json` is the SHA-256 of the canonical text that `json.dumps`
-- gives a value.
unfoldable pub calculate_binding_digest : (Value → String) → ToolBinding → String
calculate_binding_digest sha256_json b = sha256_json (
    Value.object (
      Fields.field "binding_type" (Value.text (text_of_type b.binding_type)) (
        Fields.field "upstream_service_id" (Value.text b.upstream_service_id)
          (Fields.field "binding_config" (Value.object b.binding_config) Fields.end))))
