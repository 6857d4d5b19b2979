-- ===== src/Audit/Scope.antt =====
-- `McpScopeAuditEvidence` of src/nexusmcp/modules/audit/scope.py.
use nexus_mcp.Base.{
  String, Bool, true, false, not, ◌&&◌, ◌||◌, Option, none, some, List, [], ◌∷◌, ◌++◌, ◌==◌,
  is_some, is_none, is_empty, if◌then◌else◌,
}
use nexus_mcp.Base.Int.{ℤ, pos, leb_ℤ}
use nexus_mcp.Result.{Result, ok, ◌>>◌, reject_if}

-- `AuditMetadataValue`, as far as the program writes it.
pub data MetadataValue : Type 0 where
  text : String → MetadataValue
  number : ℤ → MetadataValue

-- A dictionary; the program writes no key twice.
abbrev pub Metadata : Type 0
Metadata = List (String × MetadataValue)

pub record ScopeEvidence : Type 0 where
  pub scope_type : String
  pub toolset_id : Option String
  pub toolset_revision : Option ℤ
  pub toolset_slug : Option String

abbrev not_positive? : Option ℤ → Bool
not_positive? none = false
not_positive? (some r) = leb_ℤ r (pos 0)

-- `bool != bool`
abbrev differ : Bool → Bool → Bool
differ true b = not b
differ false b = b

-- `McpScopeAuditEvidence(...)`: the constructor runs `__post_init__`.
unfoldable pub new_evidence : ScopeEvidence → Result ScopeEvidence
new_evidence v = do
  reject_if (not (v.scope_type == "root" || v.scope_type == "toolset"))
      "audit MCP scope type was invalid"
  reject_if
      (v.scope_type == "root"
        && (is_some v.toolset_id || is_some v.toolset_revision || is_some v.toolset_slug))
      "root audit scope must not contain toolset context"
  reject_if (differ (is_none v.toolset_id) (is_none v.toolset_revision))
      "audit toolset id and revision must appear together"
  reject_if (not_positive? v.toolset_revision) "audit toolset revision must be positive"
  ok v

-- `denial_reason_code or …`: an empty text counts as absent.
reason_code : Option String → String → String
reason_code none scope =
    if scope == "toolset" then "active_toolset_grant" else "granted_toolset_union"
reason_code (some code) scope =
    if is_empty code
    then (if scope == "toolset" then "active_toolset_grant" else "granted_toolset_union")
    else code

text_entry : String → Option String → Metadata
text_entry key none = []
text_entry key (some value) = (key, text value) ∷ []

number_entry : String → Option ℤ → Metadata
number_entry key none = []
number_entry key (some value) = (key, number value) ∷ []

-- `metadata`
unfoldable pub scope_metadata : Option String → ScopeEvidence → Metadata
unfolding reason_code text_entry number_entry
scope_metadata denial v =
    ("mcp_scope_type", text v.scope_type)
    ∷ ("scope_reason_code", text (reason_code denial v.scope_type))
    ∷ (text_entry "toolset_id" v.toolset_id
        ++ (number_entry "toolset_revision" v.toolset_revision
            ++ text_entry "toolset_slug" v.toolset_slug))
