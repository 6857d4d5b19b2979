-- ===== src/CallTool.antt =====
-- The data of a call, from src/nexusmcp/modules/execution/domain.py. The arguments, the schemas,
-- the configuration of a binding and the data of a result are opaque.
pub mod Gates
pub mod Run
pub mod Refused
use nexus_mcp.Base.{
  ℕ, String, Bool, true, false, ◌&&◌, Option, none, some, eqb, leb, is_blank, codes, ◌||◌, not,
  List, [], ◌∷◌, suc,
}
use nexus_mcp.Execution.Scope.{check_scope}
use nexus_mcp.Base.Int.{ℤ}
use nexus_mcp.Kinds.{ToolSideEffect, ToolVisibility, McpScopeType}
use nexus_mcp.Result.{Result, ok, ◌>>=◌, ◌>>◌, reject_if}
use nexus_mcp.Context.{ActorContext}
use nexus_mcp.Connectors.{ToolBindingType}

pub record CallToolCommand (Args : Type 0) : Type 0 where
  pub context : ActorContext
  pub tool_name : String
  pub arguments : Args
  pub idempotency_key : Option String
  pub approval_id : Option String
  pub mcp_scope_type : McpScopeType
  pub toolset_id : Option String
  pub toolset_revision : Option ℤ

-- `len(value)`
abbrev length : List ℕ → ℕ
length [] = 0
length (c ∷ cs) = suc (length cs)

-- `_IDEMPOTENCY_KEY_CHARACTERS`
abbrev is_key_character : ℕ → Bool
is_key_character c =
    (leb b'A' c && leb c b'Z')
    || (leb b'a' c && leb c b'z')
    || (leb b'0' c && leb c b'9')
    || eqb c b'.'
    || eqb c b'_'
    || eqb c b':'
    || eqb c b'-'

abbrev all_key_characters : List ℕ → Bool
all_key_characters [] = true
all_key_characters (c ∷ cs) = is_key_character c && all_key_characters cs

-- `is_valid_idempotency_key`
unfoldable pub is_valid_idempotency_key : String → Bool
is_valid_idempotency_key value =
    let characters = codes value in
    leb 1 (length characters) && leb (length characters) 128 && all_key_characters characters

abbrev invalid_key? : Option String → Bool
invalid_key? none = false
invalid_key? (some key) = not (is_valid_idempotency_key key)

-- `CallToolCommand(...)`: the constructor runs `__post_init__`.
unfoldable pub new_command : {Args : Type 0} → CallToolCommand Args → Result (CallToolCommand Args)
new_command c = do
  reject_if (is_blank c.tool_name) "tool name must not be blank"
  reject_if (invalid_key? c.idempotency_key)
      "idempotency key must be 1-128 safe ASCII token characters"
  check_scope c.mcp_scope_type c.toolset_id c.toolset_revision
  ok c

pub record ResolvedExecutableTool (Schema Config : Type 0) : Type 0 where
  pub tenant_id : String
  pub tool_id : String
  pub tool_version_id : String
  pub tool_binding_id : String
  pub upstream_service_id : String
  pub canonical_name : String
  pub version : ℤ
  pub input_schema : Schema
  pub output_schema : Option Schema
  pub side_effect : ToolSideEffect
  pub visibility : ToolVisibility
  pub binding_type : ToolBindingType
  pub binding_config : Config
  pub upstream_endpoint : String
  pub upstream_auth_scheme : Option String

pub record ExecutorRequest (Args Schema Config : Type 0) : Type 0 where
  pub execution_id : String
  pub tool : ResolvedExecutableTool Schema Config
  pub arguments : Args
  pub timeout_seconds : ℕ
  pub idempotency_key : Option String

-- `ExecutorRequest(...)`: the constructor runs `__post_init__`.
unfoldable pub new_request :
    {Args Schema Config : Type 0}
    → ExecutorRequest Args Schema Config
    → Result (ExecutorRequest Args Schema Config)
new_request r = do reject_if (eqb r.timeout_seconds 0) "executor timeout must be positive"; ok r

pub record ExecutorResult (Data : Type 0) : Type 0 where
  pub content : Data
  pub content_type : Option String
  pub upstream_status : Option ℕ

pub record CallToolResult (Data : Type 0) : Type 0 where
  pub execution_id : String
  pub content : Data
  pub content_type : Option String
  pub upstream_status : Option ℕ
  pub attempt_count : ℕ
