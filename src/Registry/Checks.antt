-- ===== src/Registry/Checks.antt =====
-- What a registration is checked for: src/nexusmcp/modules/registry/use_cases.py.
use nexus_mcp.Base.{
  ℕ, String, Bool, true, false, not, ◌&&◌, ◌||◌, Option, List, [], ◌∷◌, ◌==◌, leb, eqb, codes,
  strip, underscores, same_codes, is_blank, is_empty, is_none, length, if◌then◌else◌,
}
use nexus_mcp.Errors.{nexus, NexusMcpError}
use nexus_mcp.Json.{Value, Values, Fields}
use nexus_mcp.Result.{Result, ok, err, ◌>>=◌, ◌>>◌}
use nexus_mcp.Catalog.{is_reserved_tool_namespace}
use nexus_mcp.Registry.{UpstreamServiceType}

-- The parts of `urlsplit(endpoint)` that are read.
pub record SplitUrl : Type 0 where
  pub scheme : String
  pub netloc : String
  pub username : Option String
  pub password : Option String

-- `urlsplit` of the standard library, which may raise, and `str.lower` on code points.
pub record TextPorts : Type 0 where
  pub urlsplit : String → Result SplitUrl
  pub lower : List ℕ → List ℕ

-- `if condition: raise InvalidArgumentsError(…)`
abbrev pub refuse_if : Bool → Result (Unit {0})
refuse_if true = err (nexus NexusMcpError.invalid_arguments)
refuse_if false = ok tt

-- `[a-z0-9_]*`
all_namespace_chars : List ℕ → Bool
all_namespace_chars [] = true
all_namespace_chars (c ∷ cs) =
    let rest = all_namespace_chars cs in
    if (leb b'a' c && leb c b'z') || (leb b'0' c && leb c b'9') || eqb c b'_' then rest else false

-- `[a-z][a-z0-9_]{0,63}`
matches_namespace : List ℕ → Bool
unfolding all_namespace_chars
matches_namespace [] = false
matches_namespace (c ∷ cs) =
    leb b'a' c && leb c b'z' && leb (length cs) 63 && all_namespace_chars cs

-- `_validate_namespace`
unfoldable pub validate_namespace : String → Result (Unit {0})
unfolding matches_namespace is_reserved_tool_namespace
validate_namespace namespace = do
  refuse_if (not (matches_namespace (codes namespace)))
  refuse_if (is_reserved_tool_namespace namespace)

-- `_SENSITIVE_CONFIG_KEYS`
abbrev sensitive_keys : List String
sensitive_keys =
    "access_token" ∷ "api_key" ∷ "authorization" ∷ "authorization_header" ∷ "client_secret"
    ∷ "cookie" ∷ "credential" ∷ "password" ∷ "private_key" ∷ "refresh_token" ∷ "secret" ∷ "token"
    ∷ []

-- `normalized_key in keys`
is_one_of : List ℕ → List String → Bool
unfolding same_codes
is_one_of key [] = false
is_one_of key (k ∷ ks) =
    let rest = is_one_of key ks in if same_codes key (codes k) then true else rest

module _ (texts : TextPorts) where
  -- `str(key).strip().lower().replace("-", "_") in _SENSITIVE_CONFIG_KEYS`
  unfoldable pub is_sensitive : String → Bool
  unfolding is_one_of underscores strip
  is_sensitive key = is_one_of (underscores (texts.lower (strip (codes key)))) sensitive_keys

  unfoldable mutual
    -- `_contains_sensitive_key`, of a value, of the items of a list and of those of a mapping.
    pub contains_sensitive_key : Value → Bool
    contains_sensitive_key Value.null = false
    contains_sensitive_key (Value.truth b) = false
    contains_sensitive_key (Value.number s) = false
    contains_sensitive_key (Value.text s) = false
    contains_sensitive_key (Value.array vs) = any_sensitive vs
    contains_sensitive_key (Value.object fs) = has_sensitive fs

    pub any_sensitive : Values → Bool
    any_sensitive Values.nil = false
    any_sensitive (Values.cons v vs) = contains_sensitive_key v || any_sensitive vs

    pub has_sensitive : Fields → Bool
    has_sensitive Fields.end = false
    has_sensitive (Fields.field key v fs) =
        is_sensitive key || contains_sensitive_key v || has_sensitive fs

  -- The checks of an HTTP endpoint that has been split.
  abbrev pub check_parts : SplitUrl → Result (Unit {0})
  check_parts parts = do
    refuse_if (not (parts.scheme == "http" || parts.scheme == "https") || is_empty parts.netloc)
    refuse_if (not (is_none parts.username) || not (is_none parts.password))

  -- The checks that depend on the type of the service.
  abbrev pub check_endpoint : UpstreamServiceType → String → Result (Unit {0})
  check_endpoint UpstreamServiceType.http endpoint = texts.urlsplit endpoint >>= check_parts
  check_endpoint UpstreamServiceType.remote_mcp endpoint = ok tt

  -- `_validate_registration`
  unfoldable pub validate_registration :
      String → String → Fields → UpstreamServiceType → Result (Unit {0})
  validate_registration owner endpoint config service_type = do
    refuse_if (is_blank owner)
    refuse_if (is_blank endpoint)
    check_endpoint service_type endpoint
    refuse_if (contains_sensitive_key (Value.object config))
