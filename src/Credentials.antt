-- ===== src/Credentials.antt =====
-- Credentials: src/nexusmcp/modules/credentials/domain.py and adapters/in_memory.py. The value of
-- a secret is a text that no theorem looks into.
pub mod Choice
use nexus_mcp.Base.{
  ℕ, ◌+◌, String, Bool, true, false, not, ◌||◌, Option, none, some, List, [], ◌∷◌, ◌==◌, same_text?,
  is_some, is_blank, is_empty, eqb, ltb, codes, if◌then◌else◌, ◌&&◌,
}
use nexus_mcp.Errors.{nexus, NexusMcpError}
use nexus_mcp.Result.{Result, ok, err, ◌>>=◌, ◌>>◌, reject_if}
use nexus_mcp.Context.{InternalPrincipal}

pub data CredentialSubjectType : Type 0 where
  principal tenant : CredentialSubjectType

pub data CredentialInjectionLocation : Type 0 where
  header query : CredentialInjectionLocation

pub data CredentialValueFormat : Type 0 where
  raw bearer : CredentialValueFormat

pub data CredentialBindingStatus : Type 0 where
  active disabled : CredentialBindingStatus

pub record SecretReference : Type 0 where
  pub provider : String
  pub reference : String
  pub version : Option String

-- `"://" in …`
abbrev has_url : List ℕ → Bool
has_url [] = false
has_url (a ∷ []) = false
has_url (a ∷ b ∷ []) = false
has_url (a ∷ b ∷ c ∷ cs) = (eqb a b':' && eqb b b'/' && eqb c b'/') || has_url (b ∷ c ∷ cs)

-- `SecretReference(...)`: the constructor runs `__post_init__`.
unfoldable pub new_reference : SecretReference → Result SecretReference
new_reference r = do
  reject_if (is_blank r.provider || is_blank r.reference)
      "secret reference provider and reference must not be blank"
  reject_if (has_url (codes r.reference))
      "secret reference must be opaque and must not contain a URL"
  ok r

pub record SecretValue : Type 0 where
  pub value : String

-- `SecretValue(...)`
unfoldable pub new_secret : String → Result SecretValue
new_secret value = do
  reject_if (is_empty value) "secret value must not be empty"
  ok (record { value = value })

pub record CredentialBinding : Type 0 where
  pub id : String
  pub tenant_id : String
  pub subject_type : CredentialSubjectType
  pub subject_id : Option String
  pub tool_id : Option String
  pub upstream_service_id : String
  pub secret_reference : SecretReference
  pub injection_location : CredentialInjectionLocation
  pub injection_name : String
  pub value_format : CredentialValueFormat
  pub status : CredentialBindingStatus

abbrev is_tenant : CredentialSubjectType → Bool
is_tenant CredentialSubjectType.tenant = true
is_tenant CredentialSubjectType.principal = false

abbrev is_active : CredentialBindingStatus → Bool
is_active CredentialBindingStatus.active = true
is_active CredentialBindingStatus.disabled = false

-- `not subject_id`
abbrev missing? : Option String → Bool
missing? none = true
missing? (some s) = is_empty s

-- `CredentialBinding(...)`: the constructor runs `__post_init__`.
unfoldable pub new_binding : CredentialBinding → Result CredentialBinding
new_binding b = do
  reject_if (is_tenant b.subject_type && is_some b.subject_id)
      "tenant credential subject must not declare subject id"
  reject_if (not (is_tenant b.subject_type) && missing? b.subject_id)
      "principal credential subject must declare subject id"
  reject_if (is_blank b.injection_name) "credential injection name must not be blank"
  ok b

pub record ResolvedCredential : Type 0 where
  pub credential_binding_id : String
  pub injection_location : CredentialInjectionLocation
  pub injection_name : String
  pub value_format : CredentialValueFormat
  pub value : SecretValue

-- What `resolve` is asked for.
pub record Wanted : Type 0 where
  pub tenant_id : String
  pub principal : InternalPrincipal
  pub tool_id : String
  pub upstream_service_id : String

-- `binding.tool_id is not None and binding.tool_id != tool_id`
abbrev other_tool : Option String → String → Bool
other_tool none t = false
other_tool (some s) t = not (s == t)

-- `_specificity`
unfoldable pub specificity : CredentialBinding → Wanted → Option ℕ
specificity b w =
    if not (is_active b.status)
    then none
    else if not (b.tenant_id == w.tenant_id) || not (b.upstream_service_id == w.upstream_service_id)
    then none
    else if other_tool b.tool_id w.tool_id
    then none
    else if not (is_tenant b.subject_type)
    then (if not (same_text? b.subject_id (some w.principal.id))
        then none
        else some (30 + (if is_some b.tool_id then 1 else 0)))
    else some (10 + (if is_some b.tool_id then 1 else 0))

-- The loop of `resolve`.
unfoldable pub candidates : List CredentialBinding → Wanted → List (ℕ × CredentialBinding)
unfolding specificity
candidates [] w = []
candidates (b ∷ bs) w =
    let rest = candidates bs w in elim (specificity b w) [ none ↦ rest | some s ↦ (s, b) ∷ rest ]

-- `max(…)` of the scores; a score is at least 10, so 0 stands for the empty list.
unfoldable pub max_score : List (ℕ × CredentialBinding) → ℕ
max_score [] = 0
max_score ((s, b) ∷ rest) = let m = max_score rest in if ltb s m then m else s

-- `finalists`
unfoldable pub with_score : ℕ → List (ℕ × CredentialBinding) → List CredentialBinding
with_score m [] = []
with_score m ((s, b) ∷ rest) = let r = with_score m rest in if eqb s m then b ∷ r else r

-- The end of `resolve`: no candidate, one finalist, or a conflict.
unfoldable pub only_one : List CredentialBinding → Result (Option CredentialBinding)
only_one [] = ok none
only_one (b ∷ []) = ok (some b)
only_one (b ∷ c ∷ rest) = err (nexus NexusMcpError.credential_binding_conflict)

-- `InMemoryCredentialBindingResolver.resolve`
unfoldable pub resolve : List CredentialBinding → Wanted → Result (Option CredentialBinding)
unfolding only_one with_score max_score candidates
resolve bindings w =
    if not (w.principal.tenant_id == w.tenant_id)
    then err (nexus NexusMcpError.tenant_boundary_violation)
    else let found = candidates bindings w in only_one (with_score (max_score found) found)
