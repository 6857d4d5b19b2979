-- ===== src/Tests/Secrets.antt =====
-- Which of two credentials a call is given.
use nexus_mcp.Base.{ℕ, ◌<◌, ◌⊎◌, inl, List, [], ◌∷◌, ◌≡◌, refl, none, some, String_discrete}
use nexus_mcp.Kinds.{PrincipalType}
use nexus_mcp.Result.{ok}
use nexus_mcp.Credentials.{
  CredentialSubjectType, CredentialInjectionLocation, CredentialValueFormat,
  CredentialBindingStatus, CredentialBinding, Wanted, specificity, candidates, max_score,
  with_score, only_one, resolve,
}
use nexus_mcp.Credentials.Choice.{In, IsFor, resolve-IsFor, resolve_most}

abbrev shared : CredentialBinding
shared = record {
  id = "shared";
  tenant_id = "tenant";
  subject_type = CredentialSubjectType.tenant;
  subject_id = none;
  tool_id = none;
  upstream_service_id = "upstream";
  secret_reference = record { provider = "environment"; reference = "SHARED"; version = none };
  injection_location = CredentialInjectionLocation.header;
  injection_name = "Authorization";
  value_format = CredentialValueFormat.bearer;
  status = CredentialBindingStatus.active;
}

abbrev own : CredentialBinding
own = record shared {
  id = "own";
  subject_type = CredentialSubjectType.principal;
  subject_id = some "agent";
}

abbrev wanted : Wanted
wanted = record {
  tenant_id = "tenant";
  principal = record {
    id = "agent";
    tenant_id = "tenant";
    principal_type = PrincipalType.agent_service;
    authn_method = "key";
  };
  tool_id = "tool";
  upstream_service_id = "upstream";
}

abbrev stored : List CredentialBinding
stored = shared ∷ own ∷ []

resolved : resolve stored wanted ≡ ok (some own)
unfolding resolve candidates specificity max_score with_score only_one String_discrete
resolved = refl

shared_score : specificity shared wanted ≡ some 10
unfolding specificity String_discrete
shared_score = refl

resolve-IsFor_example : In own stored × IsFor own wanted
resolve-IsFor_example = resolve-IsFor stored wanted own resolved

resolve_most_example : (s : ℕ) × (specificity own wanted ≡ some s) × ((10 < s) ⊎ (shared ≡ own))
resolve_most_example = resolve_most stored wanted own shared 10 resolved (inl refl) shared_score
