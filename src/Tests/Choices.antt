-- ===== src/Tests/Choices.antt =====
-- Two policies that apply to one call.
use nexus_mcp.Base.{ℕ, List, [], ◌∷◌, ◌≡◌, inl, inr, none, some, refl, String_discrete}
use nexus_mcp.Base.Int.{pos}
use nexus_mcp.Kinds.{ToolSideEffect, PrincipalType}
use nexus_mcp.Policy.{
  ToolPolicy, PolicyEffect, PolicySubjectType, ToolPolicyStatus, PolicyEvaluationInput, selected,
  specificity, evaluate, candidates, max_score, with_score, finalists, max_priority, with_priority,
  first_of, select, key_gt,
}
use nexus_mcp.Policy.Choice.{Outranks, selected-Outranks, selected-none, evaluate_deny}
use nexus_mcp.Policy.Ranking.{In}

abbrev general : ToolPolicy
general = record {
  id = "general";
  tenant_id = "tenant";
  subject_type = PolicySubjectType.tenant;
  subject_id = none;
  tool_id = some "tool";
  effect = PolicyEffect.allow;
  priority = pos 5;
  version = "1";
  reason_code = "open";
  status = ToolPolicyStatus.active;
}

abbrev strict : ToolPolicy
strict = record general { id = "strict"; effect = PolicyEffect.deny; reason_code = "closed" }

abbrev call : PolicyEvaluationInput
call = record {
  tenant_id = "tenant";
  principal = record {
    id = "agent";
    tenant_id = "tenant";
    principal_type = PrincipalType.agent_service;
    authn_method = "key";
  };
  tool_id = "tool";
  tool_version_id = "version";
  side_effect = ToolSideEffect.read_only;
  arguments_digest = "digest";
}

abbrev policies : List ToolPolicy
policies = general ∷ strict ∷ []

selected_lem : selected policies call ≡ some strict
unfolding selected candidates specificity max_score with_score finalists max_priority with_priority
    first_of select key_gt String_discrete
selected_lem = refl

specificity_lem : specificity strict call ≡ some 11
unfolding specificity String_discrete
specificity_lem = refl

general_score : specificity general call ≡ some 11
unfolding specificity String_discrete
general_score = refl

nothing : selected [] call ≡ none
unfolding selected candidates finalists max_score with_score first_of
nothing = refl

selected-Outranks_example :
    (s : ℕ) × (specificity strict call ≡ some s) × Outranks s strict 11 general
selected-Outranks_example =
    selected-Outranks policies call strict general 11 selected_lem (inl refl) general_score

-- A policy that is switched off.
abbrev off : ToolPolicy
off = record general { status = ToolPolicyStatus.disabled }

none_chosen : selected (off ∷ []) call ≡ none
unfolding selected candidates specificity finalists max_score with_score first_of
none_chosen = refl

off_only : (q : ToolPolicy) → In q (off ∷ []) → specificity q call ≡ none
off_only q (inl e) = rw e off_score
  where
    off_score : specificity off call ≡ none
    off_score = selected-none (off ∷ []) call off none_chosen (inl refl)
off_only q (inr h) = absurd h

evaluate_deny_example : (evaluate policies call).effect ≡ PolicyEffect.deny
evaluate_deny_example =
    evaluate_deny policies call strict strict 11 selected_lem (inr (inl refl)) refl specificity_lem
      specificity_lem refl
