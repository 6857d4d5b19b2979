-- ===== src/Policy.antt =====
-- The policy evaluation: src/nexusmcp/modules/policy/domain.py and
-- src/nexusmcp/modules/policy/adapters/rule_based.py. The only action is `call`.
pub mod Ranking
pub mod Choice
use Prim.Native.String.{compare}
use Prim.Native.Nat.{Ordering}
use nexus_mcp.Base.{
  ℕ, ◌+◌, String, Bool, true, false, not, ◌&&◌, ◌||◌, Option, none, some, List, [], ◌∷◌, ◌==◌,
  same_text?, is_some, is_none, is_blank, is_empty, eqb, leb, ltb, if◌then◌else◌,
}
use nexus_mcp.Base.Int.{ℤ, leb_ℤ, eqb_ℤ}
use nexus_mcp.Kinds.{ToolSideEffect}
use nexus_mcp.Result.{Result, ok, ◌>>=◌, ◌>>◌, reject_if}
use nexus_mcp.Context.{InternalPrincipal}

pub data PolicyEffect : Type 0 where
  allow deny require_approval : PolicyEffect

pub data PolicySubjectType : Type 0 where
  principal tenant : PolicySubjectType

pub data ToolPolicyStatus : Type 0 where
  active disabled : ToolPolicyStatus

pub record ToolPolicy : Type 0 where
  pub id : String
  pub tenant_id : String
  pub subject_type : PolicySubjectType
  pub subject_id : Option String
  pub tool_id : Option String
  pub effect : PolicyEffect
  pub priority : ℤ
  pub version : String
  pub reason_code : String
  pub status : ToolPolicyStatus

abbrev is_tenant : PolicySubjectType → Bool
is_tenant PolicySubjectType.tenant = true
is_tenant PolicySubjectType.principal = false

-- `not subject_id`
abbrev missing? : Option String → Bool
missing? none = true
missing? (some s) = is_empty s

-- `ToolPolicy(...)`: the constructor runs `__post_init__`.
unfoldable pub new_policy : ToolPolicy → Result ToolPolicy
new_policy p = do
  reject_if (is_tenant p.subject_type && is_some p.subject_id)
      "tenant policy subject must not declare subject id"
  reject_if (not (is_tenant p.subject_type) && missing? p.subject_id)
      "principal policy subject must declare subject id"
  reject_if (is_blank p.version || is_blank p.reason_code)
      "policy version and reason code must not be blank"
  ok p

pub record PolicyEvaluationInput : Type 0 where
  pub tenant_id : String
  pub principal : InternalPrincipal
  pub tool_id : String
  pub tool_version_id : String
  pub side_effect : ToolSideEffect
  pub arguments_digest : String

-- `PolicyEvaluationInput(...)`: the constructor runs `__post_init__`.
unfoldable pub new_input : PolicyEvaluationInput → Result PolicyEvaluationInput
new_input i = do
  reject_if (not (i.principal.tenant_id == i.tenant_id))
      "policy input principal crossed tenant boundary"
  ok i

pub record PolicyDecision : Type 0 where
  pub effect : PolicyEffect
  pub policy_version : String
  pub reason_code : String

-- `default_deny`
abbrev pub default_deny : PolicyDecision
default_deny = record {
  effect = PolicyEffect.deny;
  policy_version = "default";
  reason_code = "default_deny";
}

abbrev is_active : ToolPolicyStatus → Bool
is_active ToolPolicyStatus.active = true
is_active ToolPolicyStatus.disabled = false

-- `policy.tool_id is not None and policy.tool_id != policy_input.tool_id`
abbrev other_tool : Option String → String → Bool
other_tool none t = false
other_tool (some s) t = not (s == t)

-- `_specificity`
unfoldable pub specificity : ToolPolicy → PolicyEvaluationInput → Option ℕ
specificity p i =
    if not (is_active p.status)
    then none
    else if not (p.tenant_id == i.tenant_id)
    then none
    else if other_tool p.tool_id i.tool_id
    then none
    else if not (is_tenant p.subject_type)
    then (if not (same_text? p.subject_id (some i.principal.id))
        then none
        else some (30 + (if is_some p.tool_id then 1 else 0)))
    else some (10 + (if is_some p.tool_id then 1 else 0))

-- `_EFFECT_PRECEDENCE`
abbrev pub precedence : PolicyEffect → ℕ
precedence PolicyEffect.allow = 1
precedence PolicyEffect.require_approval = 2
precedence PolicyEffect.deny = 3

-- `s > t` on texts, by code points.
unfoldable pub text_gt : String → String → Bool
text_gt s t = elim (compare s t) [ Ordering.gt ↦ true | _ ↦ false ]

-- The first loop of `evaluate`.
unfoldable pub candidates : List ToolPolicy → PolicyEvaluationInput → List (ℕ × ToolPolicy)
unfolding specificity
candidates [] i = []
candidates (p ∷ ps) i =
    let rest = candidates ps i in elim (specificity p i) [ none ↦ rest | some s ↦ (s, p) ∷ rest ]

-- `max(…)` of the scores; a score is at least 10, so 0 stands for the empty list.
unfoldable pub max_score : List (ℕ × ToolPolicy) → ℕ
max_score [] = 0
max_score ((s, p) ∷ rest) = let m = max_score rest in if ltb s m then m else s

-- The policies with the given score.
unfoldable pub with_score : ℕ → List (ℕ × ToolPolicy) → List ToolPolicy
with_score m [] = []
with_score m ((s, p) ∷ rest) = let r = with_score m rest in if eqb s m then p ∷ r else r

-- `max(policy.priority for …)`, of the first and the rest.
unfoldable pub max_priority : ℤ → List ToolPolicy → ℤ
max_priority m [] = m
max_priority m (p ∷ ps) = max_priority (if leb_ℤ p.priority m then m else p.priority) ps

unfoldable pub with_priority : ℤ → List ToolPolicy → List ToolPolicy
with_priority m [] = []
with_priority m (p ∷ ps) = let r = with_priority m ps in if eqb_ℤ p.priority m then p ∷ r else r

-- The key `(precedence, id)` of `q` is greater than that of `p`.
unfoldable pub key_gt : ToolPolicy → ToolPolicy → Bool
key_gt q p =
    ltb (precedence p.effect) (precedence q.effect)
    || (eqb (precedence p.effect) (precedence q.effect) && text_gt q.id p.id)

-- `max(finalists, key=…)`: the first of the greatest.
unfoldable pub select : ToolPolicy → List ToolPolicy → ToolPolicy
unfolding key_gt text_gt
select best [] = best
select best (p ∷ ps) = select (if key_gt p best then p else best) ps

unfoldable pub finalists : List ToolPolicy → List ToolPolicy
unfolding max_priority with_priority
finalists [] = []
finalists (p ∷ ps) = with_priority (max_priority p.priority ps) (p ∷ ps)

unfoldable pub first_of : List ToolPolicy → Option ToolPolicy
unfolding select
first_of [] = none
first_of (p ∷ ps) = some (select p ps)

-- The variable `selected` of `evaluate`; none where there is no candidate.
unfoldable pub selected : List ToolPolicy → PolicyEvaluationInput → Option ToolPolicy
unfolding first_of finalists candidates max_score with_score
selected policies i =
    let found = candidates policies i in first_of (finalists (with_score (max_score found) found))

abbrev pub decision_of : Option ToolPolicy → PolicyDecision
decision_of none = default_deny
decision_of (some p) = record {
  effect = p.effect;
  policy_version = p.version;
  reason_code = p.reason_code;
}

-- `RuleBasedPolicyEvaluator.evaluate`
unfoldable pub evaluate : List ToolPolicy → PolicyEvaluationInput → PolicyDecision
unfolding selected
evaluate policies i = decision_of (selected policies i)
