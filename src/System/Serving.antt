-- ===== src/System/Serving.antt =====
-- `CallTool.execute` keeps what the stores satisfy, whatever it returns or raises.
use nexus_mcp.Base.{ℕ, String, Bool, true, false, Option, none, some, ◌≡◌, refl}
use nexus_mcp.Kinds.{ToolSideEffect}
use nexus_mcp.Errors.{Exc}
use nexus_mcp.Action.{Action, raise_if}
use nexus_mcp.Action.Rules.{Keeps, Keeps-pure, Keeps-raise, Keeps-lift, Keeps-if, Keeps-bind}
use nexus_mcp.Context.{ActorContext, InternalPrincipal}
use nexus_mcp.Policy.{PolicyEffect, PolicyDecision, PolicyEvaluationInput}
use nexus_mcp.Credentials.{CredentialBinding}
use nexus_mcp.CallTool.{CallToolCommand, ResolvedExecutableTool}
use nexus_mcp.CallTool.Gates.{
  Services, require_tool, require_binding, check_key, record_policy_decision, ask_for_approval,
  pass_approval_gate, pass_policy_gate, ask_for_binding, resolve_credential_binding, judge,
  pass_gates,
}
use nexus_mcp.Store.{Ports, World}
use nexus_mcp.System.Writes.{IsSound}
use nexus_mcp.System.Approving.{request_approval-IsSound, record_call_decision-IsSound}

-- Each of the services keeps the invariant: the database is written by the use cases alone.
pub record AreSound {Args Schema Config : Type 0} (services : Services Args Schema Config)
    : Type 0 where
  pub principal : (c : ActorContext) → Keeps IsSound (services.resolve_principal c)
  pub tool : (t n : String) → Keeps IsSound (services.resolve_tool t n)
  pub policy : (i : PolicyEvaluationInput) → Keeps IsSound (services.evaluate_policy i)
  pub endpoint : (u : String) → Keeps IsSound (services.validate_endpoint u)
  pub binding :
      (f : String → InternalPrincipal → String → String → Action World (Option CredentialBinding))
      → services.resolve_binding ≡ some f
      → (t : String) (p : InternalPrincipal) (tool upstream : String)
      → Keeps IsSound (f t p tool upstream)

raise_if-IsSound : (b : Bool) (e : Exc) → Keeps IsSound (raise_if b e)
raise_if-IsSound true e = Keeps-raise e
raise_if-IsSound false e = Keeps-pure tt

check_key-IsSound : (s : ToolSideEffect) (key : Option String) → Keeps IsSound (check_key s key)
unfolding check_key
check_key-IsSound s key = Keeps-bind _ _ (raise_if-IsSound _ _) λ _. raise_if-IsSound _ _

require_tool-IsSound :
    {Schema Config : Type 0} (o : Option (ResolvedExecutableTool Schema Config))
    → Keeps IsSound (require_tool o)
unfolding require_tool
require_tool-IsSound none = Keeps-raise _
require_tool-IsSound (some t) = Keeps-pure t

require_binding-IsSound : (o : Option CredentialBinding) → Keeps IsSound (require_binding o)
unfolding require_binding
require_binding-IsSound none = Keeps-raise _
require_binding-IsSound (some b) = Keeps-pure (some b)

module _ {Args Schema Config : Type 0} (ports : Ports) (services : Services Args Schema Config)
    (has_provider : Bool) (command : CallToolCommand Args) (sound : AreSound services) where
  ask-IsSound :
      (ttl : Option ℕ) (p : InternalPrincipal) (t : ResolvedExecutableTool Schema Config)
      (d : PolicyDecision)
      → Keeps IsSound (ask_for_approval ports services has_provider command ttl p t d)
  unfolding ask_for_approval
  ask-IsSound none p t d = Keeps-raise _
  ask-IsSound (some ttl) p t d =
      Keeps-bind _ _ (request_approval-IsSound ports ttl _) λ a. Keeps-raise _

  approval_gate-IsSound :
      (o : Option String) (p : InternalPrincipal) (t : ResolvedExecutableTool Schema Config)
      (d : PolicyDecision)
      → Keeps IsSound (pass_approval_gate ports services has_provider command o p t d)
  unfolding pass_approval_gate
  approval_gate-IsSound none p t d = ask-IsSound services.approval_ttl p t d
  approval_gate-IsSound (some i) p t d = Keeps-pure tt

  policy_gate-IsSound :
      (e : PolicyEffect) (p : InternalPrincipal) (t : ResolvedExecutableTool Schema Config)
      (d : PolicyDecision)
      → Keeps IsSound (pass_policy_gate ports services has_provider command e p t d)
  unfolding pass_policy_gate record_policy_decision
  policy_gate-IsSound PolicyEffect.allow p t d = Keeps-pure tt
  policy_gate-IsSound PolicyEffect.deny p t d =
      Keeps-bind _ _ (record_call_decision-IsSound ports _) λ _. Keeps-raise _
  policy_gate-IsSound PolicyEffect.require_approval p t d =
      approval_gate-IsSound command.approval_id p t d

  ask_for_binding-IsSound :
      (o : Option
        (String → InternalPrincipal → String → String → Action World (Option CredentialBinding)))
      (b : Bool) (p : InternalPrincipal) (t : ResolvedExecutableTool Schema Config)
      → services.resolve_binding ≡ o
      → Keeps IsSound (ask_for_binding ports services has_provider command o b p t)
  unfolding ask_for_binding
  ask_for_binding-IsSound none b p t e = Keeps-raise _
  ask_for_binding-IsSound (some f) false p t e = Keeps-raise _
  ask_for_binding-IsSound (some f) true p t e =
      Keeps-bind _ _ (sound.binding f e _ _ _ _) require_binding-IsSound

  judge-IsSound :
      (p : InternalPrincipal) (t : ResolvedExecutableTool Schema Config)
      → Keeps IsSound (judge ports services has_provider command p t)
  unfolding judge resolve_credential_binding
  judge-IsSound p t = Keeps-bind _ _ (Keeps-lift _) λ input.
      Keeps-bind _ _ (sound.policy input) λ d.
        Keeps-bind _ _ (policy_gate-IsSound d.effect p t d) λ _.
          Keeps-bind _ _ (sound.endpoint _) λ _.
            Keeps-bind _ _
              (Keeps-if _ _ _ (Keeps-pure none)
                (ask_for_binding-IsSound services.resolve_binding has_provider p t refl))
              λ b. Keeps-pure _

  pub pass_gates-IsSound : Keeps IsSound (pass_gates ports services has_provider command)
  unfolding pass_gates
  pass_gates-IsSound = Keeps-bind _ _ (sound.principal _) λ p.
      Keeps-bind _ _ (sound.tool _ _) λ found. Keeps-bind _ _ (require_tool-IsSound found) λ t.
        Keeps-bind _ _ (raise_if-IsSound _ _) λ _.
          Keeps-bind _ _ (Keeps-lift _)
            λ _. Keeps-bind _ _ (check_key-IsSound _ _) λ _. judge-IsSound p t
