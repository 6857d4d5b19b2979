-- ===== src/CallTool/Refused.antt =====
-- The calls that `CallTool.execute` of src/nexusmcp/modules/execution/call_tool.py refuses at a gate:
-- nothing is planned, no secret is resolved and the executor is not called.
use nexus_mcp.Kinds.{ToolSideEffect}
use nexus_mcp.Base.{not, ℕ, String, Option, none, some, is_some, ◌≡◌, refl, sym, subst, arith}
use nexus_mcp.Errors.{Exc}
use nexus_mcp.Result.{Result, ok, err}
use nexus_mcp.Action.{Action, ◌>>=◌, continue}
use nexus_mcp.Action.Rules.{anything, Post, bind-Post}
use nexus_mcp.Context.{InternalPrincipal}
use nexus_mcp.Policy.{PolicyEffect, PolicyDecision, PolicyEvaluationInput}
use nexus_mcp.Credentials.{ResolvedCredential}
use nexus_mcp.CallTool.{CallToolCommand, ResolvedExecutableTool, ExecutorRequest, ExecutorResult}
use nexus_mcp.CallTool.Gates.{
  Services, Admitted, pass_gates, judge, require_tool, pass_policy_gate, pass_approval_gate,
  ask_for_approval, check_key, is_idempotent_write,
}
use nexus_mcp.CallTool.Run.{Provider, call_tool}
use nexus_mcp.Store.{Ports, World}

-- A call that has raised.
abbrev Raised : {S A : Type 0} → Result A × S → Type 0
Raised o = Post (λ _ _. ⊥) (λ _ _. Unit {0}) o

module _ {S A B : Type 0} where
  -- The first step does not matter where the rest raises.
  skip :
      (m : Action S A) (f : A → Action S B) (s : S)
      → ((a : A) (t : S) → Raised (f a t))
      → Raised ((m >>= f) s)
  skip m f s k =
      bind-Post (λ _ _. Unit {0}) (λ _ _. ⊥) (λ _ _. Unit {0}) m f s (anything (m s)) λ a t _. k a t

  -- The rest does not matter where the first step raises.
  stop : (m : Action S A) (f : A → Action S B) (s : S) → Raised (m s) → Raised ((m >>= f) s)
  stop m f s h = bind-Post (λ _ _. ⊥) (λ _ _. ⊥) (λ _ _. Unit {0}) m f s h λ a t x. absurd x

  -- A step that raised is all that was done.
  ends :
      (m : Action S A) (f : A → Action S B) (s : S)
      → Raised (m s)
      → (e : Exc) × (t : S) × (m s ≡ (err e, t)) × ((m >>= f) s ≡ (err e, t))
  unfolding ◌>>=◌
  ends m f s h = ended (m s) h
    where
      ended :
          (o : Result A × S)
          → Raised o
          → (e : Exc) × (t : S) × (o ≡ (err e, t))
            × ((let (r, u) = o in continue r f u) ≡ (err e, t))
      ended (ok a, t) h = absurd h
      ended (err e, t) h = (e, t, refl, refl)

-- Every decision has the effect.
abbrev pub Always : PolicyEffect → (PolicyEvaluationInput → Action World PolicyDecision) → Type 0
Always effect evaluate =
    (i : PolicyEvaluationInput) (w : World)
    → Post (λ d _. d.effect ≡ effect) (λ _ _. Unit {0}) (evaluate i w)

check_key-Raised :
    (side_effect : ToolSideEffect) (key : Option String) (w : World)
    → is_some key ≡ not (is_idempotent_write side_effect)
    → Raised (check_key side_effect key w)
unfolding check_key ◌>>=◌
check_key-Raised ToolSideEffect.idempotent_write none w h = tt
check_key-Raised ToolSideEffect.idempotent_write (some key) w h = ground arith
check_key-Raised ToolSideEffect.read_only none w h = ground arith
check_key-Raised ToolSideEffect.read_only (some key) w h = tt
check_key-Raised ToolSideEffect.non_idempotent_write none w h = ground arith
check_key-Raised ToolSideEffect.non_idempotent_write (some key) w h = tt
check_key-Raised ToolSideEffect.unknown none w h = ground arith
check_key-Raised ToolSideEffect.unknown (some key) w h = tt

module _ {Args Schema Config Data : Type 0} (ports : Ports) (services : Services Args Schema Config)
    (timeout_seconds : ℕ) (provider : Option Provider)
    (executor : ExecutorRequest Args Schema Config
      → Option ResolvedCredential
      → Action World (ExecutorResult Data))
    (command : CallToolCommand Args) where
  abbrev gates : Action World (Admitted Schema Config)
  gates = pass_gates ports services (is_some provider) command

  abbrev policy_gate :
      PolicyEffect
      → InternalPrincipal
      → ResolvedExecutableTool Schema Config
      → PolicyDecision
      → Action World (Unit {0})
  policy_gate = pass_policy_gate ports services (is_some provider) command

  -- The gates raised, and the call ended with their exception in the world that they left.
  pub record Refused (w : World) : Type 0 where
    pub exception : Exc
    pub left : World
    pub at_gate : gates w ≡ (err exception, left)
    pub of_call :
        call_tool ports services timeout_seconds provider executor command w ≡ (err exception, left)

  refused : (w : World) → Raised (gates w) → Refused w
  unfolding call_tool
  refused w h =
      let (e, t, at_gate, of_call) = ends gates _ w h in
      record { exception = e; left = t; at_gate = at_gate; of_call = of_call }

  judge-Raised :
      (effect : PolicyEffect) (principal : InternalPrincipal)
      (tool : ResolvedExecutableTool Schema Config) (w : World)
      → Always effect services.evaluate_policy
      → ((d : PolicyDecision) (t : World) → Raised (policy_gate effect principal tool d t))
      → Raised (judge ports services (is_some provider) command principal tool w)
  unfolding judge
  judge-Raised effect principal tool w always gate = skip _ _ w λ input t.
      bind-Post (λ (d : PolicyDecision) _. d.effect ≡ effect) (λ _ _. ⊥) (λ _ _. Unit {0}) _ _ t
        (always input t)
        λ d u e.
          stop _ _ u (subst (λ x. Raised (policy_gate x principal tool d u)) (sym e) (gate d u))

  gates-Raised :
      ((principal : InternalPrincipal) (tool : ResolvedExecutableTool Schema Config) (w : World)
        → Raised (judge ports services (is_some provider) command principal tool w))
      → (w : World) → Raised (gates w)
  unfolding pass_gates
  gates-Raised h w = skip _ _ w λ principal t1. skip _ _ t1 λ found t2.
      skip _ _ t2
        λ tool t3. skip _ _ t3 λ _ t4. skip _ _ t4 λ _ t5. skip _ _ t5 λ _ t6. h principal tool t6

  -- Where every decision of the policy evaluator is to deny, the gates raise and the call ends with
  -- their exception in the world that they left: nothing is planned and the executor is not called.
  pub call_tool_denied : (w : World) → Always PolicyEffect.deny services.evaluate_policy → Refused w
  unfolding pass_policy_gate
  call_tool_denied w always = refused w (
      gates-Raised
        (λ principal tool t.
          judge-Raised PolicyEffect.deny principal tool t always λ d u. skip _ _ u λ _ v. tt)
        w)

  ask-Raised :
      (ttl : Option ℕ) (principal : InternalPrincipal) (tool : ResolvedExecutableTool Schema Config)
      (d : PolicyDecision) (w : World)
      → Raised (ask_for_approval ports services (is_some provider) command ttl principal tool d w)
  unfolding ask_for_approval
  ask-Raised none principal tool d w = tt
  ask-Raised (some ttl) principal tool d w = skip _ _ w λ a t. tt

  -- Where every decision is to ask for an approval and the call presents none, the gates raise and
  -- the call ends with their exception in the world that they left.
  pub call_tool_unapproved :
      (w : World)
      → Always PolicyEffect.require_approval services.evaluate_policy
      → command.approval_id ≡ none
      → Refused w
  unfolding pass_policy_gate pass_approval_gate
  call_tool_unapproved w always no_approval = refused w (
      gates-Raised
        (λ principal tool t.
          judge-Raised PolicyEffect.require_approval principal tool t always λ d u.
            subst
              (λ o.
                Raised (
                  pass_approval_gate ports services (is_some provider) command o principal tool d
                    u))
              (sym no_approval) (ask-Raised services.approval_ttl principal tool d u))
        w)

  -- Every tool that is found has the side effect.
  abbrev pub Offers : ToolSideEffect → Type 0
  Offers side_effect =
      (tenant_id tool_name : String) (w : World)
      → Post
          (λ o _.
            (tool : ResolvedExecutableTool Schema Config)
            → o ≡ some tool
            → tool.side_effect ≡ side_effect)
          (λ _ _. Unit {0}) (services.resolve_tool tenant_id tool_name w)

  require_tool-Post :
      (o : Option (ResolvedExecutableTool Schema Config)) (w : World)
      → Post (λ tool _. o ≡ some tool) (λ _ _. Unit {0}) (require_tool o w)
  unfolding require_tool
  require_tool-Post none w = tt
  require_tool-Post (some tool) w = refl

  -- Where every tool that is found has one side effect, a call with an idempotency key for another
  -- effect than an idempotent write, or without a key for that one, ends with an exception that
  -- the gates raised, in the world that they left.
  pub call_tool_wrong_key :
      (w : World) (side_effect : ToolSideEffect)
      → Offers side_effect
      → is_some command.idempotency_key ≡ not (is_idempotent_write side_effect)
      → Refused w
  unfolding pass_gates
  call_tool_wrong_key w side_effect offers wrong = refused w (
      skip _ _ w λ principal t1.
        bind-Post _ (λ _ _. ⊥) (λ _ _. Unit {0}) _ _ t1
          (offers command.context.tenant_id command.tool_name t1)
          λ found t2 known.
            bind-Post (λ tool _. found ≡ some tool) (λ _ _. ⊥) (λ _ _. Unit {0}) _ _ t2
              (require_tool-Post found t2)
              λ tool t3 e. skip _ _ t3 λ _ t4. skip _ _ t4 λ _ t5. stop _ _ t5 (
                subst (λ x. Raised (check_key x command.idempotency_key t5)) (sym (known tool e))
                  (check_key-Raised side_effect command.idempotency_key t5 wrong)))
