-- ===== src/System/Invariant.antt =====
-- What the stores satisfy between units of work, and how each kind of write keeps it.
use nexus_mcp.Base.{
  String, Bool, true, false, Option, none, some, ◌≡◌, ◌≢◌, arith, String_discrete, sym, ◌∙◌, ap,
  ◌⊎◌, inl, inr, subst,
}
use nexus_mcp.Dict.{get, put}
use nexus_mcp.Dict.Laws.{get-put, get-put_cases}
use nexus_mcp.Approval.{ApprovalRequest, is_consumed}
use nexus_mcp.Execution.{ToolExecution}
use nexus_mcp.Store.{Stores}

abbrev consumed? : Option ApprovalRequest → Bool
consumed? none = false
consumed? (some a) = is_consumed a.status

-- The approval is stored, and has been consumed.
unfoldable pub used : String → Stores → Bool
used approval_id s = consumed? (get approval_id s.approvals)

-- Two executions that one idempotency key stands for.
pub record SameKey (e f : ToolExecution) (key : String) : Type 0 where
  pub key_left : e.idempotency_key ≡ some key
  pub key_right : f.idempotency_key ≡ some key
  pub tenant : e.tenant_id ≡ f.tenant_id
  pub principal : e.principal_id ≡ f.principal_id
  pub version : e.tool_version_id ≡ f.tool_version_id

-- The approval was given for the call that the execution makes.
pub record Backs (a : ApprovalRequest) (e : ToolExecution) : Type 0 where
  pub tenant : a.tenant_id ≡ e.tenant_id
  pub principal : a.principal_id ≡ e.principal_id
  pub version : a.tool_version_id ≡ e.tool_version_id
  pub digest : a.arguments_digest ≡ e.arguments_digest
  pub policy : a.policy_version ≡ e.policy_version
  pub key : a.idempotency_key ≡ e.idempotency_key

pub record Inv (s : Stores) : Type 0 where
  pub execution_key : (i : String) (e : ToolExecution) → get i s.executions ≡ some e → e.id ≡ i
  pub approval_key : (i : String) (a : ApprovalRequest) → get i s.approvals ≡ some a → a.id ≡ i
  pub approval_used :
      (i : String) (e : ToolExecution) (approval_id : String)
      → get i s.executions ≡ some e
      → e.approval_id ≡ some approval_id
      → used approval_id s ≡ true
  pub approval_backs :
      (i : String) (e : ToolExecution) (approval_id : String) (a : ApprovalRequest)
      → get i s.executions ≡ some e
      → e.approval_id ≡ some approval_id
      → get approval_id s.approvals ≡ some a
      → Backs a e
  pub single_use :
      (i j : String) (e f : ToolExecution) (approval_id : String)
      → get i s.executions ≡ some e
      → get j s.executions ≡ some f
      → e.approval_id ≡ some approval_id
      → f.approval_id ≡ some approval_id
      → i ≡ j
  pub single_key :
      (i j : String) (e f : ToolExecution) (key : String)
      → get i s.executions ≡ some e
      → get j s.executions ≡ some f
      → SameKey e f key
      → i ≡ j

-- The fields of an execution that no later write changes.
pub record SameCall (e f : ToolExecution) : Type 0 where
  pub same_id : f.id ≡ e.id
  pub same_tenant : f.tenant_id ≡ e.tenant_id
  pub same_principal : f.principal_id ≡ e.principal_id
  pub same_version : f.tool_version_id ≡ e.tool_version_id
  pub same_approval : f.approval_id ≡ e.approval_id
  pub same_key : f.idempotency_key ≡ e.idempotency_key
  pub same_digest : f.arguments_digest ≡ e.arguments_digest
  pub same_policy : f.policy_version ≡ e.policy_version

Backs-SameCall : (a : ApprovalRequest) (e f : ToolExecution) → SameCall e f → Backs a e → Backs a f
Backs-SameCall a e f c b = ground arith

SameKey-sym : (e f : ToolExecution) (key : String) → SameKey e f key → SameKey f e key
SameKey-sym e f key h = ground arith

SameKey-SameCall :
    (e e' f f' : ToolExecution) (key : String)
    → SameCall e e'
    → SameCall f f'
    → SameKey e' f' key
    → SameKey e f key
SameKey-SameCall e e' f f' key c d h = ground arith

abbrev pub put_approval : ApprovalRequest → Stores → Stores
put_approval a s = record s { approvals = put a.id a s.approvals }

abbrev pub put_execution : ToolExecution → Stores → Stores
put_execution e s = record s { executions = put e.id e s.executions }

-- A consumed approval stays consumed under a write that replaces none.
used-put :
    (a : ApprovalRequest) (i : String) (s : Stores)
    → used a.id s ≡ false
    → used i s ≡ true
    → used i (put_approval a s) ≡ true
unfolding used
used-put a i s h u = ground (arith, get-put a.id i a s.approvals)

used_clash : (i k : String) (s : Stores) → used i s ≡ false → i ≡ k → used k s ≡ true → ⊥
used_clash i k s h e u = ground arith

-- An approval is written where none stood, or over one that was not consumed.
pub put_approval-Inv :
    (a : ApprovalRequest) (s : Stores) → Inv s → used a.id s ≡ false → Inv (put_approval a s)
put_approval-Inv a s v h = record {
  execution_key = v.execution_key;
  approval_key = λ i b e. ground (arith, get-put a.id i a s.approvals, v.approval_key i b);
  approval_used = λ i e k p q. used-put a k s h (v.approval_used i e k p q);
  approval_backs = λ i e k b p q r. elim (get-put_cases a.id k a b s.approvals r) [
    | inl (same, new) ↦ absurd (used_clash a.id k s h same (v.approval_used i e k p q))
    | inr old ↦ v.approval_backs i e k b p q old
  ];
  single_use = v.single_use;
  single_key = v.single_key;
}

SameCall-refl : (e : ToolExecution) → SameCall e e
SameCall-refl e = ground arith

-- What the stored execution under a key was, before a write that keeps the fields of its call.
before :
    (e f : ToolExecution) (i : String) (g : ToolExecution) (s : Stores)
    → get e.id s.executions ≡ some e
    → SameCall e f
    → get i (put f.id f s.executions) ≡ some g
    → (g' : ToolExecution) × (get i s.executions ≡ some g') × SameCall g' g
before e f i g s h c p = elim (String_discrete f.id i) [
  | yes q ↦ (e, ground arith, ground (arith, get-put f.id i f s.executions))
  | no q ↦ (g, ground (arith, get-put f.id i f s.executions), SameCall-refl g)
]

-- A stored execution is written over by one that keeps the fields of its call.
pub put_execution-Inv :
    (e f : ToolExecution) (s : Stores)
    → Inv s
    → get e.id s.executions ≡ some e
    → SameCall e f
    → Inv (put_execution f s)
unfolding used
put_execution-Inv e f s v h c = record {
  execution_key =
      λ i g p. let (g', p', c') = before e f i g s h c p in c'.same_id ∙ v.execution_key i g' p';
  approval_key = v.approval_key;
  approval_used = λ i g k p q.
      let (g', p', c') = before e f i g s h c p in
      v.approval_used i g' k p' (sym c'.same_approval ∙ q);
  approval_backs = λ i g k a p q r.
      let (g', p', c') = before e f i g s h c p in
      Backs-SameCall a g' g c' (v.approval_backs i g' k a p' (sym c'.same_approval ∙ q) r);
  single_use = λ i j g1 g2 k p1 p2 q1 q2.
      let (g1', p1', c1) = before e f i g1 s h c p1 in
      let (g2', p2', c2) = before e f j g2 s h c p2 in
      v.single_use i j g1' g2' k p1' p2' (sym c1.same_approval ∙ q1) (sym c2.same_approval ∙ q2);
  single_key = λ i j g1 g2 k p1 p2 q.
      let (g1', p1', c1) = before e f i g1 s h c p1 in
      let (g2', p2', c2) = before e f j g2 s h c p2 in
      v.single_key i j g1' g2' k p1' p2' (SameKey-SameCall g1' g1 g2' g2 k c1 c2 q);
}

-- No stored execution holds the approval.
abbrev pub NotHeld : Option String → Stores → Type 0
NotHeld approval s =
    (i : String) (e : ToolExecution) (approval_id : String)
    → get i s.executions ≡ some e
    → approval ≡ some approval_id
    → e.approval_id ≢ some approval_id

-- No stored execution has the idempotency key of `f`.
abbrev pub NewKey : ToolExecution → Stores → Type 0
NewKey f s =
    (i : String) (e : ToolExecution) (key : String)
    → get i s.executions ≡ some e
    → ¬ SameKey e f key

-- A new execution is written, whose approval is consumed and held by no other, and whose key no
-- other has.
pub add_execution-Inv :
    (f : ToolExecution) (s : Stores)
    → Inv s
    → ((k : String) → f.approval_id ≡ some k → used k s ≡ true)
    → ((k : String) (a : ApprovalRequest)
        → f.approval_id ≡ some k
        → get k s.approvals ≡ some a
        → Backs a f)
    → NotHeld f.approval_id s
    → NewKey f s
    → Inv (put_execution f s)
unfolding used
add_execution-Inv f s v u d n w = record {
  execution_key = λ i g p. ground (arith, get-put f.id i f s.executions, v.execution_key i g);
  approval_key = v.approval_key;
  approval_used = λ i g k p q. elim (split i g p) [
    | inl (a, b) ↦ u k (ap (λ (e : ToolExecution). e.approval_id) b ∙ q)
    | inr old ↦ v.approval_used i g k old q
  ];
  approval_backs = λ i g k a p q r. elim (split i g p) [
    | inl (x, y) ↦
        subst (λ (e : ToolExecution). Backs a e) y
          (d k a (ap (λ (e : ToolExecution). e.approval_id) y ∙ q) r)
    | inr old ↦ v.approval_backs i g k a old q r
  ];
  single_use = λ i j g h k p q x y. elim (split i g p) [
    | inl (a, b) ↦ elim (split j h q) [
      | inl (c, d) ↦ sym a ∙ c
      | inr old ↦ absurd (n j h k old (ap (λ (e : ToolExecution). e.approval_id) b ∙ x) y)
    ]
    | inr old ↦ elim (split j h q) [
      | inl (c, d) ↦ absurd (n i g k old (ap (λ (e : ToolExecution). e.approval_id) d ∙ y) x)
      | inr older ↦ v.single_use i j g h k old older x y
    ]
  ];
  single_key = λ i j g h k p q x. elim (split i g p) [
    | inl (a, b) ↦ elim (split j h q) [
      | inl (c, d) ↦ sym a ∙ c
      | inr old ↦ absurd (w j h k old (rw b (SameKey-sym g h k x)))
    ]
    | inr old ↦ elim (split j h q) [
      | inl (c, d) ↦ absurd (w i g k old (rw d x))
      | inr older ↦ v.single_key i j g h k old older x
    ]
  ];
}
  where
    split :
        (i : String) (g : ToolExecution)
        → get i (put f.id f s.executions) ≡ some g
        → ((f.id ≡ i) × (f ≡ g)) ⊎ (get i s.executions ≡ some g)
    split i g p = get-put_cases f.id i f g s.executions p
