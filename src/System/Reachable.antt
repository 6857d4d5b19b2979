-- ===== src/System/Reachable.antt =====
-- What holds of every state that the program reaches from empty stores.
use nexus_mcp.Base.{String, some, List, [], ◌∷◌, ◌≡◌, arith, true}
use nexus_mcp.Dict.{get}
use nexus_mcp.Approval.{ApprovalRequest, ApprovalStatus}
use nexus_mcp.Execution.{ToolExecution}
use nexus_mcp.Store.{Ports, World, Stores}
use nexus_mcp.System.{Op, step, run, initial}
use nexus_mcp.System.Invariant.{SameKey, used, Backs}
use nexus_mcp.System.Writes.{IsSound}
use nexus_mcp.System.Approving.{
  request_approval-IsSound, decide_approval-IsSound, consume_approval-IsSound, get_approval-IsSound,
  record_call_decision-IsSound, record_scope_denial-IsSound,
}
use nexus_mcp.System.Planning.{plan-IsSound}
use nexus_mcp.System.Finishing.{start_attempt-IsSound, finish-IsSound, finish_attempt-IsSound}

step-IsSound : (ports : Ports) (op : Op) (w : World) → IsSound w → IsSound (step ports op w)
unfolding step
step-IsSound ports (Op.request ttl c) w v = (request_approval-IsSound ports ttl c).kept w v
step-IsSound ports (Op.decide c) w v = (decide_approval-IsSound ports c).kept w v
step-IsSound ports (Op.consume c) w v = (consume_approval-IsSound ports c).kept w v
step-IsSound ports (Op.look q) w v = (get_approval-IsSound q).kept w v
step-IsSound ports (Op.planning c) w v = (plan-IsSound ports c).kept w v
step-IsSound ports (Op.starting t e) w v = (start_attempt-IsSound ports t e).kept w v
step-IsSound ports (Op.finishing t e s c k) w v = (finish-IsSound ports t e s c k).kept w v
step-IsSound ports (Op.finishing_attempt t a s c k u) w v =
    (finish_attempt-IsSound ports t a s c k u).kept w v
step-IsSound ports (Op.deciding c) w v = (record_call_decision-IsSound ports c).kept w v
step-IsSound ports (Op.denying c) w v = (record_scope_denial-IsSound ports c).kept w v
step-IsSound ports (Op.wait ticks issued) w v = v

run-IsSound : (ports : Ports) (ops : List Op) (w : World) → IsSound w → IsSound (run ports ops w)
unfolding run
run-IsSound ports [] w v = v
run-IsSound ports (op ∷ ops) w v =
    run-IsSound ports ops (step ports op w) (step-IsSound ports op w v)

initial-IsSound : IsSound initial
unfolding get
initial-IsSound = record {
  execution_key = λ i e p. cc;
  approval_key = λ i a p. cc;
  approval_used = λ i e k p q. cc;
  approval_backs = λ i e k a p q r. cc;
  single_use = λ i j e f k p q x y. cc;
  single_key = λ i j e f k p q x. cc;
}

-- The stores after a sequence of calls.
abbrev pub reached : Ports → List Op → Stores
reached ports ops = (run ports ops initial).stores

used_stored :
    (k : String) (s : Stores)
    → used k s ≡ true
    → (a : ApprovalRequest) × (get k s.approvals ≡ some a) × (a.status ≡ ApprovalStatus.consumed)
unfolding used
used_stored k s u = ground arith

-- After every sequence of calls from empty stores, the approval that a stored execution names is
-- stored, has been consumed, and was given for this very call: the same tenant, principal, tool
-- version, arguments digest, policy version and idempotency key.
pub execution_is_approved :
    (ports : Ports) (ops : List Op) (i : String) (e : ToolExecution) (approval_id : String)
    → get i (reached ports ops).executions ≡ some e
    → e.approval_id ≡ some approval_id
    → (a : ApprovalRequest) × (get approval_id (reached ports ops).approvals ≡ some a)
      × (a.status ≡ ApprovalStatus.consumed)
      × Backs a e
execution_is_approved ports ops i e k p q =
    let v = run-IsSound ports ops initial initial-IsSound in
    let (a, stored, status) = used_stored k (reached ports ops) (v.approval_used i e k p q) in
    (a, stored, status, v.approval_backs i e k a p q stored)

-- After every sequence of calls from empty stores, two stored executions that name the same approval
-- are stored under the same identifier: an approval lets at most one execution through.
pub approval_single_use :
    (ports : Ports) (ops : List Op) (i j : String) (e f : ToolExecution) (approval_id : String)
    → get i (reached ports ops).executions ≡ some e
    → get j (reached ports ops).executions ≡ some f
    → e.approval_id ≡ some approval_id
    → f.approval_id ≡ some approval_id
    → i ≡ j
approval_single_use ports ops = (run-IsSound ports ops initial initial-IsSound).single_use

-- After every sequence of calls from empty stores, two stored executions of one tenant, principal and
-- tool version with the same idempotency key are stored under the same identifier.
pub idempotency_key_single :
    (ports : Ports) (ops : List Op) (i j : String) (e f : ToolExecution) (key : String)
    → get i (reached ports ops).executions ≡ some e
    → get j (reached ports ops).executions ≡ some f
    → SameKey e f key
    → i ≡ j
idempotency_key_single ports ops = (run-IsSound ports ops initial initial-IsSound).single_key
