-- ===== src/System/Requested.antt =====
-- An approval that was requested can be read again: `RequestApproval` and `GetApproval` of
-- src/nexusmcp/modules/approval/use_cases.py.
use nexus_mcp.Base.{ℕ, String, some, ◌≡◌, sym, subst, arith}
use nexus_mcp.Dict.{get}
use nexus_mcp.Dict.Laws.{get-put_self}
use nexus_mcp.Errors.{Exc}
use nexus_mcp.Result.{Result, ok, err}
use nexus_mcp.Action.{Action, pure, lift, continue, ◌>>=◌, ◌>>◌}
use nexus_mcp.Action.Rules.{keeping, anything, Post, bind-Post, Keeps, keeps_rules}
use nexus_mcp.Audit.{AuditEvent}
use nexus_mcp.Approval.{ApprovalRequest}
use nexus_mcp.Approval.Consume.{require_found}
use nexus_mcp.Approval.UseCases.{
  RequestApprovalCommand, GetApprovalQuery, request_approval, request_event, get_approval,
}
use nexus_mcp.Store.{Ports, Stores, World, Session, now, new_id, outside, commit, with_unit_of_work}
use nexus_mcp.Store.Approvals
use nexus_mcp.Store.Audits

-- The approval is stored for the tenant.
record Kept (tenant_id : String) (a : ApprovalRequest) (s : Stores) : Type 0 where
  stored : get a.id s.approvals ≡ some a
  tenant : a.tenant_id ≡ tenant_id

abbrev Holds : String → ApprovalRequest → Session → Type 0
Holds tenant_id a s = Kept tenant_id a s.working

abbrev Open : {S : Type 0} → Exc → S → Type 0
Open e s = Unit {0}

add-Holds :
    (tenant_id : String) (a : ApprovalRequest) (s : Session)
    → Post (λ _ t. Holds tenant_id a t) Open (Approvals.add tenant_id a s)
unfolding Approvals.add
add-Holds tenant_id a s = ground (arith, get-put_self a.id a s.working.approvals)

append-Holds :
    (tenant_id : String) (a : ApprovalRequest) (e : AuditEvent)
    → Keeps (Holds tenant_id a) (Audits.append e)
unfolding Audits.append
append-Holds tenant_id a e = record { kept = λ s v. ground arith }

new_id-Holds :
    (tenant_id : String) (a : ApprovalRequest) (ports : Ports)
    → Keeps (Holds tenant_id a) (outside (new_id ports))
unfolding outside new_id
new_id-Holds tenant_id a ports = record { kept = λ s v. v }

event-Holds :
    (tenant_id : String) (a : ApprovalRequest) (ports : Ports) (c : RequestApprovalCommand) (at : ℕ)
    → Keeps (Holds tenant_id a) (request_event ports c at)
unfolding request_event
event-Holds tenant_id a ports c at = search (keeps_rules, new_id-Holds) depth 8

module _ {A B : Type 0} (tenant_id : String) (a : ApprovalRequest) where
  holding :
      (Q : B → Session → Type 0) (m : Action Session A) (g : A → Action Session B) (s : Session)
      → Keeps (Holds tenant_id a) m
      → Holds tenant_id a s
      → ((x : A) (t : Session) → Holds tenant_id a t → Post Q Open (g x t))
      → Post Q Open ((m >>= g) s)
  holding Q m g s k v h = keeping (Holds tenant_id a) Q Open m g s k v (λ _ _ _. tt) h

commit-Kept :
    (tenant_id : String) (a : ApprovalRequest) (s : Session)
    → Holds tenant_id a s
    → Post (λ _ t. Kept tenant_id a t.world.stores) Open (commit s)
unfolding commit
commit-Kept tenant_id a s v = v

-- The unit of work of `RequestApproval.execute`, and the result.
abbrev body : Ports → RequestApprovalCommand → ℕ → ApprovalRequest → Action Session (Unit {0})
body ports c at a =
    Approvals.add c.context.tenant_id a
    >> (request_event ports c at >>= λ event. Audits.append event >> commit)

body-Kept :
    (ports : Ports) (c : RequestApprovalCommand) (at : ℕ) (a : ApprovalRequest) (s : Session)
    → Post (λ _ t. Kept c.context.tenant_id a t.world.stores) Open (body ports c at a s)
body-Kept ports c at a s =
    bind-Post (λ _ t. Holds c.context.tenant_id a t) _ _ (Approvals.add c.context.tenant_id a) _ s
      (add-Holds c.context.tenant_id a s)
      λ _ t1 v1.
        holding c.context.tenant_id a _ _ _ t1 (event-Holds c.context.tenant_id a ports c at) v1
          λ event t2 v2.
            holding c.context.tenant_id a _ _ _ t2 (append-Holds c.context.tenant_id a event) v2
              λ _ t3 v3. commit-Kept c.context.tenant_id a t3 v3

unit_of_work :
    (tenant_id : String) (a : ApprovalRequest) (m : Action Session (Unit {0})) (w : World)
    → Post
        (λ _ t. Kept tenant_id a t.world.stores)
        Open
        (m (record { world = w; working = w.stores }))
    → Post (λ b t. Kept tenant_id b t.stores) Open ((with_unit_of_work m >> pure a) w)
unfolding with_unit_of_work ◌>>=◌
unit_of_work tenant_id a m w h = closed (m (record { world = w; working = w.stores })) h
  where
    closed :
        (o : Result (Unit {0}) × Session)
        → Post (λ _ t. Kept tenant_id a t.world.stores) Open o
        → Post (λ b t. Kept tenant_id b t.stores) Open (continue o.0 (λ _. pure a) o.1.world)
    closed (ok x, s) v = v
    closed (err e, s) v = tt

request_approval-Kept :
    (ports : Ports) (ttl : ℕ) (c : RequestApprovalCommand) (w : World)
    → Post (λ a t. Kept c.context.tenant_id a t.stores) Open (request_approval ports ttl c w)
unfolding request_approval
request_approval-Kept ports ttl c w =
    bind-Post (λ _ _. Unit {0}) _ Open (now ports) _ w (anything _)
      λ at t1 _.
        bind-Post (λ _ _. Unit {0}) _ Open (new_id ports) _ t1 (anything _)
          λ id t2 _.
            bind-Post (λ _ _. Unit {0}) _ Open (lift _) _ t2 (anything _)
              λ a t3 _.
                unit_of_work c.context.tenant_id a (body ports c at a) t3 (body-Kept ports c at a _)

get_approval-Kept :
    (q : GetApprovalQuery) (a : ApprovalRequest) (w : World)
    → Kept q.context.tenant_id a w.stores
    → q.approval_id ≡ a.id
    → get_approval q w ≡ (ok a, w)
unfolding get_approval with_unit_of_work ◌>>=◌ Approvals.get_by_id require_found
get_approval-Kept q a w k e = ground arith

-- What `RequestApproval` returned, `GetApproval` returns in the world that it left, when it is asked
-- for the same tenant and the identifier that was returned.
pub get_approval-request_approval :
    (ports : Ports) (ttl : ℕ) (c : RequestApprovalCommand) (q : GetApprovalQuery) (w w' : World)
    (a : ApprovalRequest)
    → request_approval ports ttl c w ≡ (ok a, w')
    → q.context.tenant_id ≡ c.context.tenant_id
    → q.approval_id ≡ a.id
    → get_approval q w' ≡ (ok a, w')
get_approval-request_approval ports ttl c q w w' a h t e =
    get_approval-Kept q a w'
      (subst (λ x. Kept x a w'.stores) (sym t)
        (subst (Post (λ b t. Kept c.context.tenant_id b t.stores) Open) h
          (request_approval-Kept ports ttl c w)))
      e
