-- ===== src/System/Locked.antt =====
-- `consume_locked_approval` of src/nexusmcp/modules/approval/use_cases.py: an approval is used at
-- most once.
use nexus_mcp.Base.{ℕ, String, false, Option, none, some, ◌≡◌, refl, sym, ◌∙◌, arith, leb}
use nexus_mcp.Dict.{get}
use nexus_mcp.Errors.{Exc}
use nexus_mcp.Result.{ok}
use nexus_mcp.Action.{Action, ◌>>=◌}
use nexus_mcp.Action.Rules.{Post, bind-Post, weaken-Post, lift-Post, if-Post}
use nexus_mcp.Approval.{ApprovalRequest, ApprovalStatus, is_consumed}
use nexus_mcp.Approval.Consume.{
  ConsumeApprovalCommand, require_found, require_consumable_status, expire_locked, consume_in_time,
  consume_locked_approval,
}
use nexus_mcp.Store.{Session}
use nexus_mcp.Store.Approvals
use nexus_mcp.System.Invariant.{used}
use nexus_mcp.System.Session.{Safe, Found, Consumed, expire_locked-Post, consume_in_time-Post}

-- What was read of the approvals, as a fact about the copies.
pub Found-in_tenant :
    (tenant_id id : String) (a : ApprovalRequest) (s : Session)
    → Safe s
    → Approvals.of_tenant tenant_id (get id s.working.approvals) ≡ some a
    → Found s id a
Found-in_tenant tenant_id id a s v h =
    let stored : get id s.working.approvals ≡ some a = ground arith in
    record { stored = stored; keyed = v.copies.approval_key id a stored }

found_tenant :
    (tenant_id id : String) (a : ApprovalRequest) (s : Session)
    → Approvals.of_tenant tenant_id (get id s.working.approvals) ≡ some a
    → a.tenant_id ≡ tenant_id
found_tenant tenant_id id a s h = ground arith

require_consumable_status-ok :
    (status : ApprovalStatus) (u : Unit {0})
    → require_consumable_status status ≡ ok u
    → is_consumed status ≡ false
unfolding require_consumable_status
require_consumable_status-ok status u h = ground arith

pub Found-used :
    (s : Session) (id : String) (a : ApprovalRequest)
    → Found s id a
    → is_consumed a.status ≡ false
    → used id s.working ≡ false
unfolding used
Found-used s id a f h = ground (arith, f.stored)

-- Where an approval that was looked for is there, the rest may use that it was found.
pub require_found-Post :
    {B : Type 0} (Q : B → Session → Type 0) (E : Exc → Session → Type 0)
    (found : Option ApprovalRequest) (f : ApprovalRequest → Action Session B) (s : Session)
    → ((a : ApprovalRequest) → found ≡ some a → Post Q E (f a s))
    → ((e : Exc) → E e s)
    → Post Q E ((require_found found >>= f) s)
unfolding require_found ◌>>=◌
require_found-Post Q E none f s h k = k _
require_found-Post Q E (some a) f s h k = h a refl

-- The approval is used now, and was not before.
abbrev pub Taken : ConsumeApprovalCommand → Session → ApprovalRequest → Session → Type 0
Taken c s b t =
    Consumed s t c.context.tenant_id c.approval_id c.call × (used c.approval_id s.working ≡ false)

abbrev pub Raised : Exc → Session → Type 0
Raised e t = Safe t

-- A locked consumption returns with the approval used now and not before, or raises safely.
pub consume_locked_approval-Post :
    (c : ConsumeApprovalCommand) (at : ℕ) (s : Session)
    → Safe s
    → Post (Taken c s) Raised (consume_locked_approval c at s)
unfolding consume_locked_approval Approvals.get_by_id
consume_locked_approval-Post c at s v =
    bind-Post
      (λ found t.
        (t ≡ s)
        × (found ≡ Approvals.of_tenant c.context.tenant_id (get c.approval_id s.working.approvals)))
      _ _ (Approvals.get_by_id c.context.tenant_id c.approval_id) _ s (refl, refl)
      (λ found t h. rw h.0 (
        require_found-Post _ _ found _ s
          (λ a q.
            let f = Found-in_tenant c.context.tenant_id c.approval_id a s v (sym h.1 ∙ q) in
            lift-Post _ _ (require_consumable_status a.status) _ s
              (λ u r.
                let n = require_consumable_status-ok a.status u r in
                if-Post _ _ (leb a.expires_at at) _ _ s
                  (λ _.
                    weaken-Post (λ _ _. ⊥) (Taken c s) Raised Raised
                      (expire_locked c.context.tenant_id a at s)
                      (expire_locked-Post c.context.tenant_id a at s c.approval_id v f n)
                      (λ _ _ x. absurd x) (λ _ _ x. x))
                  (λ _.
                    weaken-Post (λ _ t. Consumed s t c.context.tenant_id c.approval_id c.call)
                      (Taken c s) Raised Raised (consume_in_time c.context.tenant_id a c.call at s)
                      (consume_in_time-Post c.context.tenant_id a c.call at s c.approval_id v f
                        (found_tenant c.context.tenant_id c.approval_id a s (sym h.1 ∙ q)) n)
                      (λ _ _ x. (x, Found-used s c.approval_id a f n)) (λ _ _ x. x)))
              (λ _ _. v))
          (λ _. v)))
