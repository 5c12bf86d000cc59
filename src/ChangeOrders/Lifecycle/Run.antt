-- ===== src/ChangeOrders/Lifecycle/Run.antt =====
-- Runs of the change order service: any operations, in any order, with any arguments and outcomes.
use scope_guard.Base.{
  ℕ, ◌≡◌, refl, sym, ap, subst, ◌∙◌, String, true, Option, some, List, arith, get, Fields,
}
use scope_guard.Base.Unique.{Unique}
use scope_guard.Domain.Auth.{TrustedContext}
use scope_guard.ChangeOrders.Tables.{ChangeOrder, ChangeOrderStatus, Office, order_id}
use scope_guard.ChangeOrders.Office.{Desk}
use scope_guard.ChangeOrders.Proposals.{create_revision}
use scope_guard.ChangeOrders.Assembly.{assemble_change_order}
use scope_guard.ChangeOrders.Approvals.{approve_freelancer}
use scope_guard.ChangeOrders.Acceptance.{accept_client}
use scope_guard.ChangeOrders.Sends.{Match, record_gmail_send_success, reconcile_gmail_unknown}
use scope_guard.ChangeOrders.Decisions.{freelancer_decide, withdraw_change_order, client_decide}
use scope_guard.ChangeOrders.Expiry.{expire_stale_offers}
use scope_guard.ChangeOrders.Frames.{seen}
use scope_guard.ChangeOrders.Lifecycle.Frames.{orders}
use scope_guard.ChangeOrders.Lifecycle.Offers.{
  create_revision-Tracks, assemble_change_order-Tracks, approve_freelancer-Tracks,
}
use scope_guard.ChangeOrders.Lifecycle.Ends.{
  accept_client-Tracks, freelancer_decide-Tracks, withdraw_change_order-Tracks,
  client_decide-Tracks,
}
use scope_guard.ChangeOrders.Lifecycle.Sweeps.{
  record_gmail_send_success-Tracks, reconcile_gmail_unknown-Tracks, expire_stale_offers-Tracks,
}
use scope_guard.ChangeOrders.Lifecycle.Changes.{stay, step}
use scope_guard.ChangeOrders.Lifecycle.Changes.{
  is_final, may_become, Change, Walk, Follows-refl, Follows-trans, Moved, Moved-same,
}

-- The calls that change orders, and any other code, which leaves the table of orders alone. What a call
-- returns or raises is left open; a call that raises leaves what it wrote.
pub data Call (desk : Desk) : Office → Office → Type 0 where
  assemble :
      (token : String) (now i : ℕ) (c : TrustedContext) (s : Office)
      → Call desk s (assemble_change_order desk token now c i s).1
  revise :
      (token : String) (now i : ℕ) (c : TrustedContext) (edits : Fields) (s : Office)
      → Call desk s (create_revision desk token now c i edits s).1
  approve :
      (now i version revision hash : ℕ) (c : TrustedContext) (s : Office)
      → Call desk s (approve_freelancer desk c now i version revision hash s).1
  accept :
      (token session_token csrf_token session csrf key : String)
      (correlation now i version revision hash : ℕ) (s : Office)
      → Call desk s
          (accept_client desk token session_token csrf_token correlation now session csrf i version
            revision hash key s).1
  decide :
      (now i : ℕ) (c : TrustedContext) (decision : String) (comment : Option String) (s : Office)
      → Call desk s (freelancer_decide desk now c i decision comment s).1
  withdraw :
      (now i : ℕ) (c : TrustedContext) (reason : Option String) (s : Office)
      → Call desk s (withdraw_change_order desk now c i reason s).1
  answer :
      (session csrf decision : String) (comment : Option String)
      (now i version revision hash job audit : ℕ) (s : Office)
      → Call desk s
          (client_decide desk now session csrf i version revision hash decision comment job audit
            s).1
  sent :
      (now i hash : ℕ) (message recipient body : String) (s : Office)
      → Call desk s (record_gmail_send_success now i message recipient body hash s).1
  reconcile :
      (now i : ℕ) (ms : List Match) (s : Office)
      → Call desk s (reconcile_gmail_unknown now i ms s).1
  expire :
      (correlation now : ℕ) (s : Office)
      → Call desk s (expire_stale_offers desk correlation now s).1
  elsewhere : (s t : Office) → t.access.orders ≡ s.access.orders → Call desk s t

pub data Run (desk : Desk) (s : Office) : Office → Type 0 where
  here : Run desk s s
  next : {t u : Office} → Run desk s t → Call desk t u → Run desk s u

call-Moved :
    {desk : Desk} {s t : Office} → Call desk s t → Unique (orders s) → Moved (orders s) (orders t)
unfolding seen
call-Moved (Call.assemble token now i c s) u = (assemble_change_order-Tracks _ now c token i).at s u
call-Moved (Call.revise token now i c edits s) u =
    (create_revision-Tracks _ token now c i edits).at s u
call-Moved (Call.approve now i version revision hash c s) u =
    (approve_freelancer-Tracks _ now c i version revision hash).at s u
call-Moved (Call.accept token st ct session csrf key k now i version revision hash s) u =
    (accept_client-Tracks _ token st ct k now session csrf i version revision hash key).at s u
call-Moved (Call.decide now i c decision comment s) u =
    (freelancer_decide-Tracks _ now c i decision comment).at s u
call-Moved (Call.withdraw now i c reason s) u =
    (withdraw_change_order-Tracks _ now c i reason).at s u
call-Moved (Call.answer session csrf decision comment now i version revision hash j k s) u =
    (client_decide-Tracks _ now session csrf i version revision hash decision comment j k).at s u
call-Moved (Call.sent now i hash message recipient body s) u =
    (record_gmail_send_success-Tracks now i message recipient body hash).at s u
call-Moved (Call.reconcile now i ms s) u = (reconcile_gmail_unknown-Tracks now i ms).at s u
call-Moved (Call.expire k now s) u = (expire_stale_offers-Tracks _ k now).at s u
call-Moved (Call.elsewhere s t e) u = Moved-same (orders s) (orders t) e u

Run-Moved :
    {desk : Desk} {s t : Office} → Unique (orders s) → Run desk s t → Moved (orders s) (orders t)
Run-Moved {s = s} u here = (u, Follows-refl (orders s))
Run-Moved {s = s} {t = t} u (next {t = r} run call) =
    let m = Run-Moved u run in
    let k = call-Moved call m.0 in (k.0, Follows-trans (orders s) (orders r) (orders t) m.1 k.1)

-- Whatever calls are made, in any order and with any outcome, from a table whose orders have different
-- identities: every order stays in the table, and comes to its row there by changes each of which takes
-- the status to one that may follow it, adds one to the row version, and keeps the order's tenant,
-- project, request and number.
pub Run-Walk :
    (desk : Desk) (s t : Office) (i : ℕ) (o : ChangeOrder)
    → Unique s.access.orders
    → Run desk s t
    → get i s.access.orders ≡ some o
    → (p : ChangeOrder) × (get i t.access.orders ≡ some p) × Walk o p
unfolding seen
Run-Walk desk s t i o u run e = (Run-Moved u run).1 i o e

nothing_after : (t s : ChangeOrderStatus) → may_become t s ≡ true → is_final s ≡ true → ⊥
nothing_after t s h f = ground (arith, h, f)

-- no status may follow a final one
no-Change : (p q : ChangeOrder) → Change p q → is_final p.status ≡ true → ⊥
no-Change p q c f = nothing_after q.status p.status c.allowed f

final_stays : {o p : ChangeOrder} → Walk o p → is_final o.status ≡ true → o ≡ p
final_stays stay f = refl
final_stays (step {p = p} w c) f =
    let same = final_stays w f in
    absurd (no-Change p _ c (subst (λ x. is_final x.status ≡ true) same f))

-- An order that its client has accepted, or that was withdrawn, is never changed again: whatever calls
-- follow, its row is the same, from a table whose orders have different identities.
pub final_kept :
    (desk : Desk) (s t : Office) (i : ℕ) (o : ChangeOrder)
    → Unique s.access.orders
    → Run desk s t
    → get i s.access.orders ≡ some o
    → is_final o.status ≡ true
    → get i t.access.orders ≡ some o
final_kept desk s t i o u run e f =
    let (p, at, w) = Run-Walk desk s t i o u run e in at ∙ ap some (sym (final_stays w f))
