-- ===== src/ChangeOrders/Frames.antt =====
-- What leaves the orders, the revisions and the payment requests alone.
use scope_guard.Base.{ℕ, refl, String, Option, List, Exec, Error, ask, or_raise, ap, Json, Fields}
use scope_guard.Base.Frames.{
  Frame, frame_rules, Frame-pure, Frame-bind, Frame-raise, Frame-raise_if, Frame-ask,
}
use scope_guard.Workers.Tables.{Db, ExternalAction}
use scope_guard.Payments.Tables.{PaymentRequest}
use scope_guard.Payments.Links.{on_db}
use scope_guard.ChangeOrders.Tables.{
  ChangeOrder, ChangeOrderStatus, ProposalRevision, Purpose, ClientCapability, Access,
  RequestStatus, Approval, Office,
}
use scope_guard.ChangeOrders.Sessions.{open_session, session_scope, revoke_capabilities}
use scope_guard.ChangeOrders.Office.{
  move_order, Desk, on_ledger, on_work, on_access, fresh, move_request, close_request,
  edit_capability, add_capability, edit_action, add_approval, enqueue, audit_change_order,
  current_revision,
}
use scope_guard.ChangeOrders.Proposals.{revoke_reviews}

-- A view of the orders, the revisions and the payment requests. Code that touches none of the three
-- tables leaves each such view alone.
abbrev pub Tables : Type 0 → Type 0
Tables X = List ChangeOrder → List ProposalRevision → List PaymentRequest → X

unfoldable pub seen : {X : Type 0} → Tables X → Office → X
seen f s = f s.access.orders s.access.revisions s.ledger.requests

-- what a view reads of the client's access
unfoldable pub access_view : Access → List ChangeOrder × List ProposalRevision
access_view a = (a.orders, a.revisions)

-- `_session_scope` only reads
module _ {X : Type 0} (view : Access → X) where
  -- a lookup written out
  looked-Frame :
      {A : Type 0} (f : Access → Option A) (e : Error) → Frame view (λ s. or_raise (f s) e s)
  unfolding ask
  looked-Frame f e = let h : Frame view (ask f e) = Frame-ask f e in h

  pub scope-Frame :
      (h : String → ℕ) (t : String) (c : Option String) (n : ℕ) → Frame view (session_scope h t c n)
  unfolding session_scope
  scope-Frame h t c n = Frame-bind _ _ (looked-Frame _ Error.validation) (λ row.
      Frame-bind _ _ (Frame-raise_if _ Error.validation) (λ _.
        Frame-bind _ _ (looked-Frame _ Error.validation) (λ c.
          Frame-bind _ _ (looked-Frame _ Error.validation) (λ order.
            Frame-bind _ _ (looked-Frame _ Error.validation)
              (λ r. Frame-pure (row, c, r, order))))))

module _ {X : Type 0} (w : Tables X) where
  pub on_work-Frame : {A : Type 0} (m : Exec Db A) → Frame (seen w) (on_work m)
  unfolding on_work on_ledger on_db seen
  on_work-Frame m = record { at = λ s. refl }

  pub on_access-Frame :
      {A : Type 0} (m : Exec Access A) → Frame access_view m → Frame (seen w) (on_access m)
  unfolding on_access seen access_view
  on_access-Frame m h = record { at = λ s. ap (λ x. w x.0 x.1 s.ledger.requests) (h.at s.access) }

  pub fresh-Frame : Frame (seen w) fresh
  unfolding fresh seen
  fresh-Frame = record { at = λ s. refl }

  pub move_request-Frame : (i : ℕ) (t : RequestStatus) → Frame (seen w) (move_request i t)
  unfolding move_request seen
  move_request-Frame i t = record { at = λ s. refl }

  pub close_request-Frame :
      (i : ℕ) (t : RequestStatus) (r : Option String) → Frame (seen w) (close_request i t r)
  unfolding close_request seen
  close_request-Frame i t r = record { at = λ s. refl }

  pub edit_capability-Frame :
      (i : ℕ) (f : ClientCapability → ClientCapability) → Frame (seen w) (edit_capability i f)
  unfolding edit_capability seen
  edit_capability-Frame i f = record { at = λ s. refl }

  pub add_capability-Frame : (c : ClientCapability) → Frame (seen w) (add_capability c)
  unfolding add_capability seen
  add_capability-Frame c = record { at = λ s. refl }

  pub edit_action-Frame :
      (i now : ℕ) (f : ExternalAction → ExternalAction) → Frame (seen w) (edit_action i now f)
  unfolding edit_action
  edit_action-Frame i now f = on_work-Frame _

  pub add_approval-Frame : (a : Approval) → Frame (seen w) (add_approval a)
  unfolding add_approval seen
  add_approval-Frame a = record { at = λ s. refl }

  pub enqueue-Frame :
      (t p : ℕ) (k : String) (j : Json) (c n : ℕ) → Frame (seen w) (enqueue t p k j c n)
  unfolding enqueue
  enqueue-Frame t p k j c n = on_work-Frame _

  pub audit-Frame :
      (d : Desk) (o : ChangeOrder) (a b : String) (t : ChangeOrderStatus) (c : ℕ) (m : Fields)
      (n : ℕ)
      → Frame (seen w) (audit_change_order d o a b t c m n)
  unfolding audit_change_order
  audit-Frame d o a b t c m n = on_work-Frame _

  pub revoke_reviews-Frame : (d : Desk) (o n : ℕ) → Frame (seen w) (revoke_reviews d o n)
  unfolding revoke_reviews seen
  revoke_reviews-Frame d o n = record { at = λ s. refl }

  pub current_revision-Frame : (o : ChangeOrder) → Frame (seen w) (current_revision o)
  unfolding current_revision
  current_revision-Frame o = search frame_rules

  pub open_session-Frame :
      (h : String → ℕ) (c : ClientCapability) (p : Purpose) (t u v : String) (n : ℕ)
      → Frame (seen w) (on_access (open_session h c p t u v n))
  unfolding open_session access_view
  open_session-Frame h c p t u v n = on_access-Frame _ (record { at = λ s. refl })

  pub revoke-Frame : (o n : ℕ) → Frame (seen w) (on_access (revoke_capabilities o n))
  unfolding revoke_capabilities access_view
  revoke-Frame o n = on_access-Frame _ (record { at = λ s. refl })

  pub session_scope-Frame :
      (h : String → ℕ) (t : String) (c : Option String) (n : ℕ)
      → Frame (seen w) (on_access (session_scope h t c n))
  session_scope-Frame h t c n = on_access-Frame _ (scope-Frame access_view h t c n)

-- a view of the other two tables leaves the status of an order out
pub move_order-Frame :
    {X : Type 0} (w : List ProposalRevision → List PaymentRequest → X) (i : ℕ)
    (t : ChangeOrderStatus)
    → Frame (seen (λ o r q. w r q)) (move_order i t)
unfolding move_order seen
move_order-Frame w i t = record { at = λ s. refl }

pub ruleset view_rules = (
  frame_rules, on_work-Frame, fresh-Frame, move_request-Frame, close_request-Frame,
  edit_capability-Frame, add_capability-Frame, edit_action-Frame, add_approval-Frame, enqueue-Frame,
  audit-Frame, revoke_reviews-Frame, current_revision-Frame, open_session-Frame, revoke-Frame,
  session_scope-Frame,
)
