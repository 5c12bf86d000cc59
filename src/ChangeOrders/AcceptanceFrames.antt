-- ===== src/ChangeOrders/AcceptanceFrames.antt =====
-- What an acceptance does beside the orders, the revisions and the payment requests.
use scope_guard.Base.{ℕ, refl, String, Option, none, some, List, [], ◌∷◌, Exec, Error, modify}
use scope_guard.ChangeOrders.Frames.{Tables, seen, view_rules, fresh-Frame}
use scope_guard.Base.Frames.{Frame, Frame-pure, Frame-bind, Frame-raise}
use scope_guard.Workers.Tables.{ExternalAction}
use scope_guard.Payments.Tables.{PaymentRequest}
use scope_guard.ChangeOrders.Tables.{
  ChangeOrder, ProposalRevision, ClientCapability, Approval, ScopeVersion, ScopeVersionItem, Office,
  Project,
}
use scope_guard.ChangeOrders.Office.{Desk}
use scope_guard.ChangeOrders.Sessions.{CapabilityCredentials}
use scope_guard.ChangeOrders.Acceptance.{
  confirm_send, add_revenue, with_receipt, accept_again, accept_consumed,
}
use scope_guard.ChangeOrders.Receipts.{
  receipt_credentials, reopen_receipt, receipt_credentials_for_existing,
}
use scope_guard.ChangeOrders.Amendments.{
  copy_items, add_scope, point_project, add_amendment, amend_scope,
}

module _ {X : Type 0} (w : Tables X) where
  pub modify_items-Frame :
      (f : Office → List ScopeVersionItem)
      → Frame (seen w) (modify (λ s. record s { scope_items = f s }))
  unfolding seen
  modify_items-Frame f = record { at = λ s. refl }

  pub copy_items-Frame :
      (t p v : ℕ) (xs : List ScopeVersionItem) → Frame (seen w) (copy_items t p v xs)
  unfolding copy_items
  copy_items-Frame t p v [] = Frame-pure tt
  copy_items-Frame t p v (x ∷ xs) =
      Frame-bind _ _ (fresh-Frame w)
        (λ id. Frame-bind _ _ (modify_items-Frame _) (λ _. copy_items-Frame t p v xs))

  pub confirm_send-Frame :
      (r n : ℕ) (a : Option ExternalAction) → Frame (seen w) (confirm_send r n a)
  unfolding confirm_send
  confirm_send-Frame r n none = Frame-pure tt
  confirm_send-Frame r n (some a) = search view_rules

  pub add_scope-Frame : (v : ScopeVersion) → Frame (seen w) (add_scope v)
  unfolding add_scope seen
  add_scope-Frame v = record { at = λ s. refl }

  pub point_project-Frame : (i v : ℕ) → Frame (seen w) (point_project i v)
  unfolding point_project seen
  point_project-Frame i v = record { at = λ s. refl }

  pub add_amendment-Frame :
      (c : ClientCapability) (p r a b i : ℕ) → Frame (seen w) (add_amendment c p r a b i)
  unfolding add_amendment seen
  add_amendment-Frame c p r a b i = record { at = λ s. refl }

  pub add_revenue-Frame :
      (c : ClientCapability) (o : ChangeOrder) (r : ProposalRevision) (i : ℕ)
      → Frame (seen w) (add_revenue c o r i)
  unfolding add_revenue seen
  add_revenue-Frame c o r i = record { at = λ s. refl }

pub ruleset acceptance_rules = (
  view_rules, modify_items-Frame, copy_items-Frame, confirm_send-Frame, add_scope-Frame,
  point_project-Frame, add_amendment-Frame, add_revenue-Frame,
)

module _ {X : Type 0} (w : Tables X) where
  module _ (d : Desk) (t u v : String) (k n : ℕ) where
    pub amend_scope-Frame :
        (c : ClientCapability) (r : ProposalRevision) (p : Project) (b : ScopeVersion)
        → Frame (seen w) (amend_scope d c r p b)
    unfolding amend_scope
    amend_scope-Frame c r p b = search acceptance_rules depth 14

    pub receipt-Frame :
        (c : ClientCapability) (r : ProposalRevision)
        → Frame (seen w) (receipt_credentials d t u v n c r)
    unfolding receipt_credentials
    receipt-Frame c r = search acceptance_rules depth 14

    pub with_receipt-Frame :
        (o : ChangeOrder) (p : PaymentRequest) (m : Exec Office CapabilityCredentials)
        → Frame (seen w) m
        → Frame (seen w) (with_receipt d t u v k n o p m)
    unfolding with_receipt
    with_receipt-Frame o p m h = Frame-bind _ _ h (λ c. Frame-pure _)

    reopen-Frame :
        (c : ClientCapability) (r : ProposalRevision) (o : Option ClientCapability)
        → Frame (seen w) (reopen_receipt d t u v n c r o)
    unfolding reopen_receipt
    reopen-Frame c r none = receipt-Frame c r
    reopen-Frame c r (some x) = search acceptance_rules

    pub existing-Frame :
        (c : ClientCapability) (r : ProposalRevision)
        → Frame (seen w) (receipt_credentials_for_existing d t u v n c r)
    unfolding receipt_credentials_for_existing
    existing-Frame c r = search (acceptance_rules, reopen-Frame)

    again-Frame :
        (c : ClientCapability) (r : ProposalRevision) (o : ChangeOrder) (a : Option Approval)
        (p : Option PaymentRequest)
        → Frame (seen w) (accept_again d t u v k n c r o a p)
    unfolding accept_again
    again-Frame c r o (some a) (some p) = with_receipt-Frame o p _ (existing-Frame c r)
    again-Frame c r o none p = Frame-raise Error.conflict
    again-Frame c r o (some a) none = Frame-raise Error.conflict

    pub accept_consumed-Frame :
        (c : ClientCapability) (r : ProposalRevision) (o : ChangeOrder) (key : String)
        → Frame (seen w) (accept_consumed d t u v k n c r o key)
    unfolding accept_consumed
    accept_consumed-Frame c r o key = search (acceptance_rules, again-Frame)
