-- ===== src/ChangeOrders/Lifecycle/Ends.antt =====
-- Acceptance, decisions, sends and expiry only change orders as they may.
use scope_guard.Base.{
  ℕ, ◌≡◌, refl, ap, String, Bool, true, false, not, Option, none, some, arith, is_some, Error,
}
use scope_guard.Base.Frames.{Frame, Frame-pure}
use scope_guard.Domain.Auth.{TrustedContext}
use scope_guard.Workers.Tables.{ExternalAction}
use scope_guard.Payments.Tables.{PaymentRequest}
use scope_guard.ChangeOrders.Tables.{
  ChangeOrderStatus, ChangeOrder, ProposalRevision, ClientCapability, Project, RequestRecord,
  Verdict, order_id,
}
use scope_guard.ChangeOrders.Sessions.{awaits_client}
use scope_guard.ChangeOrders.Office.{Desk}
use scope_guard.ChangeOrders.Acceptance.{
  is_eligible, accept_new, accept_first, accept_open, accept_client,
}
use scope_guard.ChangeOrders.Decisions.{
  is_closed, is_rejected, awaits_decision, freelancer_target, freelancer_decide, cancel_unsent,
  cancel_pending_send, withdraw_change_order, ask_review, client_target, record_client_decision,
  client_decide,
}
use scope_guard.ChangeOrders.Approvals.{awaits_freelancer}
use scope_guard.ChangeOrders.Frames.{session_scope-Frame}
use scope_guard.ChangeOrders.Lifecycle.Frames.{orders, order_rules, request_payment-Frame}
use scope_guard.ChangeOrders.AcceptanceFrames.{
  amend_scope-Frame, receipt-Frame, with_receipt-Frame, accept_consumed-Frame,
}
use scope_guard.ChangeOrders.Lifecycle.Steps.{
  Tracks-bind, From-bind, From-then, From-guard, Tracks-find, From-move, From-if,
}
use scope_guard.ChangeOrders.Lifecycle.Changes.{
  Tracks, From, Tracks-of_Frame, From-of_Tracks, may_become,
}

passed : (b : Bool) → not b ≡ false → b ≡ true
passed true e = refl
passed false e = cc

eligible_awaits :
    (s : ChangeOrderStatus) (a : Option ExternalAction)
    → is_eligible s a ≡ true
    → awaits_client s ≡ true
eligible_awaits s a h = ground (arith, h)

module _ (d : Desk) (t u v : String) (k n : ℕ) where
  accept_new-From :
      (c : ClientCapability) (r : ProposalRevision) (o : ChangeOrder) (p : Project)
      (a : Option ExternalAction) (hash : ℕ) (key : String)
      → awaits_client o.status ≡ true
      → From o (accept_new d t u v k n c r o p a hash key)
  unfolding accept_new
  accept_new-From c r o p a hash key h = From-bind o _ _ (search order_rules) (λ id.
      From-bind o _ _ (search order_rules) (λ _. From-bind o _ _ (search order_rules) (λ _.
        From-bind o _ _ (search order_rules) (λ _.
          From-then o _ _ (From-move o ChangeOrderStatus.client_approved h) (λ _.
            Tracks-bind _ _ (Tracks-of_Frame _ (search order_rules)) (λ _.
              Tracks-bind _ _ (Tracks-of_Frame _ (search order_rules)) (λ previous.
                Tracks-bind _ _ (Tracks-of_Frame _ (amend_scope-Frame _ d t u v k n c r p previous))
                  (λ _.
                    Tracks-bind _ _ (Tracks-of_Frame _ (request_payment-Frame d t u v k n c r p o))
                      (λ payment.
                        Tracks-bind _ _ (Tracks-of_Frame _ (search order_rules)) (λ updated.
                          Tracks-of_Frame _ (
                            with_receipt-Frame _ d t u v k n updated payment _
                              (receipt-Frame _ d t u v k n c r))))))))))))

  accept_first-From :
      (c : ClientCapability) (r : ProposalRevision) (o : ChangeOrder) (p : Project)
      (a : Option ExternalAction) (hash : ℕ) (key : String) (e : Option PaymentRequest)
      → awaits_client o.status ≡ true
      → From o (accept_first d t u v k n c r o p a hash key e)
  unfolding accept_first
  accept_first-From c r o p a hash key none h = accept_new-From c r o p a hash key h
  accept_first-From c r o p a hash key (some e) h =
      From-of_Tracks o _ (
        Tracks-of_Frame _
          (with_receipt-Frame _ d t u v k n o e _ (receipt-Frame _ d t u v k n c r)))

  accept_open-From :
      (c : ClientCapability) (r : ProposalRevision) (o : ChangeOrder) (p : Project)
      (version hash : ℕ) (key : String)
      → From o (accept_open d t u v k n c r o p version hash key)
  unfolding accept_open
  accept_open-From c r o p version hash key = From-bind o _ _ (search order_rules) (λ _.
      From-bind o _ _ (search order_rules) (λ a. From-guard o _ _ _ (λ g.
        From-bind o _ _ (search order_rules) (λ _. From-bind o _ _ (search order_rules) (λ e.
          accept_first-From c r o p a hash key e (eligible_awaits o.status a (passed _ g)))))))

  pub accept_client-Tracks :
      (session csrf : String) (i version revision hash : ℕ) (key : String)
      → Tracks (accept_client d t u v k n session csrf i version revision hash key)
  unfolding accept_client
  accept_client-Tracks session csrf i version revision hash key =
      Tracks-bind _ _ (Tracks-of_Frame _ (session_scope-Frame _ d.hash session (some csrf) n))
        (λ scope.
          let (row, c, r, order) = scope in
          Tracks-bind _ _ (Tracks-of_Frame _ (search order_rules)) (λ _.
            Tracks-bind _ _ (Tracks-of_Frame _ (search order_rules)) (λ _.
              Tracks-find c.tenant_id order.id Error.conflict _ (λ o.
                From-bind o _ _ (search order_rules) (λ p.
                  From-if o (is_some c.consumed_at) _ _
                    (λ _.
                      From-of_Tracks o _
                        (Tracks-of_Frame _ (accept_consumed-Frame _ d t u v k n c r o key)))
                    (λ _. accept_open-From c r o p version hash key))))))

cancel_unsent-Frame : (n : ℕ) (a : Option ExternalAction) → Frame orders (cancel_unsent n a)
unfolding cancel_unsent
cancel_unsent-Frame n none = Frame-pure tt
cancel_unsent-Frame n (some a) = search order_rules

pub cancel_pending-Frame : (n : ℕ) (o : ChangeOrder) → Frame orders (cancel_pending_send n o)
unfolding cancel_pending_send
cancel_pending-Frame n o = search (order_rules, cancel_unsent-Frame)

module _ (d : Desk) (n : ℕ) where
  module _ (context : TrustedContext) where
    freelancer_may :
        (s : ChangeOrderStatus) (b : Bool)
        → awaits_freelancer s ≡ true
        → may_become (freelancer_target d n context b) s ≡ true
    freelancer_may s b h = ground (arith, h)

    pub freelancer_decide-Tracks :
        (i : ℕ) (decision : String) (comment : Option String)
        → Tracks (freelancer_decide d n context i decision comment)
    unfolding freelancer_decide
    freelancer_decide-Tracks i decision comment =
        Tracks-bind _ _ (Tracks-of_Frame _ (search order_rules)) (λ verdict.
          Tracks-find context.tenant_id i Error.not_found _ (λ o. From-guard o _ _ _ (λ g.
            From-bind o _ _ (search order_rules) (λ r. From-bind o _ _ (search order_rules) (λ id.
              From-bind o _ _ (search order_rules) (λ _.
                From-then o _ _
                  (From-move o _ (freelancer_may o.status (is_rejected verdict) (passed _ g)))
                  (λ _. Tracks-of_Frame _ (search order_rules depth 14))))))))

    not_closed : (s : ChangeOrderStatus) → is_closed s ≡ false → not (is_closed s) ≡ true
    not_closed s h = ap not h

    pub withdraw_change_order-Tracks :
        (i : ℕ) (reason : Option String) → Tracks (withdraw_change_order d n context i reason)
    unfolding withdraw_change_order
    withdraw_change_order-Tracks i reason = Tracks-find context.tenant_id i Error.not_found _ (λ o.
        From-guard o _ _ _ (λ g. From-bind o _ _ (search order_rules) (λ a.
          From-bind o _ _ (search order_rules) (λ _.
            From-then o _ _ (From-move o ChangeOrderStatus.withdrawn (not_closed o.status g))
              (λ _. Tracks-of_Frame _ (search (order_rules, cancel_pending-Frame) depth 14))))))

  ask_review-Frame :
      (b : Bool) (q : Option RequestRecord) (c : ClientCapability) (o : ChangeOrder)
      (r : ProposalRevision) (k : ℕ)
      → Frame orders (ask_review d n b q c o r k)
  unfolding ask_review
  ask_review-Frame true (some q) c o r k = search order_rules
  ask_review-Frame true none c o r k = Frame-pure tt
  ask_review-Frame false q c o r k = Frame-pure tt

  client_may :
      (s : ChangeOrderStatus) (b : Bool)
      → awaits_decision s ≡ true
      → may_become (client_target d n b) s ≡ true
  client_may s b h = ground (arith, h)

  record_client_decision-From :
      (c : ClientCapability) (r : ProposalRevision) (o : ChangeOrder) (verdict : Verdict) (hash : ℕ)
      (comment : Option String) (j k : ℕ)
      → awaits_decision o.status ≡ true
      → From o (record_client_decision d n c r o verdict hash comment j k)
  unfolding record_client_decision
  record_client_decision-From c r o verdict hash comment j k h =
      From-bind o _ _ (search order_rules) (λ _. From-bind o _ _ (search order_rules) (λ id.
        From-bind o _ _ (search order_rules) (λ _.
          From-then o _ _ (From-move o _ (client_may o.status (is_rejected verdict) h))
            (λ _. Tracks-of_Frame _ (search (order_rules, ask_review-Frame) depth 14)))))

  pub client_decide-Tracks :
      (session csrf : String) (i version revision hash : ℕ) (decision : String)
      (comment : Option String) (j k : ℕ)
      → Tracks (client_decide d n session csrf i version revision hash decision comment j k)
  unfolding client_decide
  client_decide-Tracks session csrf i version revision hash decision comment j k =
      Tracks-bind _ _ (Tracks-of_Frame _ (search order_rules)) (λ verdict.
        Tracks-bind _ _ (Tracks-of_Frame _ (session_scope-Frame _ d.hash session (some csrf) n))
          (λ scope.
            let (row, c, r, order) = scope in
            Tracks-bind _ _ (Tracks-of_Frame _ (search order_rules)) (λ _.
              Tracks-bind _ _ (Tracks-of_Frame _ (search order_rules)) (λ p.
                Tracks-find c.tenant_id order.id Error.conflict _ (λ o.
                  From-bind o _ _ (search order_rules) (λ _. From-guard o _ _ _ (λ g.
                    record_client_decision-From c r o verdict hash comment j k (passed _ g))))))))
