-- ===== src/ChangeOrders/Lifecycle/Table.antt =====
-- services/domain/enums.py: CHANGE_ORDER_TRANSITIONS, beside the changes that the service performs.
use scope_guard.Base.{ℕ, ◌+◌, ◌≡◌, refl, inl, inr, ◌⊎◌, true, Option, none, some, arith, get}
use scope_guard.Base.Unique.{Unique}
use scope_guard.ChangeOrders.Tables.{ChangeOrderStatus, ChangeOrder, Office, order_id}
use scope_guard.ChangeOrders.Office.{Desk}
use scope_guard.ChangeOrders.Lifecycle.Changes.{may_become, Change, Walk, stay, step}
use scope_guard.ChangeOrders.Lifecycle.Run.{Run, Run-Walk}

pub data OrderEvent : Type 0 where
  revision_ready freelancer_approved send_confirmed client_accepted changes_requested : OrderEvent
  freelancer_rejected client_rejected : OrderEvent

unfoldable pub change_order_transitions : ChangeOrderStatus → OrderEvent → Option ChangeOrderStatus
change_order_transitions ChangeOrderStatus.draft OrderEvent.revision_ready =
    some ChangeOrderStatus.awaiting_freelancer_approval
change_order_transitions ChangeOrderStatus.awaiting_freelancer_approval
      OrderEvent.freelancer_approved =
    some ChangeOrderStatus.send_pending
change_order_transitions ChangeOrderStatus.send_pending OrderEvent.send_confirmed =
    some ChangeOrderStatus.awaiting_client_approval
change_order_transitions ChangeOrderStatus.send_pending OrderEvent.client_accepted =
    some ChangeOrderStatus.client_approved
change_order_transitions ChangeOrderStatus.awaiting_client_approval OrderEvent.client_accepted =
    some ChangeOrderStatus.client_approved
change_order_transitions ChangeOrderStatus.awaiting_client_approval OrderEvent.changes_requested =
    some ChangeOrderStatus.revision_requested
change_order_transitions ChangeOrderStatus.revision_requested OrderEvent.revision_ready =
    some ChangeOrderStatus.awaiting_freelancer_approval
change_order_transitions ChangeOrderStatus.awaiting_freelancer_approval
      OrderEvent.freelancer_rejected =
    some ChangeOrderStatus.rejected_by_freelancer
change_order_transitions ChangeOrderStatus.awaiting_client_approval OrderEvent.client_rejected =
    some ChangeOrderStatus.rejected_by_client
change_order_transitions _ _ = none

-- The changes that the table does not list: an edit makes a new revision of what is offered, sent,
-- rejected or expired; an order that is not closed is withdrawn; an offer expires.
pub data Aside : ChangeOrderStatus → ChangeOrderStatus → Type 0 where
  edited_unapproved :
      Aside ChangeOrderStatus.awaiting_freelancer_approval
        ChangeOrderStatus.awaiting_freelancer_approval
  edited_unsent :
      Aside ChangeOrderStatus.send_pending ChangeOrderStatus.awaiting_freelancer_approval
  edited_offer :
      Aside ChangeOrderStatus.awaiting_client_approval
        ChangeOrderStatus.awaiting_freelancer_approval
  edited_refusal :
      Aside ChangeOrderStatus.rejected_by_freelancer ChangeOrderStatus.awaiting_freelancer_approval
  edited_rejection :
      Aside ChangeOrderStatus.rejected_by_client ChangeOrderStatus.awaiting_freelancer_approval
  edited_expired : Aside ChangeOrderStatus.expired ChangeOrderStatus.awaiting_freelancer_approval
  dropped_draft : Aside ChangeOrderStatus.draft ChangeOrderStatus.withdrawn
  dropped_unapproved :
      Aside ChangeOrderStatus.awaiting_freelancer_approval ChangeOrderStatus.withdrawn
  dropped_unsent : Aside ChangeOrderStatus.send_pending ChangeOrderStatus.withdrawn
  dropped_offer : Aside ChangeOrderStatus.awaiting_client_approval ChangeOrderStatus.withdrawn
  dropped_revision : Aside ChangeOrderStatus.revision_requested ChangeOrderStatus.withdrawn
  expired_unsent : Aside ChangeOrderStatus.send_pending ChangeOrderStatus.expired
  expired_offer : Aside ChangeOrderStatus.awaiting_client_approval ChangeOrderStatus.expired

abbrev pub Listed : ChangeOrderStatus → ChangeOrderStatus → Type 0
Listed s t = (e : OrderEvent) × (change_order_transitions s e ≡ some t)

may_become_cases : (s t : ChangeOrderStatus) → may_become t s ≡ true → Listed s t ⊎ Aside s t
unfolding change_order_transitions
may_become_cases ChangeOrderStatus.draft ChangeOrderStatus.awaiting_freelancer_approval h =
    inl (OrderEvent.revision_ready, refl)
may_become_cases ChangeOrderStatus.awaiting_freelancer_approval ChangeOrderStatus.send_pending h =
    inl (OrderEvent.freelancer_approved, refl)
may_become_cases ChangeOrderStatus.send_pending ChangeOrderStatus.awaiting_client_approval h =
    inl (OrderEvent.send_confirmed, refl)
may_become_cases ChangeOrderStatus.send_pending ChangeOrderStatus.client_approved h =
    inl (OrderEvent.client_accepted, refl)
may_become_cases ChangeOrderStatus.awaiting_client_approval ChangeOrderStatus.client_approved h =
    inl (OrderEvent.client_accepted, refl)
may_become_cases ChangeOrderStatus.awaiting_client_approval ChangeOrderStatus.revision_requested h =
    inl (OrderEvent.changes_requested, refl)
may_become_cases ChangeOrderStatus.revision_requested ChangeOrderStatus.awaiting_freelancer_approval
      h =
    inl (OrderEvent.revision_ready, refl)
may_become_cases ChangeOrderStatus.awaiting_freelancer_approval
      ChangeOrderStatus.rejected_by_freelancer h =
    inl (OrderEvent.freelancer_rejected, refl)
may_become_cases ChangeOrderStatus.awaiting_client_approval ChangeOrderStatus.rejected_by_client h =
    inl (OrderEvent.client_rejected, refl)
may_become_cases ChangeOrderStatus.awaiting_freelancer_approval
      ChangeOrderStatus.awaiting_freelancer_approval h =
    inr Aside.edited_unapproved
may_become_cases ChangeOrderStatus.send_pending ChangeOrderStatus.awaiting_freelancer_approval h =
    inr Aside.edited_unsent
may_become_cases ChangeOrderStatus.awaiting_client_approval
      ChangeOrderStatus.awaiting_freelancer_approval h =
    inr Aside.edited_offer
may_become_cases ChangeOrderStatus.rejected_by_freelancer
      ChangeOrderStatus.awaiting_freelancer_approval h =
    inr Aside.edited_refusal
may_become_cases ChangeOrderStatus.rejected_by_client ChangeOrderStatus.awaiting_freelancer_approval
      h =
    inr Aside.edited_rejection
may_become_cases ChangeOrderStatus.expired ChangeOrderStatus.awaiting_freelancer_approval h =
    inr Aside.edited_expired
may_become_cases ChangeOrderStatus.draft ChangeOrderStatus.withdrawn h = inr Aside.dropped_draft
may_become_cases ChangeOrderStatus.awaiting_freelancer_approval ChangeOrderStatus.withdrawn h =
    inr Aside.dropped_unapproved
may_become_cases ChangeOrderStatus.send_pending ChangeOrderStatus.withdrawn h =
    inr Aside.dropped_unsent
may_become_cases ChangeOrderStatus.awaiting_client_approval ChangeOrderStatus.withdrawn h =
    inr Aside.dropped_offer
may_become_cases ChangeOrderStatus.revision_requested ChangeOrderStatus.withdrawn h =
    inr Aside.dropped_revision
may_become_cases ChangeOrderStatus.send_pending ChangeOrderStatus.expired h =
    inr Aside.expired_unsent
may_become_cases ChangeOrderStatus.awaiting_client_approval ChangeOrderStatus.expired h =
    inr Aside.expired_offer
may_become_cases s t h = absurd (ground arith)

-- one change of an order by the table or beside it
pub record Entry (o p : ChangeOrder) : Type 0 where
  pub listed : Listed o.status p.status ⊎ Aside o.status p.status
  pub counted : p.row_version ≡ o.row_version + 1

-- The rows that an order goes through, one entry after the other.
pub data Course (o : ChangeOrder) : ChangeOrder → Type 0 where
  unmoved : Course o o
  onward : {p q : ChangeOrder} → Course o p → Entry p q → Course o q

Change-Entry : {o p : ChangeOrder} → Change o p → Entry o p
Change-Entry {o} {p} c = record {
  listed = may_become_cases o.status p.status c.allowed;
  counted = c.counted;
}

Walk-Course : {o p : ChangeOrder} → Walk o p → Course o p
Walk-Course stay = unmoved
Walk-Course (step w c) = onward (Walk-Course w) (Change-Entry c)

-- Whatever calls the service takes, in any order and with any outcome, from orders with different
-- identities, an order comes to its row by entries that each raise the row version by one and change the
-- status by an event of the domain's table, or else in one of these ways: a new revision of an order
-- that awaits its freelancer, is being sent, awaits its client, was rejected or has expired; the
-- withdrawal of an order that is not closed; the expiry of an order that is being sent or awaits its
-- client.
pub lifecycle_table :
    (desk : Desk) (s t : Office) (i : ℕ) (o : ChangeOrder)
    → Unique s.access.orders
    → Run desk s t
    → get i s.access.orders ≡ some o
    → (p : ChangeOrder) × (get i t.access.orders ≡ some p) × Course o p
lifecycle_table desk s t i o u run e =
    let (p, there, w) = Run-Walk desk s t i o u run e in (p, there, Walk-Course w)
