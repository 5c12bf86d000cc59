-- ===== src/ChangeOrders/Expiry.antt =====
-- services/change_orders/service.py: offers expire, when the client's link has run out or when an
-- approved offer was not sent within a day.
use scope_guard.Base.{
  ℕ, ◌+◌, ◌==◌, Bool, true, false, ◌&&◌, Option, none, some, List, [], ◌∷◌, if◌then◌else◌, ltb, leb,
  filter, Exec, pure, gets, sum_each, ◌>>=◌, ◌>>◌, end, is_none,
}
use scope_guard.Workers.Tables.{ExternalAction, seconds}
use scope_guard.ChangeOrders.Tables.{
  ChangeOrderStatus, ChangeOrder, ClientCapability, Approval, Actor, Verdict, Office,
}
use scope_guard.ChangeOrders.Sessions.{awaits_client, is_review, newest, revoke_capabilities}
use scope_guard.ChangeOrders.Office.{
  Desk, on_access, move_order, edit_capability, audit_change_order,
}
use scope_guard.ChangeOrders.Sends.{is_send_pending}
use scope_guard.ChangeOrders.Decisions.{is_unsent, send_of, cancel_pending_send}

unfoldable pub is_awaiting : ChangeOrder → Bool
is_awaiting o = awaits_client o.status

unfoldable pub is_pending : ChangeOrder → Bool
is_pending o = is_send_pending o.status

unfoldable pub is_review_of : ℕ → ClientCapability → Bool
is_review_of order c = c.change_order_id == order && (is_review c.purpose && is_none c.revoked_at)

-- `expires_at is not None and expires_at <= current`
abbrev pub has_run_out : Option ClientCapability → ℕ → Option ClientCapability
has_run_out none now = none
has_run_out (some c) now = elim c.expires_at [
  | none ↦ none
  | some t ↦ if leb t now then some c else none
]

abbrev pub is_freelancer : Actor → Bool
is_freelancer Actor.freelancer = true
is_freelancer Actor.client = false

abbrev pub is_approved : Verdict → Bool
is_approved Verdict.approved = true
is_approved _ = false

unfoldable pub is_approval_of : ℕ → Approval → Bool
is_approval_of order a =
    a.change_order_id == order && (is_freelancer a.actor_type && is_approved a.decision)

unfoldable pub later_approval : Approval → Option Approval → Option Approval
later_approval a none = some a
later_approval a (some b) = if ltb a.created_at b.created_at then some b else some a

unfoldable pub newest_approval : List Approval → Option Approval
newest_approval [] = none
newest_approval (a ∷ rest) = later_approval a (newest_approval rest)

-- the approval is a day old
abbrev pub is_day_old : Option Approval → ℕ → Bool
is_day_old none now = false
is_day_old (some a) now = leb (a.created_at + seconds 86400) now

abbrev pub waits : Option ExternalAction → Bool
waits none = false
waits (some a) = is_unsent a.state

unfoldable pub revoked : ℕ → ClientCapability → ClientCapability
revoked now c = record c { revoked_at = some now }

-- an order that expires counts one
module _ (desk : Desk) (correlation now : ℕ) where
  unfoldable pub expire_offer : ChangeOrder → Option ClientCapability → Exec Office ℕ
  expire_offer order none = pure 0
  expire_offer order (some c) = do
    move_order order.id ChangeOrderStatus.expired
    edit_capability c.id (revoked now)
    cancel_pending_send now order
    audit_change_order desk order "system" "offer_expired" ChangeOrderStatus.expired correlation end
        now
    pure 1

  -- the order whose newest unrevoked review has run out
  unfoldable pub expire_due : ChangeOrder → Exec Office ℕ
  expire_due o =
      gets (λ s. has_run_out (newest (filter (is_review_of o.id) s.access.capabilities)) now)
      >>= λ c. expire_offer o c

  -- whether the send still waits, and its approval is a day old
  unfoldable pub is_overdue : ChangeOrder → Office → Bool
  is_overdue o s =
      waits (send_of o s)
      && is_day_old (newest_approval (filter (is_approval_of o.id) s.approvals)) now

  unfoldable pub expire_unsent : ChangeOrder → Bool → Exec Office ℕ
  expire_unsent order false = pure 0
  expire_unsent order true = do
    move_order order.id ChangeOrderStatus.expired
    cancel_pending_send now order
    on_access (revoke_capabilities order.id now)
    audit_change_order desk order "system" "unsent_offer_expired" ChangeOrderStatus.expired
        correlation end now
    pure 1

  unfoldable pub expire_overdue : ChangeOrder → Exec Office ℕ
  expire_overdue o = gets (is_overdue o) >>= λ due. expire_unsent o due

  -- `now or _now()` is `now`; one correlation stands for those that `uuid4` draws for each audit.
  unfoldable pub expire_stale_offers : Exec Office ℕ
  expire_stale_offers = do
    awaiting ← gets (λ s. filter is_awaiting s.access.orders)
    offers ← sum_each expire_due awaiting
    pending ← gets (λ s. filter is_pending s.access.orders)
    unsent ← sum_each expire_overdue pending
    pure (offers + unsent)
