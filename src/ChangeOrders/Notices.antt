-- ===== src/ChangeOrders/Notices.antt =====
-- services/change_orders/service.py: the outcomes of notifying a freelancer by SES, and the links of
-- reviews.
use Prim.Native.String.{◌++◌ as text_append}
use scope_guard.Base.{
  ℕ, String, Bool, ◌&&◌, Option, none, some, str_eq, some_eq, edit, find?, Error, Result, ok, err,
  Exec, pure, raise, lift, ask, modify, ◌>>=◌, ◌>>◌, Json, str, obj, Fields, get_field,
}
use scope_guard.Workers.Tables.{ActionState, ExternalAction, action_id}
use scope_guard.Workers.Actions.{mark_action_unknown}
use scope_guard.ChangeOrders.Tables.{
  NotificationState, Notification, ProposalRevision, Office, order_id, notification_id,
}
use scope_guard.ChangeOrders.Office.{Desk, on_work, when, edit_action}
use scope_guard.ChangeOrders.Payload.{found}
use scope_guard.ChangeOrders.Sends.{
  complete, find_action, is_from, message_ref, payload_of, with_field,
}

unfoldable pub is_notice : ℕ → Notification → Bool
is_notice action n = some_eq n.action_id action

unfoldable pub set_notification : ℕ → NotificationState → Exec Office Notification
set_notification action target = do
  n ← ask (λ s. find? (is_notice action) s.notifications) Error.not_found
  let n' = record n { state = target }
  modify (λ s. record s {
    notifications = edit n.id (λ x. record x { state = target }) s.notifications;
  })
  pure n'

unfoldable pub settle_notice : ℕ → ExternalAction → String → ActionState → Exec Office (Unit {0})
settle_notice now a message ActionState.dispatching = complete now a message
settle_notice now a message ActionState.unknown_outcome = edit_action a.id now (λ x. record x {
  state = ActionState.succeeded;
  receipt_ref = some (obj (message_ref message));
})
settle_notice now a message ActionState.succeeded = pure tt
settle_notice now a message _ = raise Error.conflict

unfoldable pub record_ses_notification_success : ℕ → ℕ → String → Exec Office Notification
record_ses_notification_success now i message = do
  action ← ask (λ s. when (is_from "ses") (find_action i s)) Error.not_found
  settle_notice now action message action.state
  set_notification action.id NotificationState.sent

unfoldable pub doubt_notice : ℕ → ExternalAction → String → ActionState → Exec Office (Unit {0})
doubt_notice now a reason ActionState.dispatching =
    on_work (mark_action_unknown a.id reason now) >> pure tt
doubt_notice now a reason ActionState.unknown_outcome = pure tt
doubt_notice now a reason _ = raise Error.conflict

unfoldable pub record_ses_notification_unknown : ℕ → ℕ → String → Exec Office Notification
record_ses_notification_unknown now i reason = do
  action ← ask (λ s. when (is_from "ses") (find_action i s)) Error.not_found
  doubt_notice now action reason action.state
  set_notification action.id NotificationState.unknown_outcome

-- `isinstance(v, str)`
abbrev pub text_value : Option Json → Option String
text_value (some (str s)) = some s
text_value _ = none

module _ (desk : Desk) where
  abbrev pub review_url : String → String
  review_url token = text_append desk.review_base_url (text_append "/c#t=" token)

  abbrev pub url_of : Result String → Result String
  url_of (ok token) = ok (review_url token)
  url_of (err e) = err e

  unfoldable pub materialize_client_approval_url : ProposalRevision → Result String
  materialize_client_approval_url r = url_of (desk.unprotect r.token_ciphertext)

  unfoldable pub materialize_ses_notification : ℕ → Exec Office Fields
  materialize_ses_notification i = do
    action ←
        ask
          (λ s.
            when (λ a. is_from "ses" a && str_eq a.operation "send_change_order") (find_action i s))
          Error.not_found
    ciphertext ←
        lift
          (found (text_value (get_field "token_ciphertext" (payload_of action))) Error.validation)
    token ← lift (desk.unprotect ciphertext)
    pure (with_field "approval_url" (str (review_url token)) (payload_of action))
