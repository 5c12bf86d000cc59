-- ===== src/ChangeOrders/Sends.antt =====
-- services/change_orders/service.py: the outcomes of sending an offer by Gmail and of notifying its
-- freelancer by SES, as the workers record them.
use scope_guard.Base.{
  ℕ, ◌==◌, String, Bool, true, false, not, ◌&&◌, Option, none, some, List, [], ◌∷◌, if◌then◌else◌,
  str_eq, get, filter, Error, Result, ok, err, Exec, pure, raise, raise_if, lift, gets, ask, ◌>>=◌,
  ◌>>◌, Json, bool, num, str, obj, Fields, end, field, get_field,
}
use scope_guard.Workers.Faults.{no_injector}
use scope_guard.Workers.Tables.{ActionState, ExternalAction, action_id}
use scope_guard.Workers.Actions.{
  begin_action_dispatch, close_attempt, complete_action, mark_action_unknown, transition_action,
}
use scope_guard.Payments.Texts.{is_empty, fields_of}
use scope_guard.ChangeOrders.Tables.{
  ChangeOrderStatus, ChangeOrder, Office, order_id, notification_id,
}
use scope_guard.ChangeOrders.Office.{on_work, when, find_order, move_order, edit_action}
use scope_guard.ChangeOrders.Payload.{found}

abbrev pub find_action : ℕ → Office → Option ExternalAction
find_action i s = get i s.ledger.db.actions

-- an action of a provider, and of a provider's operation
abbrev pub is_from : String → ExternalAction → Bool
is_from provider a = str_eq a.provider provider

abbrev pub is_gmail_send : ExternalAction → Bool
is_gmail_send a = str_eq a.provider "gmail" && str_eq a.operation "send"

abbrev pub payload_of : ExternalAction → Fields
payload_of a = fields_of (some a.approved_payload)

-- `UUID(str(payload["change_order_id"]))`; identities stand as numbers in the payloads
abbrev pub order_in : Error → Option Json → Result ℕ
order_in bad none = err Error.key_error
order_in bad (some (num n)) = ok n
order_in bad (some _) = err bad

abbrev pub is_send_pending : ChangeOrderStatus → Bool
is_send_pending ChangeOrderStatus.send_pending = true
is_send_pending _ = false

unfoldable pub pending_order : ℕ → ℕ → Office → Option ChangeOrder
pending_order tenant i s = when (λ o. is_send_pending o.status) (find_order tenant i s)

unfoldable pub begin_gmail_send : ℕ → ℕ → Exec Office Fields
begin_gmail_send i now = do
  action ← ask (λ s. when is_gmail_send (find_action i s)) Error.not_found
  order ← lift (order_in Error.validation (get_field "change_order_id" (payload_of action)))
  pending ← ask (pending_order action.tenant_id order) Error.conflict
  on_work (begin_action_dispatch no_injector action.id now)
  pure (payload_of action)

-- `expected.get(name) == text`
abbrev pub is_text : Option Json → String → Bool
is_text (some (str s)) t = str_eq s t
is_text _ t = false

abbrev pub is_number : Option Json → ℕ → Bool
is_number (some (num n)) m = n == m
is_number _ m = false

unfoldable pub is_approved_content : Fields → String → String → ℕ → Bool
is_approved_content expected recipient body hash =
    is_text (get_field "recipient" expected) recipient
    && (is_text (get_field "plain_text_body" expected) body
        && is_number (get_field "content_hash" expected) hash)

abbrev pub message_ref : String → Fields
message_ref i = field "provider_message_id" (str i) end

-- `{**fields, name: v}`
unfoldable pub with_field : String → Json → Fields → Fields
with_field name v end = field name v end
with_field name v (field k w rest) =
    let tail = with_field name v rest in if str_eq k name then field name v rest else field k w tail

abbrev pub ref_fields : Option Json → Fields
ref_fields r = fields_of r

-- a result that comes after the client has confirmed the receipt
unfoldable pub record_late : ℕ → ExternalAction → String → Exec Office (Unit {0})
record_late now a message = do
  on_work (
      close_attempt a.id (λ t. record t {
        provider_request_id = some message;
        outcome_ref = some (
            obj
              (field "provider_message_id" (str message) (field "late_callback" (bool true) end)));
      }))
  edit_action a.id now (λ x. record x {
    receipt_ref =
        some (obj (with_field "provider_message_id" (str message) (ref_fields x.receipt_ref)));
  })

-- a result after the outcome was taken for unknown; the state is assigned, without the table
unfoldable pub settle_unknown : ℕ → ExternalAction → String → Exec Office (Unit {0})
settle_unknown now a message = do
  edit_action a.id now (λ x. record x { state = ActionState.succeeded })
  on_work (
      close_attempt a.id (λ t. record t {
        state = ActionState.succeeded;
        provider_request_id = some message;
        completed_at = some now;
        outcome_ref = some (obj (message_ref message));
      }))

unfoldable pub complete : ℕ → ExternalAction → String → Exec Office (Unit {0})
complete now a message = do
  on_work (complete_action no_injector a.id (obj (message_ref message)) (some message) now)
  pure tt

-- the order of a send that has arrived now awaits its client
unfoldable pub await_client : Option ChangeOrder → Exec Office (Unit {0})
await_client none = pure tt
await_client (some o) =
    if is_send_pending o.status
    then move_order o.id ChangeOrderStatus.awaiting_client_approval
    else pure tt

unfoldable pub arrive : ExternalAction → Exec Office (Unit {0})
arrive a = do
  i ← lift (order_in Error.value_error (get_field "change_order_id" (payload_of a)))
  order ← gets (find_order a.tenant_id i)
  await_client order

-- by the state of the action
unfoldable pub settle_send : ℕ → ExternalAction → String → ActionState → Exec Office (Unit {0})
settle_send now a message ActionState.receipt_confirmed = record_late now a message
settle_send now a message ActionState.unknown_outcome = settle_unknown now a message >> arrive a
settle_send now a message ActionState.dispatching = complete now a message >> arrive a
settle_send now a message _ = raise Error.conflict

unfoldable pub record_gmail_send_success :
    ℕ → ℕ → String → String → String → ℕ → Exec Office ExternalAction
record_gmail_send_success now i message recipient body hash = do
  action ← ask (find_action i) Error.not_found
  raise_if (not (is_approved_content (payload_of action) recipient body hash)) Error.validation
  settle_send now action message action.state
  ask (find_action i) Error.not_found

unfoldable pub unknown_send : ℕ → ExternalAction → String → ActionState → Exec Office ExternalAction
unknown_send now a reason ActionState.unknown_outcome = pure a
unknown_send now a reason ActionState.dispatching = on_work (mark_action_unknown a.id reason now)
unknown_send now a reason _ = raise Error.conflict

unfoldable pub record_gmail_send_unknown : ℕ → ℕ → String → Exec Office ExternalAction
record_gmail_send_unknown now i reason = do
  action ← ask (find_action i) Error.not_found
  unknown_send now action reason action.state

-- What the search of the mailbox gives for a message.
pub record Match : Type 0 where
  pub recipient : Option String
  pub plain_text_body : Option String
  pub content_hash : Option ℕ
  pub marker : Option String
  pub provider_message_id : Option String

-- `item.get(name) == expected.get(name)`
abbrev pub same_text : Option String → Option Json → Bool
same_text none none = true
same_text (some t) v = is_text v t
same_text none (some v) = false

abbrev pub same_number : Option ℕ → Option Json → Bool
same_number none none = true
same_number (some n) v = is_number v n
same_number none (some v) = false

abbrev pub has_message : Option String → Bool
has_message none = false
has_message (some t) = not (is_empty t)

unfoldable pub is_exact : Fields → Match → Bool
is_exact expected m =
    same_text m.recipient (get_field "recipient" expected)
    && (same_text m.plain_text_body (get_field "plain_text_body" expected)
        && (same_number m.content_hash (get_field "content_hash" expected)
            && (same_text m.marker (get_field "marker" expected)
                && has_message m.provider_message_id)))

abbrev pub hash_in : Option Json → Result ℕ
hash_in (some (num n)) = ok n
hash_in _ = err Error.key_error

abbrev pub text_in : Option Json → Result String
text_in (some (str s)) = ok s
text_in _ = err Error.key_error

abbrev pub is_unknown : ActionState → Bool
is_unknown ActionState.unknown_outcome = true
is_unknown _ = false

-- several messages match: a person decides
unfoldable pub review_send : ℕ → ExternalAction → Exec Office ExternalAction
review_send now a = do
  on_work (transition_action now ActionState.review_required a)
  edit_action a.id now
      (λ x. record x { uncertainty_reason = some "multiple_exact_provider_matches" })
  ask (find_action a.id) Error.not_found

-- An exact match has a message identity, and its fields are those of the payload.
unfoldable pub settle_match : ℕ → ExternalAction → Match → Exec Office ExternalAction
settle_match now a m = do
  message ← lift (found m.provider_message_id Error.key_error)
  recipient ← lift (text_in (get_field "recipient" (payload_of a)))
  body ← lift (text_in (get_field "plain_text_body" (payload_of a)))
  hash ← lift (hash_in (get_field "content_hash" (payload_of a)))
  record_gmail_send_success now a.id message recipient body hash

unfoldable pub by_matches : ℕ → ExternalAction → List Match → Exec Office ExternalAction
by_matches now a [] = pure a
by_matches now a (m ∷ []) = settle_match now a m
by_matches now a (m ∷ n ∷ rest) = review_send now a

unfoldable pub reconcile_gmail_unknown : ℕ → ℕ → List Match → Exec Office ExternalAction
reconcile_gmail_unknown now i matches = do
  action ← ask (λ s. when is_gmail_send (find_action i s)) Error.not_found
  raise_if (not (is_unknown action.state)) Error.conflict
  by_matches now action (filter (is_exact (payload_of action)) matches)
