-- ===== src/Payments/Dispatch.antt =====
-- services/payments/service.py: dispatching a prepared link to the provider.
use scope_guard.Base.{
  ℕ, String, Bool, true, false, not, ◌&&◌, ◌||◌, Option, none, some, str_eq, ◌==◌, if◌then◌else◌,
  find?, get, Error, ok, Exec, pure, raise, raise_if, or_raise, ◌>>=◌, ◌>>◌, Json, bool, num, str,
  obj, Fields, end, field, get_field,
}
use scope_guard.Workers.Faults.{no_injector}
use scope_guard.Workers.Tables.{ActionState, ExternalAction, action_id}
use scope_guard.Workers.Actions.{
  begin_action_dispatch, complete_action, mark_action_review_required, mark_action_unknown,
}
use scope_guard.Payments.Tables.{
  PaymentStatus, PaymentRequest, LinkStatus, PaymentLinkAttempt, Ledger, request_id, link_id,
}
use scope_guard.Payments.Texts.{Host, strip, upper, is_empty, text_in, either, opt_ℕ_eq}
use scope_guard.Payments.Observe.{save_link, move_request}
use scope_guard.Payments.Facts.{clean}
use scope_guard.Payments.Links.{on_db, awaits_link}

-- What a call of the provider comes back with: an answer, a failure that may be retried, one that is
-- definite, or any other exception, with its message or class name.
pub data Response : Type 0 where
  answered : Json → Response
  retryable rejected crashed : String → Response

pub record Provider : Type 0 where
  pub account_id : String
  pub environment : String
  pub create_payment_link : Json → Response

-- `amount != attempt.amount_minor`, where Python's True equals 1
unfoldable pub is_number : Option Json → ℕ → Bool
is_number (some (num m)) n = m == n
is_number (some (bool true)) n = 1 == n
is_number (some (bool false)) n = 0 == n
is_number _ n = false

pub record LinkResponse : Type 0 where
  pub provider_id : String
  pub short_url : String
  pub provider_status : String
  pub order_id : Option String

-- the response that `_validate_link_response` accepts, or the reason of its exception
pub data Validated : Type 0 where
  accepted : LinkResponse → Validated
  refused : String → Validated

unfoldable pub validate_link_response : Host → PaymentLinkAttempt → Fields → Validated
validate_link_response host attempt response =
    let provider_id = strip (text_in host (get_field "id" response)) in
    let short_url = strip (text_in host (get_field "short_url" response)) in
    let currency = upper (strip (text_in host (get_field "currency" response))) in
    let reference = strip (text_in host (get_field "reference_id" response)) in
    if is_empty provider_id || is_empty short_url
    then refused "razorpay_link_identity_missing"
    else if not (is_number (get_field "amount" response) attempt.amount_minor)
        || (not (str_eq currency attempt.currency) || not (str_eq reference attempt.reference_id))
    then refused "razorpay_link_terms_mismatch"
    else accepted (record {
      provider_id = provider_id;
      short_url = short_url;
      provider_status = text_in host (either (get_field "status" response) (some (str "created")));
      order_id = clean host (get_field "order_id" response);
    })

unfoldable pub is_link_action : ExternalAction → Bool
is_link_action a = str_eq a.provider "razorpay" && str_eq a.operation "payment_links.create"

abbrev pub link_action_of : Option ExternalAction → Option ExternalAction
link_action_of none = none
link_action_of (some a) = if is_link_action a then some a else none

-- `_payment_link_attempt`
unfoldable pub has_action : ℕ → PaymentLinkAttempt → Bool
has_action action a = opt_ℕ_eq a.action_id action

unfoldable pub find_link : ℕ → Exec Ledger PaymentLinkAttempt
find_link action s = or_raise (find? (has_action action) s.links) Error.conflict s

-- the id of a link that was made by an action that has succeeded
abbrev pub made_link : ActionState → Option String → Option String
made_link ActionState.succeeded link = link
made_link _ link = none

module _ (host : Host) (now : ℕ) (action : ℕ) (attempt : PaymentLinkAttempt)
    (payment : PaymentRequest) where
  -- the handlers of an exception that leaves the outcome unknown
  unfoldable pub uncertain_link : String → Error → Exec Ledger String
  uncertain_link reason e = do
    save_link (record attempt { status = LinkStatus.unknown_outcome })
    move_request payment PaymentStatus.review_required now
    on_db (mark_action_unknown action reason now)
    raise e

  unfoldable pub rejected_link : String → Exec Ledger String
  rejected_link reason = do
    save_link (record attempt { status = LinkStatus.review_required })
    move_request payment PaymentStatus.review_required now
    on_db (mark_action_review_required action reason now)
    raise Error.provider_rejected

  unfoldable pub created_link : Fields → LinkResponse → Exec Ledger String
  created_link response r = do
    save_link (record attempt {
      status = LinkStatus.created;
      provider_link_id = some r.provider_id;
      provider_order_id = r.order_id;
      short_url = some r.short_url;
      provider_status = some r.provider_status;
      provider_payload = some (obj response);
    })
    move_request payment PaymentStatus.pending now
    on_db (
        complete_action no_injector action
          (obj (
            field "provider" (str "razorpay") (
              field "operation" (str "payment_links.create")
                (field "provider_link_id" (str r.provider_id) end))))
          (some r.provider_id) now)
    pure r.provider_id

  unfoldable pub check_link : Fields → Validated → Exec Ledger String
  check_link response (accepted r) = created_link response r
  check_link response (refused reason) = rejected_link reason

  -- an answer that is no object fails on its first `get`
  unfoldable pub on_response : Response → Exec Ledger String
  on_response (answered (obj response)) =
      check_link response (validate_link_response host attempt response)
  on_response (answered answer) = uncertain_link "AttributeError" Error.provider_other
  on_response (retryable reason) = uncertain_link reason Error.provider_retryable
  on_response (rejected reason) = rejected_link reason
  on_response (crashed name) = uncertain_link name Error.provider_other

module _ (host : Host) (provider : Provider) (now : ℕ) where
  -- from the eligibility of the request on
  unfoldable pub dispatch_new :
      ExternalAction → PaymentLinkAttempt → PaymentRequest → Exec Ledger String
  dispatch_new action attempt payment = do
    raise_if (not (awaits_link payment.status)) Error.conflict
    raise_if
        (not (
          str_eq provider.environment "test"
          && str_eq provider.account_id attempt.provider_account_id))
        Error.conflict
    on_db (begin_action_dispatch no_injector action.id now)
    on_response host now action.id attempt payment
        (provider.create_payment_link action.approved_payload)

  unfoldable pub dispatch_or_reuse :
      ExternalAction → PaymentLinkAttempt → PaymentRequest → Option String → Exec Ledger String
  dispatch_or_reuse action attempt payment (some link) s = (ok link, s)
  dispatch_or_reuse action attempt payment none s = dispatch_new action attempt payment s

  unfoldable pub dispatch_payment_link : ℕ → Exec Ledger String
  dispatch_payment_link i = do
    action ← λ s. or_raise (link_action_of (get i s.db.actions)) Error.not_found s
    attempt ← find_link action.id
    payment ← λ s. or_raise (get attempt.payment_request_id s.requests) Error.not_found s
    dispatch_or_reuse action attempt payment (made_link action.state attempt.provider_link_id)
