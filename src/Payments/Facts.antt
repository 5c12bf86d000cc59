-- ===== src/Payments/Facts.antt =====
-- services/payments/service.py `observe_payment_event`: what the service reads in a provider's payload.
use scope_guard.Base.{
  ℕ, String, Bool, false, not, ◌&&◌, ◌||◌, Option, none, some, str_eq, Json, str, Fields, get_field,
  is_none,
}
use scope_guard.Payments.Tables.{PaymentLinkAttempt}
use scope_guard.Payments.Texts.{
  Host, strip, upper, lower, non_empty, text_in, either, get_or, fields_of, int_of, opt_eq,
  opt_ℕ_eq,
}

-- `_entity`
unfoldable pub entity : Json → String → Fields
entity payload name = fields_of (
    get_field "entity"
      (fields_of (get_field name (fields_of (get_field "payload" (fields_of (some payload)))))))

-- The fields that are read from the payload.
pub record Facts : Type 0 where
  pub link_id : Option String
  pub payment_id : Option String
  pub order_id : Option String
  pub reference : Option String
  pub amount : Option ℕ
  pub currency : Option String
  pub observed_status : String
  pub payment_entity : Fields

-- `str(v or "").strip() or None`
unfoldable pub clean : Host → Option Json → Option String
clean host v = non_empty (strip (text_in host v))

unfoldable pub facts_of : Host → Fields → Fields → Fields → String → Facts
facts_of host link payment order event_type = record {
  link_id = clean host (get_field "id" link);
  payment_id = clean host (get_field "id" payment);
  order_id = clean host (either (get_field "order_id" payment) (get_field "id" order));
  reference = clean host (get_field "reference_id" link);
  amount = int_of (
      get_or (get_field "amount" payment)
        (get_or (get_field "amount_paid" link) (get_field "amount" link)));
  currency = non_empty (
      upper
        (strip (text_in host (either (get_field "currency" payment) (get_field "currency" link)))));
  observed_status = strip (
      text_in host (
        either (either (get_field "status" payment) (get_field "status" link))
          (some (str event_type))));
  payment_entity = payment;
}

unfoldable pub read_facts : Host → Json → String → Facts
read_facts host payload event_type =
    facts_of host (entity payload "payment_link") (entity payload "payment")
      (entity payload "order") event_type

-- The names of events, after `event_type.lower()`.
unfoldable pub is_paid_event : String → Bool
is_paid_event event_type =
    let e = lower event_type in str_eq e "payment_link.paid" || str_eq e "payment.captured"

unfoldable pub is_capture_event : String → Bool
is_capture_event event_type =
    is_paid_event event_type || str_eq (lower event_type) "payment.authorized"

unfoldable pub is_expiry_event : String → Bool
is_expiry_event event_type =
    let e = lower event_type in str_eq e "payment_link.expired" || str_eq e "payment.expired"

unfoldable pub is_cancel_event : String → Bool
is_cancel_event event_type =
    let e = lower event_type in
    str_eq e "payment_link.cancelled" || str_eq e "payment_link.canceled"

-- `observed_status.lower() in {"captured", "paid"}`
unfoldable pub is_captured : String → Bool
is_captured observed = let s = lower observed in str_eq s "captured" || str_eq s "paid"

-- `order_id != attempt.provider_order_id` where the attempt has one
unfoldable pub order_differs : Option String → Option String → Bool
order_differs none order_id = false
order_differs (some known) order_id = not (opt_eq order_id known)

-- `mismatch`, once there is an attempt
unfoldable pub mismatch : PaymentLinkAttempt → Facts → String → String → String → Bool
mismatch attempt facts account environment event_type =
    not (str_eq attempt.provider_account_id account)
    || (not (str_eq attempt.provider_environment environment)
        || (not (opt_eq facts.reference attempt.reference_id)
            || (not (opt_ℕ_eq facts.amount attempt.amount_minor)
                || (not (opt_eq facts.currency attempt.currency)
                    || (is_capture_event event_type && is_none facts.order_id
                        || order_differs attempt.provider_order_id facts.order_id)))))
