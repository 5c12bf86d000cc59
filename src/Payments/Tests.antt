-- ===== src/Payments/Tests.antt =====
-- Runs of the payment service at concrete inputs, and the theorems at inputs that meet their hypotheses.
use scope_guard.Base.{
  ◌≡◌, ◌≢◌, refl, subst, ◌⊎◌, true, none, some, [], ◌∷◌, arith, All, ok, ◌>>=◌, Json, null, num,
  str, obj, end, field, get_field, find?, get, put,
}
use scope_guard.Domain.Auth.{TrustedContext}
use scope_guard.Workers.Tables.{Db, Job}
use scope_guard.Workers.Faults.{trip}
use scope_guard.Workers.Jobs.{enqueue_job, insert_job, new_job}
use scope_guard.Payments.Tables.{
  PaymentStatus, PaymentRequest, LinkStatus, PaymentLinkAttempt, PaymentObservation,
  PaymentWebhookIngress, Ledger, request_id, link_id,
}
use scope_guard.Payments.Texts.{
  Host, strip, strip_left, strip_right, is_space, lower, lower_char, upper, upper_char, text_in,
  truthy, either, opt_eq, opt_ℕ_eq, fields_of,
}
use scope_guard.Payments.Status.{
  changes, move, transition, transitions, by_move, moved, paid_time, is_final_for, allowed_move,
  same_status, PaymentEvent, payment_transitions,
}
use scope_guard.Payments.Collected.{
  IsLater, status_changes, transitions-IsLater, transition_table, IsReissue,
}
use scope_guard.Payments.Facts.{
  entity, clean, facts_of, read_facts, mismatch, order_differs, is_paid_event, is_capture_event,
  is_captured,
}
use scope_guard.Payments.Observe.{
  Event, event_id, is_observation_of, observation_for, has_link, attempt_for, request_for,
  has_payment, payment_for, new_payment, add_payment, record_payment, find_or_record,
  new_observation, add_observation, save_link, save_request, move_request, with_order, settle_event,
  apply_event, apply_pair, observe_new, observe_once, observe_payment_event,
}
use scope_guard.Payments.Capture.{IsAuthentic, paid_needs_capture}
use scope_guard.Payments.Sources.{IsVerified}
use scope_guard.Payments.Once.{observed_once}
use scope_guard.Payments.Links.{prepare_payment_link, on_db}
use scope_guard.Payments.Numbering.{IsNumbered, prepare_payment_link-IsNumbered}
use scope_guard.Payments.Webhooks.{
  accept_payment_webhook, accept_once, accept_new, add_ingress, new_ingress, is_delivery,
  find_target, normalize_job, by_link, by_reference, link_at, is_at, enqueue_normalize,
}
use scope_guard.Payments.Deliveries.{accepted_once}
use scope_guard.Payments.Reconcile.{LookupProvider, reconcile_payment_request}
use scope_guard.Payments.Flat.{IsFlat, reconcile_never_pays}
use scope_guard.Payments.Dispatch.{
  Provider, answered, dispatch_payment_link, find_link, has_action, is_link_action,
  dispatch_or_reuse, dispatch_new, on_response, validate_link_response, check_link, created_link,
  is_number,
}
use scope_guard.Payments.Terms.{IsMade, IsDispatched, IsDispatched-link}
use scope_guard.Workers.Tables.{ActionState, ActionKey, ExternalAction, action_id, attempt_id}
use scope_guard.Workers.Actions.{
  begin_action_dispatch, get_action, transition_action, allowed, save_action, add_attempt,
  last_attempt, later, complete_action, require_attempt, close_attempt, write_back, new_attempt,
}

abbrev a_host : Host
a_host = record {
  repr = λ j. "?";
  canonical_sha256 = λ j. 7;
  canonical_hex = λ j. "c";
  payload_hex = λ j. "p";
  reference_hex = λ r n. "0123";
}

abbrev a_request : PaymentStatus → PaymentRequest
a_request status = record {
  id = 1;
  tenant_id = 1;
  project_id = 3;
  accepted_revision_id = 4;
  total_minor = 5000;
  tax_minor = 0;
  currency = "INR";
  status = status;
  due_at = none;
  expire_at = none;
  paid_at = none;
  row_version = 1;
  created_at = 0;
  updated_at = 0;
}

abbrev a_link : PaymentLinkAttempt
a_link = record {
  id = 2;
  tenant_id = 1;
  project_id = 3;
  payment_request_id = 1;
  attempt_number = 1;
  provider_account_id = "acc";
  provider_environment = "test";
  reference_id = "sg-0123";
  amount_minor = 5000;
  currency = "INR";
  status = LinkStatus.created;
  provider_link_id = some "plink";
  provider_order_id = none;
  short_url = none;
  provider_status = none;
  action_id = none;
  provider_payload = none;
}

abbrev empty_db : Db
empty_db = record {
  jobs = [];
  outbox = [];
  receipts = [];
  actions = [];
  attempts = [];
  audits = [];
  next_id = 10;
}

abbrev a_ledger : Ledger
a_ledger = record {
  db = empty_db;
  requests = a_request PaymentStatus.pending ∷ [];
  links = a_link ∷ [];
  payments = [];
  observations = [];
  ingress = [];
  recipients = (1, 4, "client@example.org") ∷ [];
}

abbrev link_entity : Json
link_entity = obj (field "id" (str "plink") (field "reference_id" (str "sg-0123") end))

abbrev payment_entity : Json
payment_entity = obj (
    field "id" (str "pay") (
      field "amount" (num 5000) (
        field "currency" (str "inr")
          (field "status" (str "captured") (field "order_id" (str "ord") end)))))

abbrev a_payload : Json
a_payload = obj (
    field "payload"
      (obj (
        field "payment_link" (obj (field "entity" link_entity end))
          (field "payment" (obj (field "entity" payment_entity end)) end)))
      end)

abbrev an_event : Event
an_event = record {
  provider_account_id = "acc";
  provider_environment = "test";
  provider_event_id = " evt ";
  event_type = "payment_link.paid";
  payload = a_payload;
  signature_verified = true;
  observed_at = some 20;
}

abbrev a_paid_request : PaymentRequest
a_paid_request = record (a_request PaymentStatus.pending) {
  status = PaymentStatus.paid;
  paid_at = some 30;
  row_version = 2;
  updated_at = 30;
}

marks_paid :
    get 1 (observe_payment_event a_host an_event 30 a_ledger).1.requests ≡ some a_paid_request
unfolding observe_payment_event observation_for event_id is_observation_of observe_once observe_new
    read_facts facts_of entity clean text_in truthy either strip strip_left strip_right is_space
    upper upper_char lower lower_char get_field attempt_for has_link opt_eq request_for payment_for
    has_payment find_or_record record_payment new_payment add_payment new_observation
    add_observation apply_pair apply_event mismatch order_differs opt_ℕ_eq is_paid_event
    is_capture_event is_captured with_order settle_event save_link save_request move_request
    transition by_move move moved paid_time is_final_for allowed_move same_status find? get put
    ◌>>=◌
marks_paid = refl

paid_needs_capture_example : IsAuthentic an_event × IsVerified a_host an_event a_ledger 1
paid_needs_capture_example =
    paid_needs_capture a_host an_event 30 1 a_ledger a_paid_request ((λ i p. absurd cc), tt)
      marks_paid refl

abbrev an_observation : PaymentObservation
an_observation =
    new_observation a_host an_event (read_facts a_host a_payload "payment_link.paid")
      (some (a_request PaymentStatus.pending)) (some a_link)
      (some (
        new_payment 10 (some a_link) (some (a_request PaymentStatus.pending))
          (read_facts a_host a_payload "payment_link.paid") "pay" 5000))
      11 30

observes :
    observe_payment_event a_host an_event 30 a_ledger
    ≡ (ok an_observation, (observe_payment_event a_host an_event 30 a_ledger).1)
unfolding observe_payment_event observation_for event_id is_observation_of observe_once observe_new
    read_facts facts_of entity clean text_in truthy either strip strip_left strip_right is_space
    upper upper_char lower lower_char get_field attempt_for has_link opt_eq request_for payment_for
    has_payment find_or_record record_payment new_payment add_payment new_observation
    add_observation apply_pair apply_event mismatch order_differs opt_ℕ_eq is_paid_event
    is_capture_event is_captured with_order settle_event save_link save_request move_request
    transition by_move move moved paid_time is_final_for allowed_move same_status find? get put
    ◌>>=◌
observes = refl

observed_once_example :
    observe_payment_event a_host an_event 90 (observe_payment_event a_host an_event 30 a_ledger).1
    ≡ (ok an_observation, (observe_payment_event a_host an_event 30 a_ledger).1)
observed_once_example =
    observed_once a_host an_event 30 90 a_ledger
      (observe_payment_event a_host an_event 30 a_ledger).1 an_observation observes

transitions-IsLater_example : IsLater 1 (a_request PaymentStatus.pending) (
    transitions
      ((PaymentStatus.paid, 30) ∷ (PaymentStatus.expired, 40) ∷ [])
      (a_request PaymentStatus.pending))
unfolding status_changes transition by_move move moved is_final_for allowed_move same_status
transitions-IsLater_example =
    transitions-IsLater ((PaymentStatus.paid, 30) ∷ (PaymentStatus.expired, 40) ∷ [])
      (a_request PaymentStatus.pending)

transition_table_example :
    (move PaymentStatus.expired PaymentStatus.paid ≡ changes
      → ((event : PaymentEvent) × (payment_transitions PaymentStatus.expired event
            ≡ some PaymentStatus.paid))
        ⊎ IsReissue PaymentStatus.expired PaymentStatus.paid)
    × (IsReissue PaymentStatus.expired PaymentStatus.paid
        → move PaymentStatus.expired PaymentStatus.paid ≡ changes)
    × ((event : PaymentEvent)
        → payment_transitions PaymentStatus.expired event ≡ some PaymentStatus.paid
        → PaymentStatus.expired ≢ PaymentStatus.not_requested
        → move PaymentStatus.expired PaymentStatus.paid ≡ changes)
    × (PaymentStatus.expired ≡ PaymentStatus.not_requested
        → move PaymentStatus.expired PaymentStatus.paid ≢ changes)
transition_table_example = transition_table PaymentStatus.expired PaymentStatus.paid

abbrev a_context : TrustedContext
a_context = record {
  tenant_id = 1;
  subject = "worker";
  email = "";
  email_verified = true;
  correlation_id = 9;
}

prepare_payment_link-IsNumbered_example :
    IsNumbered
      (prepare_payment_link a_host
        (record { account_id = ""; environment = "test" })
        a_context
        30
        1
        a_ledger).1.links
prepare_payment_link-IsNumbered_example =
    prepare_payment_link-IsNumbered a_host (record { account_id = ""; environment = "test" })
      a_context 30 1 a_ledger (((omega arith, omega arith), tt), (tt, tt))

abbrev an_ingress : PaymentWebhookIngress
an_ingress = new_ingress a_host an_event 30 "acc" "payment_link.paid" "evt" 10

abbrev a_job : Job
a_job = new_job (normalize_job a_link 10 11) 12 30

accepts :
    accept_payment_webhook a_host an_event 30 a_ledger
    ≡ (ok (an_ingress, some a_job), (accept_payment_webhook a_host an_event 30 a_ledger).1)
unfolding accept_payment_webhook accept_once accept_new new_ingress add_ingress is_delivery
    find_target by_link by_reference link_at is_at enqueue_normalize enqueue_job insert_job new_job
    normalize_job trip on_db entity clean text_in truthy strip strip_left strip_right is_space
    get_field opt_eq find? ◌>>=◌
accepts = refl

accepted_once_example :
    accept_payment_webhook a_host an_event 90 (accept_payment_webhook a_host an_event 30 a_ledger).1
    ≡ (ok (an_ingress, none), (accept_payment_webhook a_host an_event 30 a_ledger).1)
accepted_once_example =
    accepted_once a_host an_event 30 90 a_ledger
      (accept_payment_webhook a_host an_event 30 a_ledger).1 an_ingress (some a_job) accepts

-- a provider whose link is paid
abbrev a_lookup : LookupProvider
a_lookup = record {
  account_id = "acc";
  environment = "test";
  fetch_payment_link = λ link. ok (field "status" (str "paid") end);
  list_payment_links = none;
}

a_lookup-IsFlat : IsFlat a_lookup
unfolding get_field
a_lookup-IsFlat link r e =
    let same : field "status" (str "paid") end ≡ r = cc in
    subst (λ fs. fields_of (get_field "entity" fs) ≡ end) same refl

reconcile_never_pays_example :
    All
      (λ x. x.id ≡ 1 → x.status ≢ PaymentStatus.paid)
      (reconcile_payment_request a_host a_lookup 30 a_context 1 a_ledger).1.requests
reconcile_never_pays_example =
    reconcile_never_pays a_host a_lookup a_context 30 1 1 a_ledger a_lookup-IsFlat
      ((λ i p. absurd cc), tt)

abbrev an_action : ExternalAction
an_action = record {
  id = 5;
  tenant_id = 1;
  project_id = some 3;
  action_key = ActionKey.payment_link_create 1 1;
  provider = "razorpay";
  operation = "payment_links.create";
  state = ActionState.ready;
  approved_payload = null;
  payload_digest = 7;
  idempotency_key = 6;
  receipt_ref = none;
  uncertainty_reason = none;
  created_at = 0;
  updated_at = 0;
}

abbrev dispatch_ledger : Ledger
dispatch_ledger = record a_ledger {
  db = record empty_db { actions = an_action ∷ [] };
  requests = a_request PaymentStatus.creation_pending ∷ [];
  links =
      record a_link { status = LinkStatus.ready; provider_link_id = none; action_id = some 5 } ∷ [];
}

-- a provider that makes the link of the attempt
abbrev a_provider : Provider
a_provider = record {
  account_id = "acc";
  environment = "test";
  create_payment_link = λ j. answered (
      obj (
        field "id" (str "plink") (
          field "short_url" (str "https://example.org/p") (
            field "amount" (num 5000)
              (field "currency" (str "INR") (field "reference_id" (str "sg-0123") end))))));
}

dispatches :
    dispatch_payment_link a_host a_provider 40 5 dispatch_ledger
    ≡ (ok "plink", (dispatch_payment_link a_host a_provider 40 5 dispatch_ledger).1)
unfolding dispatch_payment_link find_link has_action is_link_action dispatch_or_reuse dispatch_new
    on_db begin_action_dispatch get_action transition_action allowed save_action add_attempt
    last_attempt later on_response validate_link_response check_link created_link complete_action
    require_attempt close_attempt write_back is_number new_attempt trip text_in truthy either strip
    strip_left strip_right is_space upper upper_char get_field clean opt_ℕ_eq save_link save_request
    move_request transition by_move move moved paid_time is_final_for allowed_move same_status find?
    get put ◌>>=◌
dispatches = refl

IsDispatched-link_example :
    (IsMade 5 dispatch_ledger "plink"
      × ((dispatch_payment_link a_host a_provider 40 5 dispatch_ledger).1 ≡ dispatch_ledger))
    ⊎ IsDispatched a_host a_provider 5 dispatch_ledger "plink"
IsDispatched-link_example =
    IsDispatched-link a_host a_provider 40 5 dispatch_ledger
      (dispatch_payment_link a_host a_provider 40 5 dispatch_ledger).1 "plink" dispatches
