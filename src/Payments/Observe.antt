-- ===== src/Payments/Observe.antt =====
-- services/payments/service.py `observe_payment_event`: a verified provider event becomes an observation,
-- and only a verified capture of the exact amount marks a request as paid.
use scope_guard.Base.{
  ℕ, ◌+◌, String, Bool, true, false, not, ◌&&◌, Option, none, some, List, [], ◌∷◌, ◌++◌, str_eq,
  leb, ltb, if◌then◌else◌, find?, get, put, Error, ok, Exec, pure, raise_if, lift, gets, ◌>>=◌,
  ◌>>◌, Json, obj, Fields, end, field,
}
use scope_guard.Workers.Tables.{seconds}
use scope_guard.Payments.Tables.{
  PaymentStatus, PaymentRequest, LinkStatus, PaymentLinkAttempt, PaymentAttempt, AssociationState,
  PaymentObservation, Ledger, request_id, link_id, payment_id, observation_id,
}
use scope_guard.Payments.Texts.{Host, strip, text_or, opt_eq}
use scope_guard.Payments.Status.{same_status, transition}
use scope_guard.Payments.Facts.{
  Facts, read_facts, mismatch, is_paid_event, is_capture_event, is_expiry_event, is_cancel_event,
  is_captured,
}

-- The arguments of `observe_payment_event`; `current` is `utc_now()`.
pub record Event : Type 0 where
  pub provider_account_id : String
  pub provider_environment : String
  pub provider_event_id : String
  pub event_type : String
  pub payload : Json
  pub signature_verified : Bool
  pub observed_at : Option ℕ

unfoldable pub event_id : Host → Event → String
event_id host e = text_or (strip e.provider_event_id) (host.payload_hex e.payload)

unfoldable pub is_observation_of : String → String → String → PaymentObservation → Bool
is_observation_of account environment event o =
    str_eq o.provider_account_id account
    && (str_eq o.provider_environment environment && str_eq o.provider_event_id event)

unfoldable pub observation_for : Host → Event → List PaymentObservation → Option PaymentObservation
observation_for host e =
    find? (is_observation_of e.provider_account_id e.provider_environment (event_id host e))

unfoldable pub has_link : String → PaymentLinkAttempt → Bool
has_link link a = opt_eq a.provider_link_id link

-- the attempt of the provider's link
unfoldable pub attempt_for : Option String → List PaymentLinkAttempt → Option PaymentLinkAttempt
attempt_for none links = none
attempt_for (some link) links = find? (has_link link) links

-- `session.get(PaymentRequest, attempt.payment_request_id) if attempt is not None else None`
unfoldable pub request_for : Option PaymentLinkAttempt → List PaymentRequest → Option PaymentRequest
request_for none requests = none
request_for (some a) requests = get a.payment_request_id requests

unfoldable pub has_payment : String → PaymentAttempt → Bool
has_payment payment p = str_eq p.provider_payment_id payment

unfoldable pub payment_for : Option String → List PaymentAttempt → Option PaymentAttempt
payment_for none payments = none
payment_for (some payment) payments = find? (has_payment payment) payments

abbrev pub maybe : {A B : Type 0} → (A → B) → Option A → Option B
maybe f none = none
maybe f (some a) = some (f a)

abbrev pub or_default : {A : Type 0} → Option A → A → A
or_default none d = d
or_default (some a) d = a

abbrev pub object_or_none : Fields → Option Json
object_or_none end = none
object_or_none (field k v rest) = some (obj (field k v rest))

unfoldable pub new_payment :
    ℕ → Option PaymentLinkAttempt → Option PaymentRequest → Facts → String → ℕ → PaymentAttempt
new_payment id attempt request facts payment amount = record {
  id = id;
  tenant_id = maybe (λ r. r.tenant_id) request;
  project_id = maybe (λ r. r.project_id) request;
  link_attempt_id = maybe (λ a. a.id) attempt;
  provider_payment_id = payment;
  provider_order_id = facts.order_id;
  amount_minor = amount;
  currency = or_default facts.currency "INR";
  status = facts.observed_status;
  captured = is_captured facts.observed_status;
  provider_payload = object_or_none facts.payment_entity;
}

-- the flush of a new payment: the database refuses any currency but INR
unfoldable pub add_payment : PaymentAttempt → Exec Ledger (Option PaymentAttempt)
add_payment p = do
  raise_if (not (str_eq p.currency "INR")) Error.integrity
  λ s. (
    ok (some p),
    record s { payments = s.payments ++ p ∷ []; db = record (s.db) { next_id = s.db.next_id + 1 } },
  )

-- `amount is not None and 0 < amount <= 100000000`
unfoldable pub record_payment :
    Option PaymentLinkAttempt
    → Option PaymentRequest
    → Facts
    → String
    → Option ℕ
    → Exec Ledger (Option PaymentAttempt)
record_payment attempt request facts payment none s = (ok none, s)
record_payment attempt request facts payment (some amount) s =
    if ltb 0 amount && leb amount 100000000
    then add_payment (new_payment s.db.next_id attempt request facts payment amount) s
    else (ok none, s)

-- the payment that the provider names, stored where it is new
unfoldable pub find_or_record :
    Option PaymentAttempt
    → Option PaymentLinkAttempt
    → Option PaymentRequest
    → Facts
    → Option String
    → Exec Ledger (Option PaymentAttempt)
find_or_record (some p) attempt request facts payment s = (ok (some p), s)
find_or_record none attempt request facts none s = (ok none, s)
find_or_record none attempt request facts (some payment) s =
    record_payment attempt request facts payment facts.amount s

-- both found
abbrev pub matched_pair :
    Option PaymentRequest → Option PaymentLinkAttempt → Option (PaymentRequest × PaymentLinkAttempt)
matched_pair (some r) (some a) = some (r, a)
matched_pair _ _ = none

abbrev pub association :
    Option (PaymentRequest × PaymentLinkAttempt) → ℕ → AssociationState × Option ℕ × Option ℕ
association (some pair) at = (AssociationState.associated, none, some at)
association none at = (AssociationState.unmatched, some (at + seconds 86400), none)

unfoldable pub new_observation :
    Host
    → Event
    → Facts
    → Option PaymentRequest
    → Option PaymentLinkAttempt
    → Option PaymentAttempt
    → ℕ
    → ℕ
    → PaymentObservation
new_observation host e facts request attempt payment id current =
    let at = or_default e.observed_at current in
    let (state, retry, since) = association (matched_pair request attempt) at in
    record {
      id = id;
      tenant_id = maybe (λ r. r.tenant_id) request;
      project_id = maybe (λ r. r.project_id) request;
      payment_request_id = maybe (λ r. r.id) request;
      link_attempt_id = maybe (λ a. a.id) attempt;
      payment_attempt_id = maybe (λ p. p.id) payment;
      provider_account_id = e.provider_account_id;
      provider_environment = e.provider_environment;
      provider_event_id = event_id host e;
      event_type = e.event_type;
      provider_link_id = facts.link_id;
      provider_payment_id = facts.payment_id;
      provider_order_id = facts.order_id;
      reference_id = facts.reference;
      amount_minor = facts.amount;
      currency = facts.currency;
      observed_status = facts.observed_status;
      signature_verified = true;
      raw_payload = e.payload;
      observed_at = at;
      created_at = current;
      association_state = state;
      next_retry_at = retry;
      associated_at = since;
    }

unfoldable pub add_observation : PaymentObservation → Exec Ledger (Unit {0})
add_observation o s = (
  ok tt,
  record s {
    observations = s.observations ++ o ∷ [];
    db = record (s.db) { next_id = s.db.next_id + 1 };
  },
)

unfoldable pub save_link : PaymentLinkAttempt → Exec Ledger (Unit {0})
save_link a s = (ok tt, record s { links = put a s.links })

unfoldable pub save_request : PaymentRequest → Exec Ledger (Unit {0})
save_request r s = (ok tt, record s { requests = put r s.requests })

-- `_transition` on the stored row
unfoldable pub move_request : PaymentRequest → PaymentStatus → ℕ → Exec Ledger (Unit {0})
move_request r target current = do
  changed ← lift (transition r target current)
  save_request changed

-- `if request.status == PENDING: _transition(...)`
unfoldable pub move_pending : PaymentRequest → PaymentStatus → ℕ → Exec Ledger (Unit {0})
move_pending r target current =
    if same_status r.status PaymentStatus.pending then move_request r target current else pure tt

unfoldable pub under_review : PaymentRequest → PaymentLinkAttempt → ℕ → Exec Ledger (Unit {0})
under_review r a current = do
  save_link (record a { status = LinkStatus.review_required })
  move_request r PaymentStatus.review_required current

abbrev pub captured_payment : Option PaymentAttempt → Bool
captured_payment none = false
captured_payment (some p) = p.captured

-- `attempt.provider_order_id = order_id` where a capture brings the order
unfoldable pub with_order : PaymentLinkAttempt → Bool → Option String → PaymentLinkAttempt
with_order a capture order = elim a.provider_order_id [
  | none ↦ if capture then record a { provider_order_id = order } else a
  | some o ↦ a
]

-- the events that close a link, and all others
unfoldable pub close_event :
    PaymentRequest → PaymentLinkAttempt → Event → ℕ → Exec Ledger (Unit {0})
close_event r a e current =
    if is_expiry_event e.event_type
    then (save_link (record a { status = LinkStatus.expired })
        >> move_pending r PaymentStatus.expired current)
    else if is_cancel_event e.event_type
    then (save_link (record a { status = LinkStatus.cancelled })
        >> move_pending r PaymentStatus.cancelled current)
    else save_link a

unfoldable pub settle_event :
    PaymentRequest → PaymentLinkAttempt → Option PaymentAttempt → Event → ℕ → Exec Ledger (Unit {0})
settle_event r a payment e current =
    if is_capture_event e.event_type && not (captured_payment payment)
    then under_review r a current
    else if is_paid_event e.event_type
    then (save_link a >> move_request r PaymentStatus.paid current)
    else close_event r a e current

-- the effect of an associated observation
unfoldable pub apply_event :
    PaymentRequest
    → PaymentLinkAttempt
    → Option PaymentAttempt
    → Facts
    → Event
    → ℕ
    → Exec Ledger (Unit {0})
apply_event r attempt payment facts e current =
    if mismatch attempt facts e.provider_account_id e.provider_environment e.event_type
    then under_review r attempt current
    else settle_event r (with_order attempt (is_capture_event e.event_type) facts.order_id) payment
        e current

unfoldable pub apply_pair :
    Option (PaymentRequest × PaymentLinkAttempt)
    → Option PaymentAttempt
    → Facts
    → Event
    → ℕ
    → Exec Ledger (Unit {0})
apply_pair none payment facts e current = pure tt
apply_pair (some (r, a)) payment facts e current = apply_event r a payment facts e current

module _ (host : Host) (e : Event) (current : ℕ) where
  -- from `link = _entity(payload, "payment_link")` on
  unfoldable pub observe_new : Exec Ledger PaymentObservation
  observe_new = do
    let facts = read_facts host e.payload e.event_type
    attempt ← gets (λ s. attempt_for facts.link_id s.links)
    request ← gets (λ s. request_for attempt s.requests)
    known ← gets (λ s. payment_for facts.payment_id s.payments)
    payment ← find_or_record known attempt request facts facts.payment_id
    id ← gets (λ s. s.db.next_id)
    let o = new_observation host e facts request attempt payment id current
    add_observation o
    apply_pair (matched_pair request attempt) payment facts e current
    pure o

  unfoldable pub observe_once : Option PaymentObservation → Exec Ledger PaymentObservation
  observe_once (some o) s = (ok o, s)
  observe_once none s = observe_new s

  unfoldable pub observe_payment_event : Exec Ledger PaymentObservation
  observe_payment_event = do
    raise_if (not (str_eq e.provider_environment "test")) Error.validation
    raise_if (not e.signature_verified) Error.validation
    existing ← gets (λ s. observation_for host e s.observations)
    observe_once existing
