-- ===== src/Payments/Reconcile.antt =====
-- services/payments/service.py: asking the provider for the state of a link, and queueing such work.
use scope_guard.Base.{
  ℕ, ◌+◌, String, Bool, true, false, not, ◌&&◌, ◌||◌, Option, none, some, List, [], ◌∷◌, str_eq,
  ltb, ◌==◌, is_some, if◌then◌else◌, filter, take, sort_by, any, Error, Result, ok, err, Exec, pure,
  raise, raise_if, or_raise, gets, ◌>>=◌, ◌>>◌, Json, null, num, str, arr, obj, cons, Fields, end,
  field, get_field,
}
use Prim.Native.String.{◌++◌ as text_append}
use scope_guard.Domain.Auth.{TrustedContext}
use scope_guard.Workers.Faults.{no_injector}
use scope_guard.Workers.Tables.{JobState, Job, Db, seconds}
use scope_guard.Workers.Jobs.{JobRequest, enqueue_job}
use scope_guard.Payments.Tables.{
  PaymentStatus, PaymentRequest, LinkStatus, PaymentLinkAttempt, PaymentObservation, Ledger,
}
use scope_guard.Payments.Texts.{
  Host, strip, lower, upper, text_in, either, truthy, fields_of, int_of,
}
use scope_guard.Payments.Facts.{clean}
use scope_guard.Payments.Status.{same_status}
use scope_guard.Payments.Observe.{Event, observe_payment_event, save_link, move_request, or_default}
use scope_guard.Payments.Links.{on_db, find_payment, latest_link, newest}
use scope_guard.Payments.Dispatch.{is_number}

-- The part of the provider that reconciliation calls; `fetch` raises or answers with an object, and
-- `list` is missing on a provider without a search.
pub record LookupProvider : Type 0 where
  pub account_id : String
  pub environment : String
  pub fetch_payment_link : String → Result Fields
  pub list_payment_links : Option (String → List Fields)

-- a candidate with the frozen reference, amount and currency
unfoldable pub is_match : Host → PaymentLinkAttempt → Fields → Bool
is_match host a item =
    str_eq (strip (text_in host (get_field "reference_id" item))) a.reference_id
    && (is_number (get_field "amount" item) a.amount_minor
        && str_eq (upper (text_in host (get_field "currency" item))) a.currency)

unfoldable pub last_of : List Fields → Option Fields
last_of [] = none
last_of (x ∷ []) = some x
last_of (x ∷ (y ∷ rest)) = last_of (y ∷ rest)

unfoldable pub candidates : LookupProvider → String → List Fields
candidates provider reference = elim provider.list_payment_links [
  | none ↦ []
  | some lookup ↦ lookup reference
]

unfoldable pub found_link : Host → Fields → PaymentLinkAttempt → PaymentLinkAttempt
found_link host response a = record a {
  provider_link_id = clean host (get_field "id" response);
  short_url = clean host (get_field "short_url" response);
  provider_status =
      some (text_in host (either (get_field "status" response) (some (str "created"))));
  provider_order_id = clean host (get_field "order_id" response);
  provider_payload = some (obj response);
}

-- the first entry of `payments`, if it is an object
abbrev pub first_payment : Option Json → Fields → Fields
first_payment (some (arr (cons (obj p) rest))) fs = field "payment" (obj p) fs
first_payment _ fs = fs

unfoldable pub order_entry : Option Json → Fields
order_entry o =
    if truthy o then field "order" (obj (field "id" (or_default o null) end)) end else end

-- `payload_entity`: the response stands under its name directly, without an `entity`
unfoldable pub payload_entity : Fields → Fields
payload_entity response =
    field "payment_link" (obj response)
      (first_payment (get_field "payments" response) (order_entry (get_field "order_id" response)))

unfoldable pub event_name : Host → Fields → ℕ → String
event_name host response total =
    let status = lower (text_in host (get_field "status" response)) in
    if str_eq status "paid" || or_default (int_of (get_field "amount_paid" response)) 0 == total
    then "payment_link.paid"
    else if str_eq status "expired"
    then "payment_link.expired"
    else if str_eq status "cancelled" || str_eq status "canceled"
    then "payment_link.cancelled"
    else "payment_link.reconciled"

unfoldable pub reconcile_event : Host → PaymentLinkAttempt → String → Fields → ℕ → Event
reconcile_event host a link response total =
    let event = event_name host response total in
    record {
      provider_account_id = a.provider_account_id;
      provider_environment = a.provider_environment;
      provider_event_id =
          text_append "reconcile:"
            (text_append link (text_append ":" (host.canonical_hex (obj response))));
      event_type = event;
      payload =
          obj (field "event" (str event) (field "payload" (obj (payload_entity response)) end));
      signature_verified = true;
      observed_at = none;
    }

module _ (host : Host) (provider : LookupProvider) (now : ℕ) where
  unfoldable pub observe_link :
      PaymentRequest → PaymentLinkAttempt → String → Exec Ledger PaymentObservation
  observe_link p a link s = elim (provider.fetch_payment_link link) [
    | err e ↦ (err e, s)
    | ok response ↦
        observe_payment_event host (reconcile_event host a link response p.total_minor) now s
  ]

  -- a link without an identity is not fetched
  unfoldable pub observe_found :
      PaymentRequest → PaymentLinkAttempt → Option String → Exec Ledger PaymentObservation
  observe_found p a none = raise Error.conflict
  observe_found p a (some link) = observe_link p a link

  unfoldable pub adopt_match :
      PaymentRequest → PaymentLinkAttempt → Option Fields → Exec Ledger PaymentObservation
  adopt_match p a none = do
    save_link (record a { status = LinkStatus.unknown_outcome })
    move_request p PaymentStatus.review_required now
    raise Error.conflict
  adopt_match p a (some response) = do
    let found = found_link host response a
    save_link found
    observe_found p found found.provider_link_id

  unfoldable pub search_or_observe :
      PaymentRequest → PaymentLinkAttempt → Option String → Exec Ledger PaymentObservation
  search_or_observe p a (some link) = observe_link p a link
  search_or_observe p a none =
      adopt_match p a (last_of (filter (is_match host a) (candidates provider a.reference_id)))

  unfoldable pub reconcile_payment_request : TrustedContext → ℕ → Exec Ledger PaymentObservation
  reconcile_payment_request context i = do
    payment ← find_payment context i
    raise_if (not (str_eq provider.environment "test")) Error.conflict
    attempt ← λ s. or_raise (latest_link payment.id s.links) Error.conflict s
    raise_if (not (str_eq provider.account_id attempt.provider_account_id)) Error.conflict
    search_or_observe payment attempt attempt.provider_link_id

-- `schedule_payment_maintenance`
abbrev pub is_watched : PaymentStatus → Bool
is_watched PaymentStatus.pending = true
is_watched PaymentStatus.review_required = true
is_watched PaymentStatus.paid = true
is_watched _ = false

unfoldable pub by_update : PaymentRequest → PaymentRequest → Bool
by_update a b = ltb a.updated_at b.updated_at || a.updated_at == b.updated_at && ltb a.id b.id

unfoldable pub is_linked : ℕ → PaymentLinkAttempt → Bool
is_linked request a = a.payment_request_id == request && is_some a.provider_link_id

-- a day for a paid request, or else fifteen minutes
unfoldable pub interval : PaymentStatus → ℕ
interval PaymentStatus.paid = seconds 86400
interval _ = seconds 900

-- `paid_at is None or paid_at < current - 30 days`
unfoldable pub paid_long_ago : Option ℕ → ℕ → Bool
paid_long_ago none current = true
paid_long_ago (some t) current = ltb (t + seconds 2592000) current

unfoldable pub has_request : ℕ → PaymentObservation → Bool
has_request request o = elim o.payment_request_id [ none ↦ false | some r ↦ r == request ]

-- an observation of the request within the interval
unfoldable pub seen_lately : PaymentRequest → ℕ → PaymentObservation → Bool
seen_lately p current o = has_request p.id o && ltb current (o.created_at + interval p.status)

abbrev pub is_open : JobState → Bool
is_open JobState.queued = true
is_open JobState.running = true
is_open JobState.retry_wait = true
is_open _ = false

abbrev pub is_num : Option Json → ℕ → Bool
is_num (some (num m)) n = m == n
is_num _ n = false

unfoldable pub is_reconcile_job : PaymentRequest → Job → Bool
is_reconcile_job p j =
    j.tenant_id == p.tenant_id
    && (str_eq j.kind "payment.reconcile"
        && (is_open j.state
            && is_num (get_field "payment_request_id" (fields_of (some j.payload_ref))) p.id))

unfoldable pub reconcile_job : PaymentRequest → ℕ → JobRequest
reconcile_job p correlation = record {
  tenant_id = p.tenant_id;
  kind = "payment.reconcile";
  payload_ref = obj (
      field "payment_request_id" (num p.id) (
        field "mode" (str (if same_status p.status PaymentStatus.paid then "daily" else "pending"))
          end));
  correlation_id = correlation;
  project_id = some p.project_id;
  available_at = none;
  deadline_at = none;
  max_attempts = 3;
  causation_id = none;
}

-- whether a request is due for reconciliation
unfoldable pub is_due : PaymentRequest → ℕ → Ledger → Bool
is_due p current s =
    is_some (newest (filter (is_linked p.id) s.links))
    && (not (same_status p.status PaymentStatus.paid && paid_long_ago p.paid_at current)
        && (not (any (seen_lately p current) s.observations)
            && not (any (is_reconcile_job p) s.db.jobs)))

-- `uuid4()` of the correlation takes one identity
unfoldable pub queue_reconcile : PaymentRequest → ℕ → Exec Db Job
queue_reconcile p current d =
    enqueue_job no_injector (reconcile_job p d.next_id) current
      (record d { next_id = d.next_id + 1 })

-- one request, with the count of the jobs that were created
unfoldable pub schedule_one : ℕ → PaymentRequest → ℕ → Bool → Exec Ledger ℕ
schedule_one current p n true = on_db (queue_reconcile p current) >>= λ _. pure (n + 1)
schedule_one current p n false = pure n

unfoldable pub schedule_each : ℕ → List PaymentRequest → ℕ → Exec Ledger ℕ
schedule_each current [] n = pure n
schedule_each current (p ∷ rest) n =
    gets (is_due p current) >>= schedule_one current p n >>= schedule_each current rest

unfoldable pub schedule_payment_maintenance : ℕ → ℕ → Exec Ledger ℕ
schedule_payment_maintenance limit current = do
  payments ←
      gets (λ s. take limit (sort_by by_update (filter (λ p. is_watched p.status) s.requests)))
  schedule_each current payments 0
