-- ===== src/Payments/Webhooks.antt =====
-- services/payments/service.py: a delivery of the provider is stored once, queued, and normalized.
use scope_guard.Base.{
  ℕ, ◌+◌, String, Bool, true, false, not, ◌&&◌, ◌||◌, Option, none, some, List, [], ◌∷◌, ◌++◌,
  str_eq, ltb, ◌==◌, find?, filter, take, sort_by, get, put, Error, Result, ok, err, Exec, pure,
  raise, raise_if, or_raise, gets, ◌>>=◌, ◌>>◌, num, obj, end, field, get_field,
}
use scope_guard.Workers.Faults.{no_injector}
use scope_guard.Workers.Tables.{Db, Job}
use scope_guard.Workers.Jobs.{JobRequest, enqueue_job}
use scope_guard.Payments.Tables.{
  PaymentLinkAttempt, PaymentObservation, NormalizationState, PaymentWebhookIngress, Ledger,
  link_id, observation_id, ingress_id,
}
use scope_guard.Payments.Texts.{Host, strip, text_or, is_empty, opt_eq, opt_ℕ_eq}
use scope_guard.Payments.Facts.{entity, clean}
use scope_guard.Payments.Observe.{Event, observe_payment_event, or_default}
use scope_guard.Payments.Links.{on_db, newest}

-- the provider's account and environment of an attempt
unfoldable pub is_at : String → String → PaymentLinkAttempt → Bool
is_at account environment a =
    str_eq a.provider_account_id account && str_eq a.provider_environment environment

unfoldable pub link_at : String → String → String → PaymentLinkAttempt → Bool
link_at account environment link a = opt_eq a.provider_link_id link && is_at account environment a

unfoldable pub reference_at : String → String → String → PaymentLinkAttempt → Bool
reference_at account environment reference a =
    str_eq a.reference_id reference && is_at account environment a

unfoldable pub by_link :
    String → String → Option String → List PaymentLinkAttempt → Option PaymentLinkAttempt
by_link account environment none links = none
by_link account environment (some link) links = find? (link_at account environment link) links

unfoldable pub by_reference :
    String → String → Option String → List PaymentLinkAttempt → Option PaymentLinkAttempt
by_reference account environment none links = none
by_reference account environment (some reference) links =
    newest (filter (reference_at account environment reference) links)

-- by the link's identity, or else by the reference
unfoldable pub find_target :
    String
    → String
    → Option String
    → Option String
    → List PaymentLinkAttempt
    → Option PaymentLinkAttempt
find_target account environment link reference links =
    elim (by_link account environment link links) [
      | some a ↦ some a
      | none ↦ by_reference account environment reference links
    ]

unfoldable pub is_delivery : String → String → String → PaymentWebhookIngress → Bool
is_delivery account environment event i =
    str_eq i.provider_account_id account
    && (str_eq i.provider_environment environment && str_eq i.provider_event_id event)

unfoldable pub normalize_job : PaymentLinkAttempt → ℕ → ℕ → JobRequest
normalize_job a ingress correlation = record {
  tenant_id = a.tenant_id;
  kind = "payment.webhook.normalize";
  payload_ref = obj (field "ingress_id" (num ingress) end);
  correlation_id = correlation;
  project_id = some a.project_id;
  available_at = none;
  deadline_at = none;
  max_attempts = 3;
  causation_id = none;
}

-- `uuid4()` of the correlation takes one identity
unfoldable pub enqueue_normalize : Option PaymentLinkAttempt → ℕ → ℕ → Exec Db (Option Job)
enqueue_normalize none ingress now d = (ok none, d)
enqueue_normalize (some a) ingress now d =
    (do job ← enqueue_job no_injector (normalize_job a ingress d.next_id) now; pure (some job))
      (record d { next_id = d.next_id + 1 })

module _ (host : Host) (e : Event) (now : ℕ) where
  unfoldable pub new_ingress : String → String → String → ℕ → PaymentWebhookIngress
  new_ingress account kind event id = record {
    id = id;
    provider_account_id = account;
    provider_environment = e.provider_environment;
    provider_event_id = event;
    event_type = kind;
    signature_verified = true;
    raw_payload = e.payload;
    normalization_state = NormalizationState.pending;
    observation_id = none;
    normalized_at = none;
    failed = false;
    received_at = or_default e.observed_at now;
  }

  unfoldable pub add_ingress : PaymentWebhookIngress → Exec Ledger (Unit {0})
  add_ingress i s = (
    ok tt,
    record s { ingress = s.ingress ++ i ∷ []; db = record (s.db) { next_id = s.db.next_id + 1 } },
  )

  -- from `ingress = PaymentWebhookIngress(...)` on
  unfoldable pub accept_new :
      String → String → String → Exec Ledger (PaymentWebhookIngress × Option Job)
  accept_new account kind event = do
    id ← gets (λ s. s.db.next_id)
    let i = new_ingress account kind event id
    add_ingress i
    let link = entity e.payload "payment_link"
    target ← gets (λ s.
        find_target account e.provider_environment (clean host (get_field "id" link))
          (clean host (get_field "reference_id" link)) s.links)
    job ← on_db (enqueue_normalize target id now)
    pure (i, job)

  unfoldable pub accept_once :
      String
      → String
      → String
      → Option PaymentWebhookIngress
      → Exec Ledger (PaymentWebhookIngress × Option Job)
  accept_once account kind event (some i) s = (ok (i, none), s)
  accept_once account kind event none s = accept_new account kind event s

  unfoldable pub accept_payment_webhook : Exec Ledger (PaymentWebhookIngress × Option Job)
  accept_payment_webhook = do
    raise_if (not (str_eq e.provider_environment "test")) Error.validation
    raise_if (not e.signature_verified) Error.validation
    let account = strip e.provider_account_id
    let kind = strip e.event_type
    raise_if (is_empty account || is_empty kind) Error.validation
    let event = text_or (strip e.provider_event_id) (host.canonical_hex e.payload)
    existing ← gets (λ s. find? (is_delivery account e.provider_environment event) s.ingress)
    accept_once account kind event existing

-- the event that a stored delivery stands for
unfoldable pub event_of : PaymentWebhookIngress → Event
event_of i = record {
  provider_account_id = i.provider_account_id;
  provider_environment = i.provider_environment;
  provider_event_id = i.provider_event_id;
  event_type = i.event_type;
  payload = i.raw_payload;
  signature_verified = i.signature_verified;
  observed_at = some i.received_at;
}

abbrev pub owned_by : ℕ → Option PaymentLinkAttempt → Bool
owned_by tenant none = false
owned_by tenant (some a) = a.tenant_id == tenant

-- the target of the tenant's check, by the link's identity where there is one
unfoldable pub checked_target :
    PaymentWebhookIngress
    → Option String
    → Option String
    → List PaymentLinkAttempt
    → Option PaymentLinkAttempt
checked_target i (some link) reference links =
    newest (filter (link_at i.provider_account_id i.provider_environment link) links)
checked_target i none reference links =
    by_reference i.provider_account_id i.provider_environment reference links

unfoldable pub require_target : Host → Option ℕ → PaymentWebhookIngress → Exec Ledger (Unit {0})
require_target host none i s = (ok tt, s)
require_target host (some tenant) i s =
    let link = entity i.raw_payload "payment_link" in
    raise_if
      (not (
        owned_by tenant (
          checked_target i (clean host (get_field "id" link))
            (clean host (get_field "reference_id" link)) s.links)))
      Error.not_found s

unfoldable pub save_ingress : PaymentWebhookIngress → Exec Ledger (Unit {0})
save_ingress i s = (ok tt, record s { ingress = put i s.ingress })

abbrev pub other_tenant : Option ℕ → PaymentObservation → Bool
other_tenant none o = false
other_tenant (some tenant) o = not (opt_ℕ_eq o.tenant_id tenant)

abbrev pub normalized_as : NormalizationState → Option ℕ → Option ℕ
normalized_as NormalizationState.normalized o = o
normalized_as _ o = none

module _ (host : Host) (now : ℕ) where
  -- the result of `observe_payment_event`, with its `except`
  unfoldable pub finish_normalize :
      PaymentWebhookIngress
      → Result PaymentObservation × Ledger
      → Result PaymentObservation × Ledger
  finish_normalize i (ok o, s) =
      (save_ingress (record i {
        normalization_state = NormalizationState.normalized;
        observation_id = some o.id;
        normalized_at = some now;
        failed = false;
      })
          >> pure o)
        s
  finish_normalize i (err f, s) =
      (save_ingress
            (record i { normalization_state = NormalizationState.review_required; failed = true })
          >> raise f)
        s

  unfoldable pub stored_observation : Option ℕ → ℕ → Exec Ledger PaymentObservation
  stored_observation tenant id = do
    o ← λ s. or_raise (get id s.observations) Error.conflict s
    raise_if (other_tenant tenant o) Error.not_found
    pure o

  unfoldable pub normalize_once :
      Option ℕ → PaymentWebhookIngress → Option ℕ → Exec Ledger PaymentObservation
  normalize_once tenant i (some id) s = stored_observation tenant id s
  normalize_once tenant i none s =
      finish_normalize i (observe_payment_event host (event_of i) now s)

  unfoldable pub normalize_payment_webhook : ℕ → Option ℕ → Exec Ledger PaymentObservation
  normalize_payment_webhook id tenant = do
    i ← λ s. or_raise (get id s.ingress) Error.not_found s
    require_target host tenant i
    normalize_once tenant i (normalized_as i.normalization_state i.observation_id)

  abbrev pub is_pending : NormalizationState → Bool
  is_pending NormalizationState.pending = true
  is_pending _ = false

  unfoldable pub by_receipt : PaymentWebhookIngress → PaymentWebhookIngress → Bool
  by_receipt a b =
      ltb a.received_at b.received_at || a.received_at == b.received_at && ltb a.id b.id

  unfoldable pub pending_webhooks :
      (PaymentWebhookIngress → Bool) → ℕ → List PaymentWebhookIngress → List PaymentWebhookIngress
  pending_webhooks locked limit is =
      take limit
        (sort_by by_receipt (filter (λ i. is_pending i.normalization_state && not (locked i)) is))

  -- A savepoint that is rolled back when its block raises, and the count of those that do not.
  abbrev pub counted : Result PaymentObservation × Ledger → Ledger → ℕ → ℕ × Ledger
  counted (ok o, t) s n = (n + 1, t)
  counted (err f, t) s n = (n, s)

  unfoldable pub normalize_each : List PaymentWebhookIngress → ℕ → Ledger → ℕ × Ledger
  normalize_each [] n s = (n, s)
  normalize_each (i ∷ rest) n s =
      let (m, t) = counted (normalize_payment_webhook i.id none s) s n in normalize_each rest m t

  unfoldable pub normalize_pending_payment_webhooks :
      (PaymentWebhookIngress → Bool) → ℕ → Exec Ledger ℕ
  normalize_pending_payment_webhooks locked limit s =
      let (n, t) = normalize_each (pending_webhooks locked limit s.ingress) 0 s in (ok n, t)
