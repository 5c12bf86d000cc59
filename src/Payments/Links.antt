-- ===== src/Payments/Links.antt =====
-- services/payments/service.py: preparing, replacing and reading the provider's payment links.
use scope_guard.Base.{
  ℕ, ◌+◌, ◌/◌, String, Bool, true, false, not, ◌&&◌, ◌||◌, Option, none, some, List, [], ◌∷◌, ◌++◌,
  str_eq, ltb, ◌==◌, is_some, if◌then◌else◌, find?, filter, get, Error, ok, Exec, pure, raise_if,
  or_raise, gets, ◌>>=◌, ◌>>◌, bool, num, str, obj, Fields, end, field,
}
use Prim.Native.String.{slice, ◌++◌ as text_append}
use scope_guard.Domain.Auth.{TrustedContext}
use scope_guard.Workers.Faults.{no_injector}
use scope_guard.Workers.Tables.{Db, Job, ActionKey, ExternalAction, action_id, seconds}
use scope_guard.Workers.Jobs.{JobRequest, enqueue_job}
use scope_guard.Workers.Actions.{ActionRequest, prepare_external_action}
use scope_guard.Payments.Tables.{
  PaymentStatus, PaymentRequest, LinkStatus, PaymentLinkAttempt, PaymentAttempt, Ledger, request_id,
  link_id,
}
use scope_guard.Payments.Texts.{Host, strip, lower, text_or, opt_ℕ_eq}
use scope_guard.Payments.Status.{same_status}
use scope_guard.Payments.Observe.{or_default, save_request, move_request}

-- a call of the worker code in the transaction of the payment service
unfoldable pub on_db : {A : Type 0} → Exec Db A → Exec Ledger A
on_db m s = let (r, d) = m s.db in (r, record s { db = d })

-- `_payment`
unfoldable pub is_payment : TrustedContext → ℕ → PaymentRequest → Bool
is_payment context i p = p.id == i && p.tenant_id == context.tenant_id

unfoldable pub find_payment : TrustedContext → ℕ → Exec Ledger PaymentRequest
find_payment context i s = or_raise (find? (is_payment context i) s.requests) Error.not_found s

-- `_revision`, of which only the recipient is read
unfoldable pub is_recipient : PaymentRequest → ℕ × ℕ × String → Bool
is_recipient p (tenant, revision, email) =
    tenant == p.tenant_id && revision == p.accepted_revision_id

abbrev pub email_of : Option (ℕ × ℕ × String) → Option String
email_of none = none
email_of (some (tenant, revision, email)) = some email

unfoldable pub find_recipient : PaymentRequest → Exec Ledger String
find_recipient p s = or_raise (email_of (find? (is_recipient p) s.recipients)) Error.conflict s

-- the later attempt of two
unfoldable pub newer : PaymentLinkAttempt → Option PaymentLinkAttempt → Option PaymentLinkAttempt
newer a none = some a
newer a (some b) = if ltb a.attempt_number b.attempt_number then some b else some a

-- `ORDER BY attempt_number DESC LIMIT 1`
unfoldable pub newest : List PaymentLinkAttempt → Option PaymentLinkAttempt
newest [] = none
newest (a ∷ rest) = newer a (newest rest)

abbrev pub is_created : LinkStatus → Bool
is_created LinkStatus.created = true
is_created _ = false

-- `_active_link`
unfoldable pub is_active : PaymentRequest → PaymentLinkAttempt → Bool
is_active p a = a.payment_request_id == p.id && (a.tenant_id == p.tenant_id && is_created a.status)

unfoldable pub active_link : PaymentRequest → List PaymentLinkAttempt → Option PaymentLinkAttempt
active_link p links = newest (filter (is_active p) links)

unfoldable pub is_of : ℕ → PaymentLinkAttempt → Bool
is_of request a = a.payment_request_id == request

unfoldable pub latest_link : ℕ → List PaymentLinkAttempt → Option PaymentLinkAttempt
latest_link request links = newest (filter (is_of request) links)

abbrev pub number_of : Option PaymentLinkAttempt → ℕ
number_of none = 0
number_of (some a) = a.attempt_number

-- the captured payments of a link
unfoldable pub collected_of : ℕ → List PaymentAttempt → ℕ
collected_of link [] = 0
collected_of link (p ∷ rest) =
    let sum = collected_of link rest in
    if opt_ℕ_eq p.link_attempt_id link && p.captured then p.amount_minor + sum else sum

-- What `read_payment_request` returns: the columns of the request, and those of its active link.
pub record PaymentView : Type 0 where
  pub request : PaymentRequest
  pub provider_link_id : Option String
  pub payment_link_url : Option String
  pub payment_link_status : Option String
  pub collected_minor : ℕ
  pub job_id : Option ℕ

unfoldable pub view :
    PaymentRequest → Option PaymentLinkAttempt → List PaymentAttempt → Option ℕ → PaymentView
view p none payments job = record {
  request = p;
  provider_link_id = none;
  payment_link_url = none;
  payment_link_status = none;
  collected_minor = 0;
  job_id = job;
}
view p (some a) payments job = record {
  request = p;
  provider_link_id = a.provider_link_id;
  payment_link_url = a.short_url;
  payment_link_status = a.provider_status;
  collected_minor = collected_of a.id payments;
  job_id = job;
}

unfoldable pub read_payment_request : TrustedContext → ℕ → Option ℕ → Exec Ledger PaymentView
read_payment_request context i job = do
  payment ← find_payment context i
  gets (λ s. view payment (active_link payment s.links) s.payments job)

abbrev pub awaits_link : PaymentStatus → Bool
awaits_link PaymentStatus.creation_pending = true
awaits_link PaymentStatus.pending = true
awaits_link _ = false

-- `settings.razorpay_account_id` and `settings.razorpay_environment`
pub record Settings : Type 0 where
  pub account_id : String
  pub environment : String

-- `payment_reference`
unfoldable pub payment_reference : Host → ℕ → ℕ → String
payment_reference host request number =
    text_append "sg-" (slice (host.reference_hex request number) 0 36)

-- the due date and the expiry, where the request has none
unfoldable pub dated : PaymentRequest → ℕ → PaymentRequest
dated p now =
    let due = or_default p.due_at (now + seconds 604800) in
    let dates = is_some p.due_at && is_some p.expire_at in
    record p {
      due_at = some due;
      expire_at = some (or_default p.expire_at (due + seconds 604800));
      updated_at =
          if same_status p.status PaymentStatus.creation_pending || not dates
          then now
          else p.updated_at;
    }

unfoldable pub link_fields : PaymentRequest → String → String → Fields → Fields
link_fields p reference email rest = field "amount" (num p.total_minor) (
    field "currency" (str p.currency) (
      field "accept_partial" (bool false) (
        field "reference_id" (str reference) (
          field "description" (str (text_append "ScopeGuard payment request " reference)) (
            field "customer" (obj (field "email" (str email) end)) (
              field "notify" (obj (field "email" (bool false) (field "sms" (bool false) end))) (
                field "reminder_enable" (bool false)
                  (field "expire_by" (num (or_default p.expire_at 0 / 1000000)) rest))))))))

unfoldable pub link_action : PaymentRequest → ℕ → String → String → String → ActionRequest
link_action p number reference email account = record {
  tenant_id = p.tenant_id;
  action_key = ActionKey.payment_link_create p.id number;
  provider = "razorpay";
  operation = "payment_links.create";
  approved_payload = obj (
      link_fields p reference email (
        field "provider_account_id" (str account) (field "provider_environment" (str "test") end)));
  project_id = some p.project_id;
}

unfoldable pub new_link : PaymentRequest → ℕ → String → String → ℕ → ℕ → PaymentLinkAttempt
new_link p number reference account action id = record {
  id = id;
  tenant_id = p.tenant_id;
  project_id = p.project_id;
  payment_request_id = p.id;
  attempt_number = number;
  provider_account_id = account;
  provider_environment = "test";
  reference_id = reference;
  amount_minor = p.total_minor;
  currency = p.currency;
  status = LinkStatus.ready;
  provider_link_id = none;
  provider_order_id = none;
  short_url = none;
  provider_status = none;
  action_id = some action;
  provider_payload = none;
}

unfoldable pub is_numbered : ℕ → ℕ → PaymentLinkAttempt → Bool
is_numbered request number a = a.payment_request_id == request && a.attempt_number == number

-- `if attempt is None: session.add(PaymentLinkAttempt(...))`
unfoldable pub add_link :
    Option PaymentLinkAttempt → PaymentRequest → ℕ → String → String → ℕ → Exec Ledger (Unit {0})
add_link (some a) p number reference account action s = (ok tt, s)
add_link none p number reference account action s = (
  ok tt,
  record s {
    links = s.links ++ new_link p number reference account action s.db.next_id ∷ [];
    db = record (s.db) { next_id = s.db.next_id + 1 };
  },
)

unfoldable pub create_job : PaymentRequest → ExternalAction → TrustedContext → JobRequest
create_job p action context = record {
  tenant_id = p.tenant_id;
  kind = "payment.create";
  payload_ref = obj (field "payment_request_id" (num p.id) (field "action_id" (num action.id) end));
  correlation_id = context.correlation_id;
  project_id = some p.project_id;
  available_at = none;
  deadline_at = none;
  max_attempts = 3;
  causation_id = none;
}

-- the action of the active link, if there are both
unfoldable pub active_action : PaymentRequest → Ledger → Option ExternalAction
active_action p s = elim (active_link p s.links) [
  | none ↦ none
  | some a ↦ elim a.action_id [ none ↦ none | some i ↦ get i s.db.actions ]
]

module _ (host : Host) (settings : Settings) (context : TrustedContext) (now : ℕ) where
  -- from `attempt_number` on
  unfoldable pub prepare_next : PaymentRequest → Exec Ledger (ExternalAction × Option Job)
  prepare_next payment = do
    number ← gets (λ s. number_of (latest_link payment.id s.links) + 1)
    raise_if (ltb 3 number) Error.conflict
    email ← find_recipient payment
    let account = strip (text_or settings.account_id "fixture-account")
    raise_if (not (str_eq (lower (strip (text_or settings.environment "test"))) "test"))
        Error.conflict
    let p = dated payment now
    save_request p
    let reference = payment_reference host p.id number
    action ← on_db (
        prepare_external_action host.canonical_sha256 (link_action p number reference email account)
          now)
    known ← gets (λ s. find? (is_numbered p.id number) s.links)
    add_link known p number reference account action.id
    job ← on_db (enqueue_job no_injector (create_job p action context) now)
    pure (action, some job)

  unfoldable pub reuse_active :
      PaymentRequest → Option ExternalAction → Exec Ledger (ExternalAction × Option Job)
  reuse_active payment (some action) s = (ok (action, none), s)
  reuse_active payment none s = prepare_next payment s

  unfoldable pub prepare_payment_link : ℕ → Exec Ledger (ExternalAction × Option Job)
  prepare_payment_link i = do
    payment ← find_payment context i
    raise_if (not (awaits_link payment.status)) Error.conflict
    existing ← gets (active_action payment)
    reuse_active payment existing

  abbrev pub is_closed : Option PaymentLinkAttempt → Bool
  is_closed none = false
  is_closed (some a) = elim a.status [
    | LinkStatus.expired ↦ true
    | LinkStatus.cancelled ↦ true
    | _ ↦ false
  ]

  unfoldable pub reopen : PaymentRequest → Exec Ledger (Unit {0})
  reopen p =
      if same_status p.status PaymentStatus.expired || same_status p.status PaymentStatus.cancelled
      then move_request p PaymentStatus.pending now
      else pure tt

  unfoldable pub replace_payment_link : ℕ → ℕ → Exec Ledger (ExternalAction × Option Job)
  replace_payment_link i expected_row_version = do
    payment ← find_payment context i
    raise_if (not (payment.row_version == expected_row_version)) Error.conflict
    raise_if
        (same_status payment.status PaymentStatus.paid
          || same_status payment.status PaymentStatus.reversed)
        Error.conflict
    latest ← gets (λ s. latest_link payment.id s.links)
    raise_if (not (is_closed latest)) Error.conflict
    reopen payment
    prepare_payment_link payment.id
