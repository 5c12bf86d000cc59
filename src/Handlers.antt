-- ===== src/Handlers.antt =====
-- services/workers/handlers.py: a claimed job runs by its kind, and its outcome is written to the queue.
pub mod Create
mod Tests
use scope_guard.Base.{
  ℕ, String, Bool, true, false, not, ◌&&◌, ◌||◌, Option, none, some, List, [], ◌∷◌, ◌==◌, str_eq,
  some_eq, is_none, if◌then◌else◌, find?, get, Error, Result, ok, err, Exec, pure, raise, raise_if,
  or_raise, lift, gets, ◌>>=◌, ◌>>◌, Json, num, Fields, get_field,
}
use scope_guard.Domain.Auth.{TrustedContext}
use scope_guard.Workers.Tables.{Job, JobState, ExternalAction, Db, job_id}
use scope_guard.Workers.Jobs.{is_running, complete_job, fail_job}
use scope_guard.Payments.Tables.{Ledger}
use scope_guard.Payments.Texts.{Host, fields_of}
use scope_guard.Payments.Links.{on_db}
use scope_guard.Payments.Dispatch.{Provider, dispatch_payment_link}
use scope_guard.Payments.Webhooks.{normalize_payment_webhook}
use scope_guard.Payments.Reconcile.{LookupProvider, reconcile_payment_request}

-- `UUID(str(payload[name]))`
unfoldable pub id_of_entry : Option Json → Result ℕ
id_of_entry none = err Error.key_error
id_of_entry (some (num n)) = ok n
id_of_entry (some _) = err Error.value_error

unfoldable pub entry : Job → String → Exec Ledger ℕ
entry job name = lift (id_of_entry (get_field name (fields_of (some job.payload_ref))))

unfoldable pub is_action_of : Job → ℕ → String → String → ExternalAction → Bool
is_action_of job i provider operation a =
    a.id == i
    && (a.tenant_id == job.tenant_id
        && (str_eq a.provider provider && str_eq a.operation operation))

-- `job.project_id is not None and action.project_id != job.project_id`
unfoldable pub other_project : Option ℕ → Option ℕ → Bool
other_project none project = false
other_project (some p) project = not (some_eq project p)

-- `_action_for_job`
unfoldable pub action_for_job : Job → ℕ → String → String → Exec Ledger ExternalAction
action_for_job job i provider operation = do
  action ←
      λ s. or_raise (find? (is_action_of job i provider operation) s.db.actions) Error.value_error s
  raise_if (other_project job.project_id action.project_id) Error.value_error
  pure action

-- The provider clients of the process, and the handlers of the mail kinds, whose code is not modelled here:
-- sending a change order by Gmail, notifying by SES, and the kinds of the Gmail connection.
pub record Clients : Type 0 where
  pub host : Host
  pub links : Provider
  pub lookup : LookupProvider
  pub send_gmail : ℕ → Exec Ledger (Unit {0})
  pub send_ses : ℕ → Exec Ledger (Unit {0})
  pub run_gmail : Job → Exec Ledger (Unit {0})

unfoldable pub worker_context : Job → TrustedContext
worker_context job = record {
  tenant_id = job.tenant_id;
  subject = "worker";
  email = "";
  email_verified = true;
  correlation_id = job.correlation_id;
}

abbrev pub is_gmail_kind : String → Bool
is_gmail_kind kind =
    str_eq kind "gmail.history_sync"
    || (str_eq kind "gmail.initial_backfill"
        || (str_eq kind "gmail.watch_stop" || str_eq kind "gmail.watch_renew"))

module _ (clients : Clients) (now : ℕ) where
  unfoldable pub run_normalize : Job → Exec Ledger (Unit {0})
  run_normalize job = do
    ingress ← entry job "ingress_id"
    observation ← normalize_payment_webhook clients.host now ingress (some job.tenant_id)
    pure tt

  unfoldable pub run_create : Job → Exec Ledger (Unit {0})
  run_create job = do
    i ← entry job "action_id"
    action ← action_for_job job i "razorpay" "create_payment_link"
    link ← dispatch_payment_link clients.host clients.links now action.id
    pure tt

  unfoldable pub run_reconcile : Job → Exec Ledger (Unit {0})
  run_reconcile job = do
    request ← entry job "payment_request_id"
    observation ←
        reconcile_payment_request clients.host clients.lookup now (worker_context job) request
    pure tt

  unfoldable pub run_send : Job → Exec Ledger (Unit {0})
  run_send job = do
    i ← entry job "action_id"
    action ← action_for_job job i "gmail" "send"
    clients.send_gmail action.id

  unfoldable pub run_notification : Job → Exec Ledger (Unit {0})
  run_notification job = do
    i ← entry job "action_id"
    action ← action_for_job job i "ses" "send_change_order"
    clients.send_ses action.id

  -- `_run_payload_job`
  unfoldable pub run_payload_job : Job → Exec Ledger (Unit {0})
  run_payload_job job =
      if str_eq job.kind "payment.webhook.normalize"
      then run_normalize job
      else if str_eq job.kind "payment.create"
      then run_create job
      else if str_eq job.kind "payment.reconcile"
      then run_reconcile job
      else if str_eq job.kind "change_order.send"
      then run_send job
      else if str_eq job.kind "notification.send"
      then run_notification job
      else if is_gmail_kind job.kind
      then clients.run_gmail job
      else raise Error.value_error

-- the class of an exception, as `fail_job` stores it
unfoldable pub class_name : Error → String
class_name Error.domain = "DomainError"
class_name Error.authentication = "AuthenticationError"
class_name Error.authorization = "AuthorizationError"
class_name Error.conflict = "ConflictError"
class_name Error.not_found = "NotFoundError"
class_name Error.unsupported_terms = "UnsupportedTermsError"
class_name Error.validation = "ValidationError"
class_name Error.durable = "DurableExecutionError"
class_name Error.stale_lease = "StaleLeaseError"
class_name Error.value_error = "ValueError"
class_name Error.runtime_error = "RuntimeError"
class_name Error.capacity_exceeded = "CapacityExceededError"
class_name Error.integrity = "IntegrityError"
class_name Error.injected_crash = "InjectedCrash"
class_name Error.provider_retryable = "RazorpayProviderRetryable"
class_name Error.provider_rejected = "RazorpayProviderError"
class_name Error.provider_other = "Exception"
class_name Error.gmail_retryable = "GmailProviderRetryable"
class_name Error.ses_retryable = "SesProviderRetryable"
class_name Error.key_error = "KeyError"
class_name Error.overflow_error = "OverflowError"
class_name Error.type_error = "TypeError"

-- the exceptions of the first `except`
unfoldable pub is_retryable : Error → Bool
is_retryable Error.gmail_retryable = true
is_retryable Error.ses_retryable = true
is_retryable _ = false

unfoldable pub is_held : Job → ℕ → ℕ → Bool
is_held job worker generation =
    is_running job.state && (some_eq job.lease_owner worker && job.fencing_generation == generation)

-- the row, if the caller holds its lease
abbrev pub held_by : Option Job → ℕ → ℕ → Option Job
held_by none worker generation = none
held_by (some job) worker generation = if is_held job worker generation then some job else none

module _ (clients : Clients) (now : ℕ) (i worker generation : ℕ) where
  -- after the `try`, on the state that its block left
  unfoldable pub record_outcome : Result (Unit {0}) × Ledger → Result Job × Ledger
  record_outcome (ok _, s) = on_db (complete_job i worker generation now) s
  record_outcome (err e, s) =
      (do job ← on_db (fail_job i worker generation (class_name e) (is_retryable e) now); raise e) s

  unfoldable pub run_held : Job → Exec Ledger Job
  run_held job s = record_outcome (run_payload_job clients now job s)

  unfoldable pub execute_claimed_job : Exec Ledger Job
  execute_claimed_job = do
    job ← λ s. or_raise (held_by (get i s.db.jobs) worker generation) Error.value_error s
    run_held job
