-- ===== src/Workers/Commands.antt =====
-- services/workers/transactions.py: a command with its audit entry and its jobs in one transaction,
-- and the consumer that handles each event once.
pub mod Written
pub mod Atomic
use scope_guard.Base.{
  ℕ, ◌+◌, String, Bool, true, false, ◌&&◌, Option, none, some, List, [], ◌∷◌, ◌++◌, ◌==◌, str_eq,
  if◌then◌else◌, find?, Error, Result, ok, err, Exec, pure, raise, ◌>>=◌, ◌>>◌, Session, commit,
  rollback, within, Json, obj, field, end, null,
}
use scope_guard.Workers.Faults.{no_injector}
use scope_guard.Workers.Tables.{Db, AuditEvent, ConsumerReceipt}
use scope_guard.Workers.Locks.{acquire_all}
use scope_guard.Workers.Jobs.{JobRequest, enqueue_job}

pub record AuditSpec : Type 0 where
  pub tenant_id : ℕ
  pub actor : String
  pub action : String
  pub resource_type : String
  pub resource_id : String
  pub correlation_id : ℕ
  pub project_id : Option ℕ
  pub before_state : Option Json
  pub after_state : Option Json
  pub resource_revision : Option ℕ
  pub causation_id : Option ℕ

pub record JobSpec : Type 0 where
  pub tenant_id : ℕ
  pub kind : String
  pub payload_ref : Json
  pub correlation_id : ℕ
  pub project_id : Option ℕ
  pub causation_id : Option ℕ

abbrev pub or_null : Option Json → Json
or_null none = null
or_null (some j) = j

-- the defaults of `enqueue_job` for the fields that a `JobSpec` lacks
unfoldable pub job_request : JobSpec → JobRequest
job_request spec = record {
  tenant_id = spec.tenant_id;
  kind = spec.kind;
  payload_ref = spec.payload_ref;
  correlation_id = spec.correlation_id;
  project_id = spec.project_id;
  available_at = none;
  deadline_at = none;
  max_attempts = 3;
  causation_id = spec.causation_id;
}

unfoldable pub enqueue_each : List JobSpec → ℕ → Exec Db (Unit {0})
enqueue_each [] now = pure tt
enqueue_each (spec ∷ rest) now =
    enqueue_job no_injector (job_request spec) now >>= λ _. enqueue_each rest now

-- A block under `except Exception: rollback; raise`.
unfoldable pub undo : {A : Type 0} → Result A × Session Db → Result A × Session Db
undo (ok a, s) = (ok a, s)
undo (err e, s) = (err e, (rollback s).1)

module _ (canonical_sha256 : Json → ℕ) where
  -- `_audit_event`
  unfoldable pub audit_event : AuditSpec → ℕ → ℕ → AuditEvent
  audit_event spec id now = record {
    id = id;
    tenant_id = spec.tenant_id;
    project_id = spec.project_id;
    actor = spec.actor;
    action = spec.action;
    resource_type = spec.resource_type;
    resource_id = spec.resource_id;
    resource_revision = spec.resource_revision;
    correlation_id = spec.correlation_id;
    causation_id = spec.causation_id;
    before_state = or_null spec.before_state;
    after_state = or_null spec.after_state;
    content_digest = canonical_sha256 (
        obj (
          field "before" (or_null spec.before_state)
            (field "after" (or_null spec.after_state) end)));
    safe_metadata = obj end;
    created_at = now;
  }

  unfoldable pub add_audit : Option AuditSpec → ℕ → Exec Db (Unit {0})
  add_audit none now db = (ok tt, db)
  add_audit (some spec) now db = (
    ok tt,
    record db {
      audits = db.audits ++ audit_event spec db.next_id now ∷ [];
      next_id = db.next_id + 1;
    },
  )

  module _ {A : Type 0} (operation : Exec Db A) (audit : Option AuditSpec)
      (next_jobs : List JobSpec) where
    -- the body of the `try`, without the commit
    unfoldable pub command_body : ℕ → Exec Db A
    command_body now = do
      result ← operation
      add_audit audit now
      enqueue_each next_jobs now
      pure result

    unfoldable pub command_try : ℕ → Exec (Session Db) A
    command_try now = do result ← within (command_body now); commit; pure result

    unfoldable pub locked_command : Result (Unit {0}) → ℕ → Exec (Session Db) A
    locked_command (ok _) now s = undo (command_try now s)
    locked_command (err e) now s = (err e, s)

    -- the locks are checked before the `try`
    unfoldable pub commit_durable_command : List String → ℕ → Exec (Session Db) A
    commit_durable_command lock_order now s = locked_command (acquire_all lock_order []).0 now s

-- `consumer_name` and `event_id` of the query
unfoldable pub is_receipt : String → ℕ → ConsumerReceipt → Bool
is_receipt consumer event r = str_eq r.consumer_name consumer && r.event_id == event

unfoldable pub receipt_of : String → ℕ → Db → Option ConsumerReceipt
receipt_of consumer event db = find? (is_receipt consumer event) db.receipts

-- A receipt of another transaction that was committed meanwhile, which a rollback makes visible.
unfoldable pub reveal : Option ConsumerReceipt → Session Db → Session Db
reveal none s = (rollback s).1
reveal (some r) s =
    let db = record (s.saved) { receipts = s.saved.receipts ++ r ∷ [] } in
    record { now = db; saved = db }

-- the insert of `record_consumer_receipt`: the unique constraint refuses it beside a rival's receipt
unfoldable pub insert_receipt :
    Option ConsumerReceipt → String → ℕ → Json → ℕ → Exec (Session Db) Bool
insert_receipt (some rival) consumer event result now s = (ok false, reveal (some rival) s)
insert_receipt none consumer event result now s = (
  ok true,
  record s {
    now = record (s.now) {
      receipts =
          s.now.receipts
          ++ record {
            consumer_name = consumer;
            event_id = event;
            result_ref = result;
            received_at = now;
          }
            ∷ [];
    };
  },
)

unfoldable pub record_if_new :
    Option ConsumerReceipt → Option ConsumerReceipt → String → ℕ → Json → ℕ → Exec (Session Db) Bool
record_if_new (some old) rival consumer event result now s = (ok false, s)
record_if_new none rival consumer event result now s =
    insert_receipt rival consumer event result now s

unfoldable pub record_consumer_receipt :
    Option ConsumerReceipt → String → ℕ → Json → ℕ → Exec (Session Db) Bool
record_consumer_receipt rival consumer event result now s =
    record_if_new (receipt_of consumer event s.now) rival consumer event result now s

-- The result that is stored, or the exception that the block raises without one.
unfoldable pub stored_result : Option ConsumerReceipt → Error → Exec (Session Db) Json
stored_result none e s = (err e, s)
stored_result (some r) e s = (ok r.result_ref, s)

module _ (rival : Option ConsumerReceipt) (consumer : String) (event : ℕ) where
  -- after a rollback
  unfoldable pub read_again : Error → Exec (Session Db) Json
  read_again e s = let t = (rollback s).1 in stored_result (receipt_of consumer event t.now) e t

  unfoldable pub keep_result : Json → Bool → Exec (Session Db) Json
  keep_result result true s = (ok result, (commit s).1)
  keep_result result false s = read_again Error.runtime_error s

  -- `except IntegrityError`; any other exception leaves the block as it is
  unfoldable pub recover_integrity : Result Json × Session Db → Result Json × Session Db
  recover_integrity (ok r, s) = (ok r, s)
  recover_integrity (err Error.integrity, s) =
      let t = reveal rival s in stored_result (receipt_of consumer event t.now) Error.integrity t
  recover_integrity (err e, s) = (err e, s)

  unfoldable pub handle_event : Exec Db Json → ℕ → Option ConsumerReceipt → Exec (Session Db) Json
  handle_event operation now (some existing) s = (ok existing.result_ref, s)
  handle_event operation now none s = recover_integrity (
      (do
        result ← within operation
        stored ← record_consumer_receipt rival consumer event result now
        keep_result result stored)
        s)

  unfoldable pub execute_consumer_once : Exec Db Json → ℕ → Exec (Session Db) Json
  execute_consumer_once operation now s =
      handle_event operation now (receipt_of consumer event s.now) s
