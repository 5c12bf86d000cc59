-- ===== src/Workers/Tests.antt =====
-- Runs of the worker code at concrete inputs, and the theorems at inputs that meet their hypotheses.
use scope_guard.Base.{
  ℕ, ◌≡◌, refl, true, false, none, some, [], ◌∷◌, arith, All, get, ok, err, Error, null, length,
  inl, String, Bool, not, num, begin, Exec, count, ◌+◌, ◌==◌, if◌then◌else◌, ◌>>=◌, insert_sorted,
  sort_by, filter, put, find?, ◌≤◌,
}
use scope_guard.Base.Unique.{Unique}
use scope_guard.Workers.Faults.{no_injector, trip}
use scope_guard.Workers.Tables.{
  OutboxEvent, ConsumerReceipt, JobState, Job, Db, ActionState, ActionKey, ExternalAction,
  ActionAttempt, job_id, action_id,
}
use scope_guard.Workers.Jobs.{
  heartbeat_job, complete_job, fail_job, claim_jobs, claim_each, claim_candidates, claimable,
  claim_order, lease_to,
}
use scope_guard.Workers.Jobs.Invariant.{IsSoundTable}
use scope_guard.Workers.Jobs.Reach.{Op, run}
use scope_guard.Workers.Jobs.Safety.{run-IsSoundTable}
use scope_guard.Workers.Jobs.Fencing.{Refused, stale_holder-Refused}
use scope_guard.Workers.Jobs.Final.{final_state_kept}
use scope_guard.Base.{List}
use scope_guard.Workers.Jobs.{save_job}
use scope_guard.Workers.Operator.{
  Deed, perform, is_retried, retry_failed_job, is_job_of, is_retryable, reopened,
}
use scope_guard.Workers.Jobs.Claim.{IsClaimed, claim_jobs_sound}
use scope_guard.Workers.Actions.{
  cancel_action, ActionRequest, prepare_external_action, reuse_or_insert, has_key, new_action,
  begin_action_dispatch, get_action, transition_action, allowed, save_action, add_attempt,
  last_attempt, new_attempt, same_key, retry_action,
}
use scope_guard.Workers.Actions.Follows.{
  ActionOp, Reaches, SameContent, run_follows, run as run_actions,
}
use scope_guard.Workers.Actions.Dispatch.{
  dispatch_exclusive, IsBegun, prepare_idempotent, retry_needs_acknowledgement,
}
use scope_guard.Workers.Commands.{
  JobSpec, AuditSpec, commit_durable_command, execute_consumer_once, handle_event, receipt_of,
  recover_integrity, record_consumer_receipt, record_if_new, insert_receipt, keep_result,
}
use scope_guard.Workers.Commands.Atomic.{IsAtomic, command-IsAtomic, consumed_once}
use scope_guard.Workers.Outbox.{Publisher, publish_outbox, pending}
use scope_guard.Workers.Outbox.AtLeastOnce.{
  IsHonestSession, publish_outbox-IsHonestSession, publish_outbox_counts, taken,
}
use scope_guard.Workers.Locks.{
  acquire_all, acquire, take_lock, lock_order, out_of_order, rank, LockOp, run_locks, no_cross_wait,
}
use scope_guard.Workers.Capacity.{
  AnalysisCapacityReservation, reservation_id, Slots, default_capacity_policy, is_active,
  reserve_analysis_slot, release_analysis_slot, recover_capacity_slots,
}
use scope_guard.Workers.Capacity.Limits.{limits_kept}
use scope_guard.Workers.Capacity.Counts.{IsWithin, all_seen}
use scope_guard.Workers.Recovery.{is_waiting_since, has_wakeup, discover_lost_wakeups}
use scope_guard.Workers.Recovery.Wakeups.{no_lost_wakeup}

abbrev a_job : ℕ → JobState → ℕ → ℕ → Job
a_job id state generation available = record {
  id = id;
  tenant_id = 1;
  project_id = none;
  kind = "payment.create";
  payload_ref = null;
  correlation_id = 9;
  causation_id = none;
  state = state;
  available_at = available;
  lease_until = none;
  lease_owner = none;
  fencing_generation = generation;
  attempt_count = generation;
  max_attempts = 3;
  deadline_at = none;
  last_error = none;
  created_at = 0;
  updated_at = 0;
}

abbrev an_action : ActionState → ExternalAction
an_action state = record {
  id = 5;
  tenant_id = 1;
  project_id = none;
  action_key = ActionKey.change_order_send 2 3;
  provider = "gmail";
  operation = "send";
  state = state;
  approved_payload = null;
  payload_digest = 7;
  idempotency_key = 6;
  receipt_ref = none;
  uncertainty_reason = none;
  created_at = 0;
  updated_at = 0;
}

abbrev a_db : Db
a_db = record {
  jobs =
      a_job 0 JobState.queued 0 10
      ∷ a_job 1 JobState.succeeded 2 5
      ∷ a_job 2 JobState.retry_wait 1 3
      ∷ [];
  outbox = [];
  receipts = [];
  actions = an_action ActionState.ready ∷ [];
  attempts = [];
  audits = [];
  next_id = 8;
}

a_db-IsSoundTable : IsSoundTable a_db
a_db-IsSoundTable = record { rows = ground arith; unique = omega arith; fresh = omega arith }

-- the older available time is claimed first
claims_by_age :
    (claim_jobs no_injector (λ _. false) 4 1 20 a_db).0
    ≡ ok (lease_to 4 20 (a_job 2 JobState.retry_wait 1 3) ∷ [])
unfolding claim_jobs claim_each claim_candidates claimable claim_order sort_by insert_sorted filter
    ◌>>=◌
claims_by_age = refl

run-IsSoundTable_example :
    IsSoundTable (run (Op.claim no_injector (λ _. false) 4 9 20 ∷ Op.complete 0 4 1 30 ∷ []) a_db)
run-IsSoundTable_example =
    run-IsSoundTable (Op.claim no_injector (λ _. false) 4 9 20 ∷ Op.complete 0 4 1 30 ∷ []) a_db
      a_db-IsSoundTable

stale_holder-Refused_example :
    Refused
      (heartbeat_job 2 4 0 50 (run (Op.recover (λ _. false) 40 ∷ []) a_db))
      (run (Op.recover (λ _. false) 40 ∷ []) a_db)
    × Refused
        (complete_job 2 4 0 50 (run (Op.recover (λ _. false) 40 ∷ []) a_db))
        (run (Op.recover (λ _. false) 40 ∷ []) a_db)
    × Refused
        (fail_job 2 4 0 "Timeout" true 50 (run (Op.recover (λ _. false) 40 ∷ []) a_db))
        (run (Op.recover (λ _. false) 40 ∷ []) a_db)
unfolding get
stale_holder-Refused_example =
    stale_holder-Refused 2 4 0 (Op.recover (λ _. false) 40 ∷ []) a_db
      (a_job 2 JobState.retry_wait 1 3) a_db-IsSoundTable refl (omega arith) 50 "Timeout" true

-- an operator's retry of a waiting job, a claim, and a refused retry of the job that has succeeded
abbrev deeds : List Deed
deeds =
    Deed.retry 1 2 "again" 15
    ∷ Deed.queue (Op.claim no_injector (λ _. false) 4 1 20)
    ∷ Deed.retry 1 1 "again" 25
    ∷ []

final_state_kept_example : JobState.succeeded ≡ JobState.succeeded
unfolding get run claim_jobs claim_each claim_candidates claimable claim_order sort_by insert_sorted
    filter put lease_to ◌>>=◌ perform is_retried retry_failed_job is_job_of is_retryable reopened
    find? save_job
final_state_kept_example =
    final_state_kept 1 deeds a_db (a_job 1 JobState.succeeded 2 5) (a_job 1 JobState.succeeded 2 5)
      a_db-IsSoundTable refl refl (λ e. absurd cc) refl

claim_jobs_sound_example :
    (length (lease_to 4 20 (a_job 2 JobState.retry_wait 1 3) ∷ []) ≤ 1)
    × Unique (lease_to 4 20 (a_job 2 JobState.retry_wait 1 3) ∷ [])
    × All
        (IsClaimed
          (λ _. false)
          4
          20
          a_db.jobs
          (claim_jobs no_injector (λ _. false) 4 1 20 a_db).1.jobs)
        (lease_to 4 20 (a_job 2 JobState.retry_wait 1 3) ∷ [])
claim_jobs_sound_example =
    claim_jobs_sound no_injector (λ _. false) 4 1 20 a_db
      (lease_to 4 20 (a_job 2 JobState.retry_wait 1 3) ∷ []) a_db-IsSoundTable.unique claims_by_age

abbrev cancelled : ExternalAction
cancelled = record (an_action ActionState.ready) { state = ActionState.cancelled; updated_at = 30 }

cancels : get 5 (run_actions (λ _. 7) (ActionOp.cancel 5 30 ∷ []) a_db).actions ≡ some cancelled
unfolding get put run_actions cancel_action get_action transition_action allowed save_action ◌>>=◌
cancels = refl

run_follows_example :
    Reaches ActionState.ready ActionState.cancelled
    × SameContent (an_action ActionState.ready) cancelled
unfolding get
run_follows_example =
    run_follows (λ _. 7) (an_action ActionState.ready) cancelled (ActionOp.cancel 5 30 ∷ []) a_db
      (record { unique = omega arith; fresh = omega arith }) refl cancels

abbrev first_attempt : ActionAttempt
first_attempt = new_attempt 8 5 1 20

began : (begin_action_dispatch no_injector 5 20 a_db).0 ≡ ok first_attempt
unfolding begin_action_dispatch get_action transition_action allowed save_action add_attempt
    last_attempt get trip ◌>>=◌
began = refl

dispatch_exclusive_example :
    IsBegun 5 20 a_db (begin_action_dispatch no_injector 5 20 a_db).1 first_attempt
dispatch_exclusive_example = dispatch_exclusive no_injector 5 20 a_db first_attempt began

abbrev a_request : ActionRequest
a_request = record {
  tenant_id = 1;
  action_key = ActionKey.change_order_send 2 4;
  provider = "gmail";
  operation = "send";
  approved_payload = null;
  project_id = none;
}

abbrev a_new_action : ExternalAction
a_new_action = new_action (λ _. 7) a_request 8 20

prepared : (prepare_external_action (λ _. 7) a_request 20 a_db).0 ≡ ok a_new_action
unfolding prepare_external_action reuse_or_insert find? has_key same_key
prepared = refl

prepare_idempotent_example :
    prepare_external_action
      (λ _. 7)
      a_request
      40
      (prepare_external_action (λ _. 7) a_request 20 a_db).1
    ≡ (ok a_new_action, (prepare_external_action (λ _. 7) a_request 20 a_db).1)
prepare_idempotent_example =
    prepare_idempotent (λ _. 7) a_request 20 40 null a_db a_new_action prepared

retry_needs_acknowledgement_example : retry_action 5 true 30 a_db ≡ (err Error.durable, a_db)
unfolding get
retry_needs_acknowledgement_example =
    retry_needs_acknowledgement 5 30 true a_db (an_action ActionState.ready) refl

-- the audited write of a command and a job behind it
abbrev a_spec : JobSpec
a_spec = record {
  tenant_id = 1;
  kind = "payment.create";
  payload_ref = null;
  correlation_id = 9;
  project_id = none;
  causation_id = none;
}

abbrev count_up : Exec Db ℕ
count_up db = (ok 7, record db { next_id = db.next_id + 5 })

abbrev an_entry : AuditSpec
an_entry = record {
  tenant_id = 1;
  actor = "operator";
  action = "payment.request";
  resource_type = "payment";
  resource_id = "6";
  correlation_id = 9;
  project_id = none;
  before_state = none;
  after_state = some (num 1);
  resource_revision = none;
  causation_id = none;
}

command-IsAtomic_example :
    IsAtomic
      (λ _. 7)
      count_up
      (some an_entry)
      (a_spec ∷ [])
      20
      (acquire_all ("project" ∷ "payment" ∷ []) []).0
      (begin a_db)
      (commit_durable_command
        (λ _. 7)
        count_up
        (some an_entry)
        (a_spec ∷ [])
        ("project" ∷ "payment" ∷ [])
        20
        (begin a_db))
command-IsAtomic_example =
    command-IsAtomic (λ _. 7) count_up (some an_entry) (a_spec ∷ []) ("project" ∷ "payment" ∷ []) 20
      (begin a_db)

abbrev a_receipt : ConsumerReceipt
a_receipt = record { consumer_name = "mail"; event_id = 3; result_ref = num 5; received_at = 20 }

abbrev consumed_db : Db
consumed_db = record a_db { receipts = a_receipt ∷ [] }

consumes :
    execute_consumer_once none "mail" 3 (λ db. (ok (num 5), db)) 20 (begin a_db)
    ≡ (ok (num 5), begin consumed_db)
unfolding execute_consumer_once handle_event receipt_of recover_integrity record_consumer_receipt
    record_if_new insert_receipt keep_result find? ◌>>=◌
consumes = refl

consumed_once_example :
    execute_consumer_once none "mail" 3 (λ db. (err Error.value_error, db)) 40 (begin consumed_db)
    ≡ (ok (num 5), begin consumed_db)
consumed_once_example =
    consumed_once none none "mail" 3 (λ db. (ok (num 5), db)) (λ db. (err Error.value_error, db)) 20
      40 (begin a_db) (begin consumed_db) (num 5) consumes

abbrev an_event : OutboxEvent
an_event = record {
  id = 3;
  tenant_id = 1;
  aggregate_type = "job";
  aggregate_id = 0;
  event_type = "job.queued";
  payload = null;
  correlation_id = 9;
  causation_id = none;
  published_at = none;
  publish_attempts = 0;
  last_error = none;
  created_at = 4;
}

abbrev event_db : Db
event_db = record a_db { outbox = an_event ∷ [] }

-- a publisher that refuses each first attempt
abbrev flaky : Publisher
flaky event attempt = if attempt == 1 then some "Timeout" else none

publish_outbox-IsHonestSession_example :
    IsHonestSession flaky (publish_outbox no_injector flaky (λ _. false) 10 20 (begin event_db)).1
publish_outbox-IsHonestSession_example =
    publish_outbox-IsHonestSession no_injector flaky (λ _. false) 10 20 (begin event_db)
      (((λ e. absurd cc), tt), ((λ e. absurd cc), tt))

publish_outbox_counts_example :
    (publish_outbox no_injector flaky (λ _. false) 10 20 (begin event_db)).0
    ≡ ok (
      count (taken flaky) (pending (λ _. false) 10 (an_event ∷ [])),
      count (λ e. not (taken flaky e)) (pending (λ _. false) 10 (an_event ∷ [])),
    )
publish_outbox_counts_example =
    publish_outbox_counts flaky (λ _. false) 10 20 (begin event_db) (omega arith)

no_cross_wait_example : lock_order "payment" ≡ lock_order "payment"
unfolding run_locks acquire take_lock lock_order out_of_order rank
no_cross_wait_example =
    no_cross_wait (LockOp.lock "payment" ∷ []) (LockOp.lock "project" ∷ LockOp.lock "payment" ∷ [])
      "payment" "payment" (inl refl) (inl refl) refl refl

abbrev a_slot : AnalysisCapacityReservation
a_slot = record {
  id = 0;
  tenant_id = 1;
  reservation_key = "run";
  worker_id = 4;
  lease_until = 50;
  released_at = none;
}

abbrev slots : Slots
slots = record { rows = a_slot ∷ []; next_id = 1 }

slots-IsWithin : IsWithin default_capacity_policy 20 (a_slot ∷ [])
unfolding count is_active
slots-IsWithin = record { in_all = ground arith; of_each = λ t. ground arith }

limits_kept_example :
    ((tenant worker : ℕ) (key : String)
      → IsWithin default_capacity_policy 20
          (reserve_analysis_slot tenant key worker default_capacity_policy 20 all_seen
            slots).1.rows)
    × ((i worker at : ℕ)
        → IsWithin default_capacity_policy 20 (release_analysis_slot i worker at slots).1.rows)
    × ((locked : AnalysisCapacityReservation → Bool) (at : ℕ)
        → IsWithin default_capacity_policy 20 (recover_capacity_slots locked at slots).1.rows)
    × ((later : ℕ) → 20 ≤ later → IsWithin default_capacity_policy later (a_slot ∷ []))
limits_kept_example = limits_kept default_capacity_policy 20 slots (tt, tt) slots-IsWithin

no_lost_wakeup_example :
    All
      (λ job.
        is_waiting_since 20 job ≡ true
        → has_wakeup 20 (discover_lost_wakeups 20 a_db).1.outbox job ≡ true)
      a_db.jobs
    × ((discover_lost_wakeups 20 a_db).1.jobs ≡ a_db.jobs)
    × (discover_lost_wakeups 20 (discover_lost_wakeups 20 a_db).1
        ≡ (ok 0, (discover_lost_wakeups 20 a_db).1))
no_lost_wakeup_example = no_lost_wakeup 20 a_db
