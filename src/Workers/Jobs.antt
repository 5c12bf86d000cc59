-- ===== src/Workers/Jobs.antt =====
-- services/workers/durable.py: the job queue. A job is claimed under a lease with a fencing
-- generation, kept alive by heartbeats, and ends by success, by a retry or by review.
pub mod Invariant
pub mod Reach
pub mod Safety
pub mod Fencing
pub mod Final
pub mod Claim
use scope_guard.Base.{
  ℕ, ◌+◌, ◌-◌, ◌^◌, min, String, Bool, true, false, not, ◌&&◌, ◌||◌, Option, none, some, List, [],
  ◌∷◌, ◌++◌, ltb, leb, ◌==◌, some_eq, is_some, if◌then◌else◌, filter, sort_by, take, length, get,
  put, Error, Result, ok, Exec, pure, lift, gets, or_raise, raise_if, check, ◌>>=◌, ◌>>◌, Json, obj,
  str, num, field, end,
}
use scope_guard.Workers.Faults.{CrashPoint, CrashInjector, trip}
use scope_guard.Workers.Tables.{JobState, Job, OutboxEvent, Db, seconds, job_id}

abbrev pub lease_seconds : ℕ
lease_seconds = 60

abbrev pub default_max_attempts : ℕ
default_max_attempts = 3

abbrev pub is_running : JobState → Bool
is_running JobState.running = true
is_running _ = false

-- `state IN ('QUEUED', 'RETRY_WAIT')`
abbrev pub is_waiting : JobState → Bool
is_waiting JobState.queued = true
is_waiting JobState.retry_wait = true
is_waiting _ = false

-- `_require_job_owner`
unfoldable pub require_job_owner : Job → ℕ → ℕ → Result (Unit {0})
require_job_owner job worker_id fencing_generation =
    check
      (not (is_running job.state)
        || not (some_eq job.lease_owner worker_id)
        || not (job.fencing_generation == fencing_generation))
      Error.stale_lease

-- What `enqueue_job` is called with; `now` is the clock behind the column defaults.
pub record JobRequest : Type 0 where
  pub tenant_id : ℕ
  pub kind : String
  pub payload_ref : Json
  pub correlation_id : ℕ
  pub project_id : Option ℕ
  pub available_at : Option ℕ
  pub deadline_at : Option ℕ
  pub max_attempts : ℕ
  pub causation_id : Option ℕ

abbrev pub value_or : Option ℕ → ℕ → ℕ
value_or none d = d
value_or (some v) d = v

unfoldable pub new_job : JobRequest → ℕ → ℕ → Job
new_job r id now = record {
  id = id;
  tenant_id = r.tenant_id;
  project_id = r.project_id;
  kind = r.kind;
  payload_ref = r.payload_ref;
  correlation_id = r.correlation_id;
  causation_id = r.causation_id;
  state = JobState.queued;
  available_at = value_or r.available_at now;
  lease_until = none;
  lease_owner = none;
  fencing_generation = 0;
  attempt_count = 0;
  max_attempts = r.max_attempts;
  deadline_at = r.deadline_at;
  last_error = none;
  created_at = now;
  updated_at = now;
}

-- The outbox entry that wakes a worker for a job.
unfoldable pub wakeup : String → Job → ℕ → ℕ → OutboxEvent
wakeup event_type job id now = record {
  id = id;
  tenant_id = job.tenant_id;
  aggregate_type = "job";
  aggregate_id = job.id;
  event_type = event_type;
  payload = obj (field "job_id" (num job.id) (field "kind" (str job.kind) end));
  correlation_id = job.correlation_id;
  causation_id = job.causation_id;
  published_at = none;
  publish_attempts = 0;
  last_error = none;
  created_at = now;
}

-- the two inserts of `enqueue_job`: the job, and its outbox entry in the same transaction
unfoldable pub insert_job : JobRequest → ℕ → Exec Db Job
insert_job r now db =
    let job = new_job r db.next_id now in
    (
      ok job,
      record db {
        jobs = db.jobs ++ job ∷ [];
        outbox = db.outbox ++ wakeup "job.queued" job (db.next_id + 1) now ∷ [];
        next_id = db.next_id + 2;
      },
    )

unfoldable pub enqueue_job : CrashInjector → JobRequest → ℕ → Exec Db Job
unfolding trip
enqueue_job injector r now = do
  raise_if (not (leb 1 r.max_attempts && leb r.max_attempts default_max_attempts)) Error.durable
  job ← insert_job r now
  trip injector CrashPoint.transaction_persisted
  pure job

abbrev pub lease_free : Option ℕ → ℕ → Bool
lease_free none current = true
lease_free (some t) current = leb t current

-- a deadline that `current` has reached
abbrev pub reached : Option ℕ → ℕ → Bool
reached none current = false
reached (some t) current = leb t current

-- the `WHERE` of the claim
unfoldable pub claimable : ℕ → Job → Bool
claimable current job =
    is_waiting job.state && leb job.available_at current && lease_free job.lease_until current

-- `ORDER BY available_at, created_at, id`
unfoldable pub claim_order : Job → Job → Bool
claim_order a b =
    ltb a.available_at b.available_at
    || a.available_at == b.available_at
      && (ltb a.created_at b.created_at || a.created_at == b.created_at && ltb a.id b.id)

-- The rows that the claim locks: `locked` are rows of other transactions, which it skips.
unfoldable pub claim_candidates : (Job → Bool) → ℕ → ℕ → List Job → List Job
claim_candidates locked limit current jobs =
    take limit (sort_by claim_order (filter (λ j. claimable current j && not (locked j)) jobs))

-- One row of the claim: a job past its deadline fails, any other starts to run.
unfoldable pub overdue : Job → Job
overdue job = record job {
  state = JobState.failed_requires_review;
  last_error = some "deadline_exceeded";
}

unfoldable pub lease_to : ℕ → ℕ → Job → Job
lease_to worker_id current job = record job {
  state = JobState.running;
  lease_owner = some worker_id;
  lease_until = some (current + seconds lease_seconds);
  fencing_generation = job.fencing_generation + 1;
  attempt_count = job.attempt_count + 1;
  last_error = none;
}

-- The loop of the claim: the jobs claimed, and the table.
unfoldable pub claim_each : ℕ → ℕ → List Job → List Job → List Job × List Job
claim_each worker_id current [] jobs = ([], jobs)
claim_each worker_id current (job ∷ rest) jobs =
    if reached job.deadline_at current
    then claim_each worker_id current rest (put (overdue job) jobs)
    else (let (claimed, jobs') =
          claim_each worker_id current rest (put (lease_to worker_id current job) jobs) in
        (lease_to worker_id current job ∷ claimed, jobs'))

unfoldable pub claim_jobs : CrashInjector → (Job → Bool) → ℕ → ℕ → ℕ → Exec Db (List Job)
unfolding trip
claim_jobs injector locked worker_id limit current = do
  raise_if (ltb limit 1) Error.durable
  candidates ← gets (λ db. claim_candidates locked limit current db.jobs)
  claimed ← (λ db.
      let (claimed, jobs) = claim_each worker_id current candidates db.jobs in
      (ok claimed, record db { jobs = jobs }))
  trip injector CrashPoint.job_claimed
  pure claimed

-- `session.get(Job, job_id)` with the checks that open every operation of a lease holder
unfoldable pub owned_job : ℕ → ℕ → ℕ → Exec Db Job
unfolding require_job_owner
owned_job job_id worker_id fencing_generation = do
  job ← (λ db. or_raise (get job_id db.jobs) Error.durable db)
  lift (require_job_owner job worker_id fencing_generation)
  pure job

-- the flush of a changed job
unfoldable pub save_job : Job → Exec Db Job
save_job job db = (ok job, record db { jobs = put job db.jobs })

abbrev pub lease_expired : Option ℕ → ℕ → Bool
lease_expired none current = true
lease_expired (some t) current = ltb t current

-- what the owner of the lease does in `heartbeat_job`
unfoldable pub renew : ℕ → Job → Exec Db Job
renew current job = do
  raise_if (lease_expired job.lease_until current) Error.stale_lease
  save_job (record job { lease_until = some (current + seconds lease_seconds) })

unfoldable pub heartbeat_job : ℕ → ℕ → ℕ → ℕ → Exec Db Job
heartbeat_job job_id worker_id fencing_generation current =
    owned_job job_id worker_id fencing_generation >>= renew current

abbrev pub deadline_passed : Option ℕ → ℕ → Bool
deadline_passed none current = false
deadline_passed (some t) current = ltb t current

unfoldable pub succeed : Job → ℕ → Job
succeed job current = record job {
  state = JobState.succeeded;
  lease_owner = none;
  lease_until = none;
  updated_at = current;
}

-- what the owner of the lease does in `complete_job`
unfoldable pub finish : ℕ → Job → Exec Db Job
finish current job = do
  raise_if (deadline_passed job.deadline_at current) Error.durable
  save_job (succeed job current)

unfoldable pub complete_job : ℕ → ℕ → ℕ → ℕ → Exec Db Job
complete_job job_id worker_id fencing_generation current =
    owned_job job_id worker_id fencing_generation >>= finish current

-- `min(2 ** max(attempt_count - 1, 0), 60)`; `-` on ℕ stops at 0, which is the `max`
unfoldable pub retry_delay : ℕ → ℕ
retry_delay attempt_count = min (2 ^ (attempt_count - 1)) 60

unfoldable pub can_retry : Job → Bool → ℕ → Bool
can_retry job retryable current =
    retryable && ltb job.attempt_count job.max_attempts && not (reached job.deadline_at current)

unfoldable pub failed : Job → String → Bool → ℕ → Job
unfolding can_retry retry_delay
failed job error retryable current =
    if can_retry job retryable current
    then record job {
      state = JobState.retry_wait;
      available_at = current + seconds (retry_delay job.attempt_count);
      last_error = some error;
      lease_owner = none;
      lease_until = none;
      updated_at = current;
    }
    else record job {
      state = JobState.failed_requires_review;
      last_error = some error;
      lease_owner = none;
      lease_until = none;
      updated_at = current;
    }

-- `error` is the class name that `_safe_error` keeps of the exception.
unfoldable pub fail_job : ℕ → ℕ → ℕ → String → Bool → ℕ → Exec Db Job
fail_job job_id worker_id fencing_generation error retryable current =
    owned_job job_id worker_id fencing_generation >>= λ job.
    save_job (failed job error retryable current)

unfoldable pub expired_lease : ℕ → Job → Bool
expired_lease current job =
    is_running job.state && is_some job.lease_until && lease_expired job.lease_until current

unfoldable pub recovered : Job → ℕ → Job
recovered job current =
    if ltb job.attempt_count job.max_attempts && not (reached job.deadline_at current)
    then record job {
      lease_owner = none;
      lease_until = none;
      state = JobState.retry_wait;
      available_at = current;
    }
    else record job {
      lease_owner = none;
      lease_until = none;
      state = JobState.failed_requires_review;
      last_error = some "lease_expired_attempt_budget_exhausted";
    }

unfoldable pub recover_each : ℕ → List Job → List Job → List Job
recover_each current [] jobs = jobs
recover_each current (job ∷ rest) jobs =
    recover_each current rest (put (recovered job current) jobs)

unfoldable pub recover_expired_jobs : (Job → Bool) → ℕ → Exec Db ℕ
recover_expired_jobs locked current db =
    let expired = filter (λ j. expired_lease current j && not (locked j)) db.jobs in
    (ok (length expired), record db { jobs = recover_each current expired db.jobs })
