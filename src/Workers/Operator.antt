-- ===== src/Workers/Operator.antt =====
-- services/api/operations.py: an operator queues a failed or waiting job again.
use Prim.Native.String.{◌++◌ as text_append}
use scope_guard.Base.{
  ℕ, String, Bool, true, false, ◌&&◌, ◌||◌, not, none, some, find?, ◌==◌, Error, Exec, or_raise,
  raise_if, ◌>>=◌, ◌>>◌, List, [], ◌∷◌,
}
use scope_guard.Workers.Tables.{JobState, Job, Db, job_id}
use scope_guard.Workers.Actions.{clip}
use scope_guard.Workers.Jobs.{save_job}
use scope_guard.Workers.Jobs.Reach.{Op, after}

-- the states from which `retry_failed_job` takes a job
unfoldable pub is_retryable : JobState → Bool
is_retryable JobState.failed_requires_review = true
is_retryable JobState.retry_wait = true
is_retryable _ = false

unfoldable pub is_job_of : ℕ → ℕ → Job → Bool
is_job_of tenant j job = job.id == j && job.tenant_id == tenant

-- the assignments of `retry_failed_job`; `updated_at` is set by the flush
unfoldable pub reopened : String → ℕ → Job → Job
reopened reason now job = record job {
  state = JobState.retry_wait;
  available_at = now;
  last_error = some (clip 500 (text_append "operator_retry:" reason));
  lease_owner = none;
  lease_until = none;
  updated_at = now;
}

unfoldable pub retry_failed_job : ℕ → ℕ → String → ℕ → Exec Db Job
retry_failed_job tenant j reason now = do
  job ← (λ db. or_raise (find? (is_job_of tenant j) db.jobs) Error.not_found db)
  raise_if (not (is_retryable job.state)) Error.conflict
  save_job (reopened reason now job)

-- One step of the job table: an operation of the queue, or an operator's retry.
pub data Deed : Type 0 where
  queue : Op → Deed
  retry : ℕ → ℕ → String → ℕ → Deed

abbrev pub done : Deed → Db → Db
done (Deed.queue op) db = after op db
done (Deed.retry tenant j reason now) db = (retry_failed_job tenant j reason now db).1

unfoldable pub perform : List Deed → Db → Db
perform [] db = db
perform (d ∷ ds) db = perform ds (done d db)

-- whether an operator asks for a retry of the job `j`
abbrev pub is_retry : ℕ → Deed → Bool
is_retry j (Deed.queue op) = false
is_retry j (Deed.retry tenant k reason now) = k == j

unfoldable pub is_retried : ℕ → List Deed → Bool
is_retried j [] = false
is_retried j (d ∷ ds) = is_retry j d || is_retried j ds
