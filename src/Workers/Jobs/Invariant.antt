-- ===== src/Workers/Jobs/Invariant.antt =====
-- What every stored job satisfies, and that each operation of the queue keeps it.
use scope_guard.Base.{ℕ, ◌≤◌, ◌<◌, ◌≡◌, Bool, true, arith, All, is_some}
use scope_guard.Base.Unique.{Unique}
use scope_guard.Workers.Tables.{Job, Db, job_id}
use scope_guard.Workers.Jobs.{
  JobRequest, is_running, is_waiting, claimable, lease_to, overdue, new_job, failed, recovered,
  expired_lease, succeed,
}

-- The budget holds, a waiting job has an attempt left, exactly a running job is leased, and the
-- fencing generation counts the claims.
pub record IsSound (job : Job) : Type 0 where
  pub budget_low : 1 ≤ job.max_attempts
  pub budget_high : job.max_attempts ≤ 3
  pub within : job.attempt_count ≤ job.max_attempts
  pub room : is_waiting job.state ≡ true → job.attempt_count < job.max_attempts
  pub leased : is_running job.state ≡ is_some job.lease_until
  pub owned : is_running job.state ≡ is_some job.lease_owner
  pub counted : job.fencing_generation ≡ job.attempt_count

pub record IsSoundTable (db : Db) : Type 0 where
  pub rows : All IsSound db.jobs
  pub unique : Unique db.jobs
  pub fresh : All (λ (job : Job). job.id < db.next_id) db.jobs

pub lease_to-IsSound :
    (w t : ℕ) (job : Job) → claimable t job ≡ true → IsSound job → IsSound (lease_to w t job)
unfolding claimable lease_to
lease_to-IsSound w t job c s = ground arith

pub overdue-IsSound :
    (t : ℕ) (job : Job) → claimable t job ≡ true → IsSound job → IsSound (overdue job)
unfolding claimable overdue
overdue-IsSound t job c s = ground arith

pub recovered-IsSound :
    (t : ℕ) (job : Job) → expired_lease t job ≡ true → IsSound job → IsSound (recovered job t)
unfolding expired_lease recovered
recovered-IsSound t job e s = ground arith

pub new_job-IsSound :
    (r : JobRequest) (id now : ℕ)
    → 1 ≤ r.max_attempts
    → r.max_attempts ≤ 3
    → IsSound (new_job r id now)
unfolding new_job
new_job-IsSound r id now l h = ground arith

pub succeed-IsSound : (job : Job) (t : ℕ) → IsSound job → IsSound (succeed job t)
unfolding succeed
succeed-IsSound job t s = ground arith

pub failed-IsSound :
    (job : Job) (e : _) (b : Bool) (t : ℕ) → IsSound job → IsSound (failed job e b t)
unfolding failed
failed-IsSound job e b t s = ground arith
