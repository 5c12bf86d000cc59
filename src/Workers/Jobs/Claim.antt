-- ===== src/Workers/Jobs/Claim.antt =====
-- What one claim hands to a worker.
use native.Mathlib.Nat.{one-le-pow}
use scope_guard.Base.{
  ◌>>=◌, ℕ, ◌+◌, ◌≤◌, ◌≡◌, refl, inl, inr, Bool, true, false, ◌&&◌, not, none, some, ◌≢◌, ◌∙◌, get,
  get-put_ne, get-put_self, List, [], ◌∷◌, arith, All, filter_sound, Bool-cases, length,
  length-take-le, ok, put, ◌-◌, String,
}
use scope_guard.Base.Unique.{
  Unique, Differs, Found, Found-self, Found-put, Unique-filter, Unique-take, Unique-sort_by,
}
use scope_guard.Workers.Faults.{CrashInjector}
use scope_guard.Workers.Tables.{JobState, Job, Db, job_id, seconds}
use scope_guard.Workers.Jobs.{
  claimable, claim_candidates, lease_to, overdue, claim_each, claim_jobs, reached, retry_delay,
  can_retry, failed, claim_order,
}
use scope_guard.Workers.Jobs.Reach.{free, candidates-All, candidates_of}

-- A claimed job: the next lease, by `w` for a minute from `t`, of a row of the table `before` that was free
-- at `t`, and a row of the table `kept`.
pub record IsClaimed (locked : Job → Bool) (w t : ℕ) (before kept : List Job) (job : Job)
    : Type 0 where
  pub old : Job
  pub stored : get old.id before ≡ some old
  pub leased : job ≡ lease_to w t old
  pub waited : claimable t old ≡ true
  pub unlocked : locked old ≡ false
  pub in_time : reached old.deadline_at t ≡ false
  pub saved : get job.id kept ≡ some job

and_right : (a b : Bool) → (a && not b) ≡ true → b ≡ false
and_right a b h = ground arith

and_first : (a b : Bool) → (a && not b) ≡ true → a ≡ true
and_first a b h = ground arith

-- the claim writes only its candidates
get-claim_each :
    (w t j : ℕ) (cs jobs : List Job)
    → All (λ c. c.id ≢ j) cs
    → get j (claim_each w t cs jobs).1 ≡ get j jobs
unfolding claim_each lease_to overdue
get-claim_each w t j [] jobs d = refl
get-claim_each w t j (c ∷ cs) jobs d = elim (Bool-cases (reached c.deadline_at t)) [
  | inl late ↦
      rw late
        (get-claim_each w t j cs (put (overdue c) jobs) d.1 ∙ get-put_ne j (overdue c) jobs d.0)
  | inr due ↦ rw due (
      get-claim_each w t j cs (put (lease_to w t c) jobs) d.1
      ∙ get-put_ne j (lease_to w t c) jobs d.0)
]

claim_each-IsClaimed :
    (locked : Job → Bool) (w t : ℕ) (before cs jobs : List Job)
    → All (λ c. free locked t c ≡ true) cs
    → Unique cs
    → Found before cs
    → Found jobs cs
    → All (IsClaimed locked w t before (claim_each w t cs jobs).1) (claim_each w t cs jobs).0
unfolding claim_each lease_to overdue
claim_each-IsClaimed locked w t before [] jobs h u f g = tt
claim_each-IsClaimed locked w t before (c ∷ cs) jobs h u f g =
    elim (Bool-cases (reached c.deadline_at t)) [
      | inl late ↦ rw late (
          claim_each-IsClaimed locked w t before cs (put (overdue c) jobs) h.1 u.1 f.1
            (Found-put (overdue c) jobs cs u.0 g.1))
      | inr due ↦ rw due (
        record {
          old = c;
          stored = f.0;
          leased = refl;
          waited = and_first (claimable t c) (locked c) h.0;
          unlocked = and_right (claimable t c) (locked c) h.0;
          in_time = due;
          saved =
              get-claim_each w t c.id cs (put (lease_to w t c) jobs) u.0
              ∙ get-put_self (lease_to w t c) jobs {old = c} g.0;
        },
        claim_each-IsClaimed locked w t before cs (put (lease_to w t c) jobs) h.1 u.1 f.1
            (Found-put (lease_to w t c) jobs cs u.0 g.1),
      )
    ]

claimed-Differs :
    (w t : ℕ) (x : Job) (cs jobs : List Job)
    → All (Differs x) cs
    → All (Differs x) (claim_each w t cs jobs).0
unfolding claim_each lease_to
claimed-Differs w t x [] jobs d = tt
claimed-Differs w t x (c ∷ cs) jobs d = elim (Bool-cases (reached c.deadline_at t)) [
  | inl late ↦ rw late (claimed-Differs w t x cs (put (overdue c) jobs) d.1)
  | inr due ↦ rw due (d.0, claimed-Differs w t x cs (put (lease_to w t c) jobs) d.1)
]

-- no job is handed out twice
claimed-Unique : (w t : ℕ) (cs jobs : List Job) → Unique cs → Unique (claim_each w t cs jobs).0
unfolding claim_each lease_to
claimed-Unique w t [] jobs u = tt
claimed-Unique w t (c ∷ cs) jobs u = elim (Bool-cases (reached c.deadline_at t)) [
  | inl late ↦ rw late (claimed-Unique w t cs (put (overdue c) jobs) u.1)
  | inr due ↦ rw due (
    claimed-Differs w t c cs (put (lease_to w t c) jobs) u.0,
    claimed-Unique w t cs (put (lease_to w t c) jobs) u.1,
  )
]

candidates-Unique :
    (locked : Job → Bool) (n t : ℕ) (jobs : List Job)
    → Unique jobs
    → Unique (claim_candidates locked n t jobs)
unfolding claim_candidates
candidates-Unique locked n t jobs u =
    Unique-take n _ (Unique-sort_by claim_order _ (Unique-filter (free locked t) jobs u))

length-claim_each : (w t : ℕ) (cs jobs : List Job) → length (claim_each w t cs jobs).0 ≤ length cs
unfolding claim_each
length-claim_each w t [] jobs = omega arith
length-claim_each w t (c ∷ cs) jobs = elim (Bool-cases (reached c.deadline_at t)) [
  | inl late ↦ rw late (omega (arith, length-claim_each w t cs (put (overdue c) jobs)))
  | inr due ↦ rw due (omega (arith, length-claim_each w t cs (put (lease_to w t c) jobs)))
]

length-candidates :
    (locked : Job → Bool) (n t : ℕ) (jobs : List Job)
    → length (claim_candidates locked n t jobs) ≤ n
unfolding claim_candidates
length-candidates locked n t jobs = length-take-le n _

-- a claim that returns has run its loop
claim_jobs-ok :
    (i : CrashInjector) (locked : Job → Bool) (w n t : ℕ) (db : Db) {claimed : List Job}
    → (claim_jobs i locked w n t db).0 ≡ ok claimed
    → let r = claim_each w t (claim_candidates locked n t db.jobs) db.jobs in
      (r.0 ≡ claimed) × ((claim_jobs i locked w n t db).1.jobs ≡ r.1)
unfolding claim_jobs ◌>>=◌
claim_jobs-ok i locked w n t db h = (ground arith, ground arith)

-- A claim that returns, of a table whose jobs have different identities, hands out at most `limit`
-- jobs, none of them twice. Each is the leased version of a row of the table that was waiting,
-- available, unleased, not locked by another transaction and before its deadline, and the table that
-- the claim leaves holds the leased version in its place.
pub claim_jobs_sound :
    (i : CrashInjector) (locked : Job → Bool) (w n t : ℕ) (db : Db) (claimed : List Job)
    → Unique db.jobs
    → (claim_jobs i locked w n t db).0 ≡ ok claimed
    → (length claimed ≤ n)
      × Unique claimed
      × All (IsClaimed locked w t db.jobs (claim_jobs i locked w n t db).1.jobs) claimed
claim_jobs_sound i locked w n t db claimed u h =
    let cs = claim_candidates locked n t db.jobs in
    let u' : Unique cs = candidates-Unique locked n t db.jobs u in
    let f : Found db.jobs cs =
      candidates_of (λ c. get c.id db.jobs ≡ some c) locked n t db.jobs (Found-self db.jobs u) in
    let (same, kept) = claim_jobs-ok i locked w n t db {claimed = claimed} h in
    let bound : length (claim_each w t cs db.jobs).0 ≤ n =
      omega (arith, length-claim_each w t cs db.jobs, length-candidates locked n t db.jobs) in
    rw (kept, ← same)
      (
        bound,
        claimed-Unique w t cs db.jobs u',
        claim_each-IsClaimed locked w t db.jobs cs db.jobs
            (candidates-All (λ c. free locked t c ≡ true) locked n t db.jobs
              (filter_sound (free locked t) db.jobs))
            u' f f,
      )

-- The pause before a retry lasts between a second and a minute.
retry_delay_bounds : (n : ℕ) → (1 ≤ retry_delay n) × (retry_delay n ≤ 60)
unfolding retry_delay
retry_delay_bounds n = (omega (arith, one-le-pow (n - 1) 2 (omega arith)), omega arith)

-- How a failure ends: `job` before, `job'` after, at the time `t`.
pub record IsFailed (job job' : Job) (b : Bool) (t : ℕ) : Type 0 where
  pub retried :
      can_retry job b t ≡ true
      → (job'.state ≡ JobState.retry_wait)
        × (job'.available_at ≤ t + seconds 60)
        × (t + seconds 1 ≤ job'.available_at)
  pub reviewed : can_retry job b t ≡ false → job'.state ≡ JobState.failed_requires_review
  pub unowned : job'.lease_owner ≡ none
  pub unleased : job'.lease_until ≡ none
  pub same_budget :
      (job'.attempt_count ≡ job.attempt_count) × (job'.fencing_generation ≡ job.fencing_generation)

-- A failure is retried between a second and a minute later exactly when the error is retryable, the
-- budget has an attempt left and the deadline has not come; otherwise it goes to review. Either way
-- the lease is gone, and the attempts and the generation stay.
pub failed-IsFailed :
    (job : Job) (er : String) (b : Bool) (t : ℕ) → IsFailed job (failed job er b t) b t
unfolding failed
failed-IsFailed job er b t = ground (arith, retry_delay_bounds job.attempt_count)
