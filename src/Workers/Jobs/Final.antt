-- ===== src/Workers/Jobs/Final.antt =====
-- The states in which a job stays, through the queue's operations and the retries of operators.
use scope_guard.Base.{
  ℕ, ◌≤◌, ◌<◌, ◌≡◌, refl, inl, inr, Bool, true, false, ◌||◌, some, List, [], ◌∷◌, String, ◌⊎◌,
  subst, put, arith, All, All-put, All-get, Bool-cases, Option-cases, get, get-id, find?, ◌>>=◌,
}
use scope_guard.Workers.Tables.{JobState, Job, Db, job_id}
use scope_guard.Workers.Jobs.{claimable, lease_to, overdue, failed, recovered, succeed, save_job}
use scope_guard.Workers.Jobs.Safety.{id-new_job}
use scope_guard.Workers.Jobs.Invariant.{IsSoundTable}
use scope_guard.Workers.Jobs.Fencing.{IsClosed, after-Rows, next_id-after, row_of, stored_below}
use scope_guard.Workers.Operator.{
  is_retryable, is_job_of, reopened, retry_failed_job, Deed, done, perform, is_retry, is_retried,
}

abbrev pub is_final : JobState → Bool
is_final JobState.succeeded = true
is_final JobState.failed_requires_review = true
is_final JobState.cancelled = true
is_final _ = false

-- The job `j`, if it is stored, has the state `s`.
abbrev pub IsFinal : ℕ → JobState → Job → Type 0
IsFinal j s job = job.id ≡ j → job.state ≡ s

IsFinal-IsClosed : (j : ℕ) (s : JobState) → is_final s ≡ true → IsClosed (IsFinal j s)
unfolding lease_to overdue succeed failed recovered claimable
IsFinal-IsClosed j s f = record {
  lease_to = λ w t job a p e. ground (arith, p e);
  overdue = λ t job a p e. ground (arith, p e);
  renew = λ u job r p. p;
  succeed = λ t job r p e. ground (arith, p e);
  failed = λ e b t job r p q. ground (arith, p (ground arith));
  recovered = λ t job r p q. ground (arith, p (ground arith));
}

found-All :
    (P : Job → Type 0) (p : Job → Bool) (xs : List Job) (job : Job)
    → find? p xs ≡ some job
    → All P xs
    → (p job ≡ true) × P job
unfolding find?
found-All P p [] job e h = absurd cc
found-All P p (x ∷ xs) job e h = elim (Bool-cases (p x)) [
  | inl hit ↦
      let same : x ≡ job = ground (arith, e, hit) in
      (subst (λ y. p y ≡ true) same hit, subst P same h.0)
  | inr miss ↦ found-All P p xs job (ground (arith, e, miss)) h.1
]

-- what a retry of an operator does to the table
retry-cases :
    (tenant k : ℕ) (reason : String) (now : ℕ) (db : Db)
    → ((retry_failed_job tenant k reason now db).1 ≡ db)
      ⊎ ((job : Job) × (find? (is_job_of tenant k) db.jobs ≡ some job)
          × (is_retryable job.state ≡ true)
          × ((retry_failed_job tenant k reason now db).1
              ≡ record db { jobs = put (reopened reason now job) db.jobs }))
unfolding retry_failed_job save_job ◌>>=◌
retry-cases tenant k reason now db = elim (Option-cases (find? (is_job_of tenant k) db.jobs)) [
  | inl missing ↦ inl (ground arith)
  | inr (job, e) ↦ elim (Bool-cases (is_retryable job.state)) [
    | inl able ↦ inr (job, e, able, ground arith)
    | inr unable ↦ inl (ground arith)
  ]
]

-- a final state that a retry takes is the failure
retryable_final :
    (s : JobState) → is_final s ≡ true → is_retryable s ≡ true → s ≡ JobState.failed_requires_review
unfolding is_retryable
retryable_final s f r = ground arith

id_of_found : (tenant k : ℕ) (job : Job) → is_job_of tenant k job ≡ true → job.id ≡ k
unfolding is_job_of
id_of_found tenant k job e = ground arith

module _ (j : ℕ) (s : JobState) (f : is_final s ≡ true) where
  -- No step but an operator's retry of the job changes the state.
  done-IsFinal :
      (d : Deed) (db : Db)
      → j < db.next_id
      → (s ≡ JobState.failed_requires_review → is_retry j d ≡ false)
      → All (IsFinal j s) db.jobs
      → All (IsFinal j s) (done d db).jobs
  unfolding reopened
  done-IsFinal (Deed.queue op) db l n h =
      after-Rows (IsFinal j s) (IsFinal-IsClosed j s f) op db
        (λ r now q. absurd (omega (arith, l, id-new_job r db.next_id now, q))) h
  done-IsFinal (Deed.retry tenant k reason now) db l n h =
      elim (retry-cases tenant k reason now db) [
        | inl same ↦ rw same h
        | inr (job, e, able, same) ↦
            let (hit, p) = found-All (IsFinal j s) (is_job_of tenant k) db.jobs job e h in
            let own = id_of_found tenant k job hit in
            rw same (
              All-put (IsFinal j s) (reopened reason now job) db.jobs
                (λ q.
                  let at : job.state ≡ s = p q in
                  let late = retryable_final s f (subst (λ x. is_retryable x ≡ true) at able) in
                  absurd (ground (arith, n late, own, q)))
                h)
      ]

  next_id-done : (d : Deed) (db : Db) → db.next_id ≤ (done d db).next_id
  next_id-done (Deed.queue op) db = next_id-after op db
  next_id-done (Deed.retry tenant k reason now) db = elim (retry-cases tenant k reason now db) [
    | inl same ↦ rw same (omega arith)
    | inr (job, e, able, same) ↦ rw same (omega arith)
  ]

  or_false : (a b : Bool) → (a || b) ≡ false → (a ≡ false) × (b ≡ false)
  or_false a b e = (ground arith, ground arith)

  perform-IsFinal :
      (ds : List Deed) (db : Db)
      → j < db.next_id
      → (s ≡ JobState.failed_requires_review → is_retried j ds ≡ false)
      → All (IsFinal j s) db.jobs
      → All (IsFinal j s) (perform ds db).jobs
  unfolding perform is_retried
  perform-IsFinal [] db l n h = h
  perform-IsFinal (d ∷ ds) db l n h =
      perform-IsFinal ds (done d db) (omega (arith, next_id-done d db))
        (λ q. (or_false (is_retry j d) (is_retried j ds) (n q)).1)
        (done-IsFinal d db l (λ q. (or_false (is_retry j d) (is_retried j ds) (n q)).0) h)

-- Through any course of the queue's operations and of operators' retries, a job that has succeeded or
-- been cancelled keeps that state; and one that has failed for review keeps it unless an operator's
-- retry names the job.
pub final_state_kept :
    (j : ℕ) (deeds : List Deed) (db : Db) (job job' : Job)
    → IsSoundTable db
    → get j db.jobs ≡ some job
    → is_final job.state ≡ true
    → (job.state ≡ JobState.failed_requires_review → is_retried j deeds ≡ false)
    → get j (perform deeds db).jobs ≡ some job'
    → job'.state ≡ job.state
final_state_kept j deeds db job job' s e f n e' =
    let h : All (IsFinal j job.state) (perform deeds db).jobs =
      perform-IsFinal j job.state f deeds db (stored_below j db job s e) n
        (row_of (λ x. x.state ≡ job.state) j db job s e refl) in
    All-get (IsFinal j job.state) j (perform deeds db).jobs job' e' h
      (get-id j (perform deeds db).jobs {r = job'} e')
