-- ===== src/Workers/Jobs/Reach.antt =====
-- The queue as a transition system: every operation, successful or not, by any worker at any time.
use scope_guard.Base.{
  ℕ, ◌≡◌, inl, inr, Bool, true, false, ◌&&◌, not, none, some, List, [], ◌∷◌, String, arith, All,
  All-take, All-filter, All-put, All-map, All-zip, filter_sound, Bool-cases, Option-cases, filter,
  get, put, if◌then◌else◌, ltb, Exec, ◌>>=◌, bind_ok, bind_err, Error, ◌==◌, some_eq, ok, err,
}
use scope_guard.Base.Unique.{Unique, Unique-put, All-sort_by}
use scope_guard.Workers.Faults.{CrashInjector}
use scope_guard.Workers.Tables.{Job, Db, job_id}
use scope_guard.Workers.Jobs.{
  JobRequest, claimable, claim_order, claim_candidates, lease_to, overdue, is_running, reached,
  owned_job, require_job_owner, claim_each, claim_jobs, enqueue_job, heartbeat_job, complete_job,
  fail_job, recovered, recover_each, recover_expired_jobs, expired_lease,
}

-- One operation on the queue.
pub data Op : Type 0 where
  enqueue : CrashInjector → JobRequest → ℕ → Op
  claim : CrashInjector → (Job → Bool) → ℕ → ℕ → ℕ → Op
  heartbeat complete : ℕ → ℕ → ℕ → ℕ → Op
  fail : ℕ → ℕ → ℕ → String → Bool → ℕ → Op
  recover : (Job → Bool) → ℕ → Op

-- The database after the operation, also where it raised.
abbrev pub after : Op → Db → Db
after (Op.enqueue i r now) db = (enqueue_job i r now db).1
after (Op.claim i locked w limit t) db = (claim_jobs i locked w limit t db).1
after (Op.heartbeat j w g t) db = (heartbeat_job j w g t db).1
after (Op.complete j w g t) db = (complete_job j w g t db).1
after (Op.fail j w g e b t) db = (fail_job j w g e b t db).1
after (Op.recover locked t) db = (recover_expired_jobs locked t db).1

unfoldable pub run : List Op → Db → Db
run [] db = db
run (op ∷ ops) db = run ops (after op db)

-- A property of rows goes through the claim if it holds of what the claim writes.
pub claim_each-All {ℓ} :
    (P : Job → Type ℓ) (w t : ℕ) (cs jobs : List Job)
    → All (λ c. P (lease_to w t c) × P (overdue c)) cs
    → All P jobs
    → All P (claim_each w t cs jobs).1
unfolding claim_each
claim_each-All P w t [] jobs h k = k
claim_each-All P w t (c ∷ cs) jobs h k = elim (Bool-cases (reached c.deadline_at t)) [
  | inl late ↦
      rw late
        (claim_each-All P w t cs (put (overdue c) jobs) h.1 (All-put P (overdue c) jobs h.0.1 k))
  | inr due ↦ rw due (
      claim_each-All P w t cs (put (lease_to w t c) jobs) h.1
        (All-put P (lease_to w t c) jobs h.0.0 k))
]

pub claim_each-Unique :
    (w t : ℕ) (cs jobs : List Job) → Unique jobs → Unique (claim_each w t cs jobs).1
unfolding claim_each
claim_each-Unique w t [] jobs u = u
claim_each-Unique w t (c ∷ cs) jobs u = elim (Bool-cases (reached c.deadline_at t)) [
  | inl late ↦
      rw late (claim_each-Unique w t cs (put (overdue c) jobs) (Unique-put (overdue c) jobs u))
  | inr due ↦
      rw due
        (claim_each-Unique w t cs (put (lease_to w t c) jobs) (Unique-put (lease_to w t c) jobs u))
]

pub recover_each-All {ℓ} :
    (P : Job → Type ℓ) (t : ℕ) (cs jobs : List Job)
    → All (λ c. P (recovered c t)) cs
    → All P jobs
    → All P (recover_each t cs jobs)
unfolding recover_each
recover_each-All P t [] jobs h k = k
recover_each-All P t (c ∷ cs) jobs h k =
    recover_each-All P t cs (put (recovered c t) jobs) h.1 (All-put P (recovered c t) jobs h.0 k)

pub recover_each-Unique :
    (t : ℕ) (cs jobs : List Job) → Unique jobs → Unique (recover_each t cs jobs)
unfolding recover_each
recover_each-Unique t [] jobs u = u
recover_each-Unique t (c ∷ cs) jobs u =
    recover_each-Unique t cs (put (recovered c t) jobs) (Unique-put (recovered c t) jobs u)

-- the filter of the claim
abbrev pub free : (Job → Bool) → ℕ → Job → Bool
free locked t j = claimable t j && not (locked j)

pub candidates-All {ℓ} :
    (P : Job → Type ℓ) (locked : Job → Bool) (n t : ℕ) (jobs : List Job)
    → All P (filter (free locked t) jobs)
    → All P (claim_candidates locked n t jobs)
unfolding claim_candidates
candidates-All P locked n t jobs h = All-take P n _ (All-sort_by P claim_order _ h)

and_left : (a b : Bool) → (a && b) ≡ true → a ≡ true
and_left a b h = ground arith

pub claimable_candidates :
    (locked : Job → Bool) (n t : ℕ) (jobs : List Job)
    → All (λ c. claimable t c ≡ true) (claim_candidates locked n t jobs)
claimable_candidates locked n t jobs =
    candidates-All (λ c. claimable t c ≡ true) locked n t jobs
      (All-map _ _ (λ c h. and_left (claimable t c) (not (locked c)) h) _
        (filter_sound (free locked t) jobs))

-- What holds of every row holds of every candidate.
pub candidates_of :
    (P : Job → Type 0) (locked : Job → Bool) (n t : ℕ) (jobs : List Job)
    → All P jobs
    → All P (claim_candidates locked n t jobs)
candidates_of P locked n t jobs h =
    candidates-All P locked n t jobs (All-filter P (free locked t) jobs h)

abbrev Rows : (Job → Type 0) → Db → Type 0
Rows P db = All P db.jobs

pub jobs-claim_jobs :
    (i : CrashInjector) (locked : Job → Bool) (w n t : ℕ) (db : Db)
    → (claim_jobs i locked w n t db).1 ≡ (
        if ltb n 1
        then db
        else record db { jobs = (claim_each w t (claim_candidates locked n t db.jobs) db.jobs).1 })
unfolding claim_jobs ◌>>=◌
jobs-claim_jobs i locked w n t db = ground arith

-- The rows of the table that the claim leaves.
module _ (P : Job → Type 0) where
  pub claim_jobs-All :
      (i : CrashInjector) (locked : Job → Bool) (w n t : ℕ) (db : Db)
      → ((c : Job) → claimable t c ≡ true → P c → P (lease_to w t c) × P (overdue c))
      → Rows P db
      → Rows P (claim_jobs i locked w n t db).1
  claim_jobs-All i locked w n t db step h =
      let cs = claim_candidates locked n t db.jobs in
      let written : All (λ c. P (lease_to w t c) × P (overdue c)) cs =
        All-map _ _ (λ c z. step c z.0 z.1) cs
          (All-zip _ _ cs (claimable_candidates locked n t db.jobs)
            (candidates_of P locked n t db.jobs h)) in
      rw jobs-claim_jobs (elim (Bool-cases (ltb n 1)) [
        | inl none_asked ↦ rw none_asked h
        | inr asked ↦ rw asked (claim_each-All P w t cs db.jobs written h)
      ])

  pub recover-All :
      (locked : Job → Bool) (t : ℕ) (db : Db)
      → ((c : Job) → expired_lease t c ≡ true → P c → P (recovered c t))
      → Rows P db
      → Rows P (recover_expired_jobs locked t db).1
  unfolding recover_expired_jobs
  recover-All locked t db step h =
      recover_each-All P t _ db.jobs
        (All-map _ _ (λ c z. step c (and_left (expired_lease t c) (not (locked c)) z.0) z.1) _
          (All-zip _ _ _ (filter_sound (λ c. expired_lease t c && not (locked c)) db.jobs)
            (All-filter P (λ c. expired_lease t c && not (locked c)) db.jobs h)))
        h

-- The test of `require_job_owner`.
abbrev pub is_owner : Job → ℕ → ℕ → Bool
is_owner job w g = is_running job.state && some_eq job.lease_owner w && job.fencing_generation == g

pub owned_job-none :
    (j w g : ℕ) (db : Db) → get j db.jobs ≡ none → owned_job j w g db ≡ (err Error.durable, db)
unfolding owned_job ◌>>=◌
owned_job-none j w g db e = ground arith

pub owned_job_owner :
    (j w g : ℕ) (db : Db) (job : Job)
    → get j db.jobs ≡ some job
    → is_owner job w g ≡ true
    → owned_job j w g db ≡ (ok job, db)
unfolding owned_job require_job_owner ◌>>=◌
owned_job_owner j w g db job e o = ground arith

pub owned_job_stale :
    (j w g : ℕ) (db : Db) (job : Job)
    → get j db.jobs ≡ some job
    → is_owner job w g ≡ false
    → owned_job j w g db ≡ (err Error.stale_lease, db)
unfolding owned_job require_job_owner ◌>>=◌
owned_job_stale j w g db job e o = ground arith

-- An operation of a lease holder changes nothing, or goes on with the job that it owns.
pub owned_then {ℓ} :
    (Q : Db → Type ℓ) (k : Job → Exec Db Job) (j w g : ℕ) (db : Db)
    → Q db
    → ((job : Job) → get j db.jobs ≡ some job → is_owner job w g ≡ true → Q (k job db).1)
    → Q ((owned_job j w g >>= k) db).1
owned_then Q k j w g db q step = elim (Option-cases (get j db.jobs)) [
  | inl missing ↦
      bind_err (λ x. Q x.1) (owned_job j w g) k db _ db (owned_job-none j w g db missing) q
  | inr (job, e) ↦ elim (Bool-cases (is_owner job w g)) [
    | inl owner ↦
        bind_ok (λ x. Q x.1) (owned_job j w g) k db job db (owned_job_owner j w g db job e owner)
          (step job e owner)
    | inr stale ↦
        bind_err (λ x. Q x.1) (owned_job j w g) k db _ db (owned_job_stale j w g db job e stale) q
  ]
]
