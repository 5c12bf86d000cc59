-- ===== src/Workers/Jobs/Safety.antt =====
-- Every operation of the queue keeps the invariant of the job table, and so does every run.
use scope_guard.Base.{
  ℕ, ◌+◌, ◌≤◌, ◌<◌, ◌≡◌, refl, inl, inr, Bool, true, false, ◌&&◌, some, List, [], ◌∷◌, String,
  arith, All, All-append, All-put, All-get, All-map, Bool-cases, get, leb, ltb, ◌>>=◌,
}
use scope_guard.Base.Unique.{Unique, Unique-put, Unique-snoc}
use scope_guard.Workers.Faults.{CrashInjector}
use scope_guard.Workers.Tables.{Job, Db, job_id, seconds}
use scope_guard.Workers.Jobs.{renew, finish, lease_expired, deadline_passed}
use scope_guard.Workers.Jobs.{
  JobRequest, claim_candidates, lease_to, overdue, claim_jobs, enqueue_job, insert_job, new_job,
  heartbeat_job, complete_job, fail_job, failed, recovered, recover_expired_jobs, succeed, save_job,
  lease_seconds,
}
use scope_guard.Workers.Jobs.Invariant.{
  IsSound, IsSoundTable, lease_to-IsSound, overdue-IsSound, recovered-IsSound, new_job-IsSound,
  succeed-IsSound, failed-IsSound,
}
use scope_guard.Workers.Jobs.Reach.{
  Op, after, run, claim_each-Unique, recover_each-Unique, claim_jobs-All, recover-All,
  jobs-claim_jobs, is_owner, owned_then,
}

id-failed : (job : Job) (er : String) (b : Bool) (t : ℕ) → (failed job er b t).id ≡ job.id
unfolding failed
id-failed job er b t = ground arith

id-recovered : (job : Job) (t : ℕ) → (recovered job t).id ≡ job.id
unfolding recovered
id-recovered job t = ground arith

id-lease_to : (w t : ℕ) (job : Job) → (lease_to w t job).id ≡ job.id
unfolding lease_to
id-lease_to w t job = refl

id-overdue : (job : Job) → (overdue job).id ≡ job.id
unfolding overdue
id-overdue job = refl

pub id-new_job : (r : JobRequest) (id now : ℕ) → (new_job r id now).id ≡ id
unfolding new_job
id-new_job r id now = refl

pub next_id-claim_jobs :
    (i : CrashInjector) (locked : Job → Bool) (w n t : ℕ) (db : Db)
    → (claim_jobs i locked w n t db).1.next_id ≡ db.next_id
next_id-claim_jobs i locked w n t db = rw jobs-claim_jobs (ground arith)

pub enqueued :
    (i : CrashInjector) (r : JobRequest) (now : ℕ) (db : Db)
    → (leb 1 r.max_attempts && leb r.max_attempts 3) ≡ true
    → (enqueue_job i r now db).1 ≡ (insert_job r now db).1
unfolding enqueue_job insert_job ◌>>=◌
enqueued i r now db h = ground arith

pub not_enqueued :
    (i : CrashInjector) (r : JobRequest) (now : ℕ) (db : Db)
    → (leb 1 r.max_attempts && leb r.max_attempts 3) ≡ false
    → (enqueue_job i r now db).1 ≡ db
unfolding enqueue_job ◌>>=◌
not_enqueued i r now db h = ground arith

-- Writing back a job keeps the invariant if the new version is sound under the same identity.
save_job-IsSoundTable :
    (job : Job) (db : Db)
    → IsSoundTable db
    → IsSound job
    → job.id < db.next_id
    → IsSoundTable (save_job job db).1
unfolding save_job
save_job-IsSoundTable job db t s l = record {
  rows = All-put IsSound job db.jobs s t.rows;
  unique = Unique-put job db.jobs t.unique;
  fresh = All-put (λ (x : Job). x.id < db.next_id) job db.jobs l t.fresh;
}

-- the row that is owned is sound and has an identity of the table
stored :
    (j : ℕ) (db : Db) (job : Job)
    → IsSoundTable db
    → get j db.jobs ≡ some job
    → IsSound job × (job.id < db.next_id)
stored j db job t e = (
  All-get IsSound j db.jobs job e t.rows,
  All-get (λ (x : Job). x.id < db.next_id) j db.jobs job e t.fresh,
)

module _ (db : Db) (t : IsSoundTable db) (j w g : ℕ) (job : Job) (e : get j db.jobs ≡ some job)
    (o : is_owner job w g ≡ true) where
  leased-IsSound : (u : ℕ) → IsSound (record job { lease_until = some u })
  leased-IsSound u = let s = (stored j db job t e).0 in ground arith

  renew-IsSoundTable : (now : ℕ) → IsSoundTable (renew now job db).1
  unfolding renew ◌>>=◌
  renew-IsSoundTable now = elim (Bool-cases (lease_expired job.lease_until now)) [
    | inl late ↦ rw late t
    | inr live ↦ rw live (
        save_job-IsSoundTable _ db t (leased-IsSound (now + seconds lease_seconds))
          (stored j db job t e).1)
  ]

  finish-IsSoundTable : (now : ℕ) → IsSoundTable (finish now job db).1
  unfolding finish succeed ◌>>=◌
  finish-IsSoundTable now = elim (Bool-cases (deadline_passed job.deadline_at now)) [
    | inl late ↦ rw late t
    | inr due ↦ rw due (
        save_job-IsSoundTable (succeed job now) db t
          (succeed-IsSound job now (stored j db job t e).0) (stored j db job t e).1)
  ]

  failed-IsSoundTable :
      (er : String) (b : Bool) (now : ℕ) → IsSoundTable (save_job (failed job er b now) db).1
  failed-IsSoundTable er b now =
      save_job-IsSoundTable (failed job er b now) db t
        (failed-IsSound job er b now (stored j db job t e).0) (rw id-failed (stored j db job t e).1)

heartbeat-IsSoundTable :
    (j w g t : ℕ) (db : Db) → IsSoundTable db → IsSoundTable (heartbeat_job j w g t db).1
unfolding heartbeat_job
heartbeat-IsSoundTable j w g t db h =
    owned_then IsSoundTable (renew t) j w g db h
      (λ job e o. renew-IsSoundTable db h j w g job e o t)

complete-IsSoundTable :
    (j w g t : ℕ) (db : Db) → IsSoundTable db → IsSoundTable (complete_job j w g t db).1
unfolding complete_job
complete-IsSoundTable j w g t db h =
    owned_then IsSoundTable (finish t) j w g db h
      (λ job e o. finish-IsSoundTable db h j w g job e o t)

fail-IsSoundTable :
    (j w g : ℕ) (er : String) (b : Bool) (t : ℕ) (db : Db)
    → IsSoundTable db
    → IsSoundTable (fail_job j w g er b t db).1
unfolding fail_job
fail-IsSoundTable j w g er b t db h =
    owned_then IsSoundTable (λ job. save_job (failed job er b t)) j w g db h
      (λ job e o. failed-IsSoundTable db h j w g job e o er b t)

claim-IsSoundTable :
    (i : CrashInjector) (locked : Job → Bool) (w n t : ℕ) (db : Db)
    → IsSoundTable db
    → IsSoundTable (claim_jobs i locked w n t db).1
claim-IsSoundTable i locked w n t db h = record {
  rows =
      claim_jobs-All IsSound i locked w n t db
        (λ c a s. (lease_to-IsSound w t c a s, overdue-IsSound t c a s)) h.rows;
  unique = claim_unique;
  fresh = claim_fresh;
}
  where
    claim_unique : Unique (claim_jobs i locked w n t db).1.jobs
    claim_unique = rw jobs-claim_jobs (elim (Bool-cases (ltb n 1)) [
      | inl none_asked ↦ rw none_asked h.unique
      | inr asked ↦
          rw asked (claim_each-Unique w t (claim_candidates locked n t db.jobs) db.jobs h.unique)
    ])

    claim_fresh :
        All
          (λ (x : Job). x.id < (claim_jobs i locked w n t db).1.next_id)
          (claim_jobs i locked w n t db).1.jobs
    claim_fresh = rw next_id-claim_jobs (
        claim_jobs-All (λ (x : Job). x.id < db.next_id) i locked w n t db
          (λ c a l. (rw id-lease_to l, rw id-overdue l)) h.fresh)

recover-IsSoundTable :
    (locked : Job → Bool) (t : ℕ) (db : Db)
    → IsSoundTable db
    → IsSoundTable (recover_expired_jobs locked t db).1
unfolding recover_expired_jobs
recover-IsSoundTable locked t db h = record {
  rows = recover-All IsSound locked t db (λ c a s. recovered-IsSound t c a s) h.rows;
  unique = recover_each-Unique t _ db.jobs h.unique;
  fresh =
      recover-All (λ (x : Job). x.id < db.next_id) locked t db (λ c a l. rw id-recovered l) h.fresh;
}

-- the two inserts keep the table sound
insert_job-IsSoundTable :
    (r : JobRequest) (now : ℕ) (db : Db)
    → 1 ≤ r.max_attempts
    → r.max_attempts ≤ 3
    → IsSoundTable db
    → IsSoundTable (insert_job r now db).1
unfolding insert_job
insert_job-IsSoundTable r now db l u h =
    let job = new_job r db.next_id now in
    let old : All (λ (x : Job). x.id < db.next_id + 2) db.jobs =
      All-map _ _ (λ x p. omega arith) db.jobs h.fresh in
    record {
      rows =
          All-append IsSound db.jobs (job ∷ []) h.rows (new_job-IsSound r db.next_id now l u, tt);
      unique = Unique-snoc db.jobs job h.unique (rw id-new_job h.fresh);
      fresh =
          All-append (λ (x : Job). x.id < db.next_id + 2) db.jobs (job ∷ []) old
            (rw id-new_job (omega arith), tt);
    }

enqueue-IsSoundTable :
    (i : CrashInjector) (r : JobRequest) (now : ℕ) (db : Db)
    → IsSoundTable db
    → IsSoundTable (enqueue_job i r now db).1
enqueue-IsSoundTable i r now db h =
    elim (Bool-cases (leb 1 r.max_attempts && leb r.max_attempts 3)) [
      | inl within ↦
          rw (enqueued i r now db within)
            (insert_job-IsSoundTable r now db (ground arith) (ground arith) h)
      | inr outside ↦ rw (not_enqueued i r now db outside) h
    ]

-- Every operation, at any time, by any worker and also where it raises, keeps the job table sound.
after-IsSoundTable : (op : Op) (db : Db) → IsSoundTable db → IsSoundTable (after op db)
after-IsSoundTable (Op.enqueue i r now) db h = enqueue-IsSoundTable i r now db h
after-IsSoundTable (Op.claim i locked w n t) db h = claim-IsSoundTable i locked w n t db h
after-IsSoundTable (Op.heartbeat j w g t) db h = heartbeat-IsSoundTable j w g t db h
after-IsSoundTable (Op.complete j w g t) db h = complete-IsSoundTable j w g t db h
after-IsSoundTable (Op.fail j w g e b t) db h = fail-IsSoundTable j w g e b t db h
after-IsSoundTable (Op.recover locked t) db h = recover-IsSoundTable locked t db h

-- From a sound table every run of operations leads to a sound table.
pub run-IsSoundTable : (ops : List Op) (db : Db) → IsSoundTable db → IsSoundTable (run ops db)
unfolding run
run-IsSoundTable [] db h = h
run-IsSoundTable (op ∷ ops) db h = run-IsSoundTable ops (after op db) (after-IsSoundTable op db h)
