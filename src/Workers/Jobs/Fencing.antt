-- ===== src/Workers/Jobs/Fencing.antt =====
-- What no run of the queue can undo: a fencing generation that has been passed.
use scope_guard.Base.{
  ℕ, ◌+◌, ◌≤◌, ◌<◌, ◌≡◌, ◌≢◌, refl, inl, inr, Bool, true, false, ◌&&◌, some, List, [], ◌∷◌, String,
  sym, arith, All, All-append, All-put, All-get, All-map, Bool-cases, Option-cases, get, get-id,
  leb, Exec, err, ◌>>=◌, Error, bind_err,
}
use scope_guard.Workers.Tables.{Job, Db, job_id, seconds}
use scope_guard.Workers.Jobs.{
  JobRequest, claimable, lease_to, overdue, is_running, lease_expired, deadline_passed, insert_job,
  new_job, heartbeat_job, complete_job, fail_job, failed, recovered, recover_expired_jobs,
  expired_lease, succeed, save_job, owned_job, lease_seconds, renew, finish,
}
use scope_guard.Workers.Jobs.Reach.{
  Op, after, run, claim_jobs-All, recover-All, is_owner, owned_then, owned_job_stale,
}
use scope_guard.Base.{ap, subst, ◌∙◌, Result}
use scope_guard.Base.Unique.{Found-self}
use scope_guard.Workers.Jobs.Invariant.{IsSoundTable}
use scope_guard.Workers.Jobs.Reach.{owned_job-none}
use scope_guard.Workers.Jobs.Safety.{enqueued, not_enqueued, next_id-claim_jobs, id-new_job}

-- A property of rows that every write of the queue keeps.
pub record IsClosed (P : Job → Type 0) : Type 0 where
  pub lease_to : (w t : ℕ) (job : Job) → claimable t job ≡ true → P job → P (lease_to w t job)
  pub overdue : (t : ℕ) (job : Job) → claimable t job ≡ true → P job → P (overdue job)
  pub renew :
      (u : ℕ) (job : Job)
      → is_running job.state ≡ true
      → P job
      → P (record job { lease_until = some u })
  pub succeed : (t : ℕ) (job : Job) → is_running job.state ≡ true → P job → P (succeed job t)
  pub failed :
      (e : String) (b : Bool) (t : ℕ) (job : Job)
      → is_running job.state ≡ true
      → P job
      → P (failed job e b t)
  pub recovered : (t : ℕ) (job : Job) → is_running job.state ≡ true → P job → P (recovered job t)

owner_runs : (w g : ℕ) (job : Job) → is_owner job w g ≡ true → is_running job.state ≡ true
owner_runs w g job o = ground arith

expired_runs : (t : ℕ) (job : Job) → expired_lease t job ≡ true → is_running job.state ≡ true
unfolding expired_lease
expired_runs t job o = ground arith

module _ (P : Job → Type 0) (c : IsClosed P) where
  abbrev Rows : Db → Type 0
  Rows db = All P db.jobs

  save-Rows : (job : Job) (db : Db) → P job → Rows db → Rows (save_job job db).1
  unfolding save_job
  save-Rows job db p h = All-put P job db.jobs p h

  renew-Rows :
      (t : ℕ) (job : Job) (db : Db)
      → is_running job.state ≡ true
      → P job
      → Rows db
      → Rows (renew t job db).1
  unfolding renew ◌>>=◌
  renew-Rows t job db r p h = elim (Bool-cases (lease_expired job.lease_until t)) [
    | inl late ↦ rw late h
    | inr live ↦ rw live (save-Rows _ db (c.renew (t + seconds lease_seconds) job r p) h)
  ]

  finish-Rows :
      (t : ℕ) (job : Job) (db : Db)
      → is_running job.state ≡ true
      → P job
      → Rows db
      → Rows (finish t job db).1
  unfolding finish ◌>>=◌
  finish-Rows t job db r p h = elim (Bool-cases (deadline_passed job.deadline_at t)) [
    | inl late ↦ rw late h
    | inr due ↦ rw due (save-Rows _ db (c.succeed t job r p) h)
  ]

  -- Every operation but an insert keeps a closed property of the rows.
  pub after-Rows :
      (op : Op) (db : Db)
      → ((r : JobRequest) (now : ℕ) → P (new_job r db.next_id now))
      → Rows db
      → Rows (after op db)
  unfolding heartbeat_job complete_job fail_job insert_job
  after-Rows (Op.enqueue i r now) db n h =
      elim (Bool-cases (leb 1 r.max_attempts && leb r.max_attempts 3)) [
        | inl within ↦ rw (enqueued i r now db within) (All-append P db.jobs _ h (n r now, tt))
        | inr outside ↦ rw (not_enqueued i r now db outside) h
      ]
  after-Rows (Op.claim i locked w m t) db n h =
      claim_jobs-All P i locked w m t db (λ j a p. (c.lease_to w t j a p, c.overdue t j a p)) h
  after-Rows (Op.heartbeat j w g t) db n h =
      owned_then Rows (renew t) j w g db h
        (λ job e o. renew-Rows t job db (owner_runs w g job o) (All-get P j db.jobs job e h) h)
  after-Rows (Op.complete j w g t) db n h =
      owned_then Rows (finish t) j w g db h
        (λ job e o. finish-Rows t job db (owner_runs w g job o) (All-get P j db.jobs job e h) h)
  after-Rows (Op.fail j w g e b t) db n h =
      owned_then Rows (λ job. save_job (failed job e b t)) j w g db h
        (λ job q o.
          save-Rows _ db (c.failed e b t job (owner_runs w g job o) (All-get P j db.jobs job q h))
            h)
  after-Rows (Op.recover locked t) db n h =
      recover-All P locked t db (λ j x p. c.recovered t j (expired_runs t j x) p) h

-- The supply of identities only grows.
abbrev Grown : Db → Db → Type 0
Grown db db' = db.next_id ≤ db'.next_id

next_id-save : (job : Job) (db : Db) → Grown db (save_job job db).1
unfolding save_job
next_id-save job db = omega arith

next_id-renew : (t : ℕ) (job : Job) (db : Db) → Grown db (renew t job db).1
unfolding renew save_job ◌>>=◌
next_id-renew t job db = ground arith

next_id-finish : (t : ℕ) (job : Job) (db : Db) → Grown db (finish t job db).1
unfolding finish save_job ◌>>=◌
next_id-finish t job db = ground arith

next_id-insert_job : (r : JobRequest) (now : ℕ) (db : Db) → Grown db (insert_job r now db).1
unfolding insert_job
next_id-insert_job r now db = omega arith

pub next_id-after : (op : Op) (db : Db) → db.next_id ≤ (after op db).next_id
unfolding heartbeat_job complete_job fail_job recover_expired_jobs
next_id-after (Op.enqueue i r now) db =
    elim (Bool-cases (leb 1 r.max_attempts && leb r.max_attempts 3)) [
      | inl within ↦ rw (enqueued i r now db within) (next_id-insert_job r now db)
      | inr outside ↦ rw (not_enqueued i r now db outside) (omega arith)
    ]
next_id-after (Op.claim i locked w m t) db = rw next_id-claim_jobs (omega arith)
next_id-after (Op.heartbeat j w g t) db =
    owned_then (Grown db) (renew t) j w g db (omega arith) (λ job e o. next_id-renew t job db)
next_id-after (Op.complete j w g t) db =
    owned_then (Grown db) (finish t) j w g db (omega arith) (λ job e o. next_id-finish t job db)
next_id-after (Op.fail j w g e b t) db =
    owned_then (Grown db) (λ job. save_job (failed job e b t)) j w g db (omega arith)
      (λ job q o. next_id-save (failed job e b t) db)
next_id-after (Op.recover locked t) db = omega arith

-- The job `j` has passed the generation `g`.
abbrev pub IsPast : ℕ → ℕ → Job → Type 0
IsPast j g job = job.id ≡ j → g < job.fencing_generation

IsPast-IsClosed : (j g : ℕ) → IsClosed (IsPast j g)
unfolding lease_to overdue succeed failed recovered
IsPast-IsClosed j g = record {
  lease_to = λ w t job a p e. ground (arith, p e);
  overdue = λ t job a p. p;
  renew = λ u job r p. p;
  succeed = λ t job r p. p;
  failed = λ e b t job r p q. ground (arith, p (ground arith));
  recovered = λ t job r p q. ground (arith, p (ground arith));
}

module _ (P : Job → Type 0) (c : IsClosed P) (j : ℕ)
    (new : (r : JobRequest) (id now : ℕ) → id ≢ j → P (new_job r id now)) where
  run-Rows : (ops : List Op) (db : Db) → j < db.next_id → All P db.jobs → All P (run ops db).jobs
  unfolding run
  run-Rows [] db l h = h
  run-Rows (op ∷ ops) db l h =
      run-Rows ops (after op db) (omega (arith, next_id-after op db))
        (after-Rows P c op db (λ r now. new r db.next_id now (omega arith)) h)

-- What holds of the one row of an identity holds of every row, where it asks for that identity.
pub row_of :
    (P : Job → Type 0) (j : ℕ) (db : Db) (job : Job)
    → IsSoundTable db
    → get j db.jobs ≡ some job
    → P job
    → All (λ (x : Job). x.id ≡ j → P x) db.jobs
row_of P j db job t e p =
    All-map _ _
      (λ x f q.
        let same : some x ≡ some job = sym f ∙ ap (λ i. get i db.jobs) q ∙ e in
        let eq : x ≡ job = cc in subst P (sym eq) p)
      db.jobs (Found-self db.jobs t.unique)

pub stored_below :
    (j : ℕ) (db : Db) (job : Job) → IsSoundTable db → get j db.jobs ≡ some job → j < db.next_id
stored_below j db job t e = omega (
  arith,
  get-id j db.jobs {r = job} e,
  All-get (λ (x : Job). x.id < db.next_id) j db.jobs job e t.fresh,
)

-- The call raised and changed nothing.
abbrev pub Refused : Result Job × Db → Db → Type 0
Refused r db = (e : Error) × (r ≡ (err e, db))

not_owner : (j w g : ℕ) (job : Job) → job.id ≡ j → IsPast j g job → is_owner job w g ≡ false
not_owner j w g job e p = ground (arith, p e)

refused :
    (k : Job → Exec Db Job) (j w g : ℕ) (db : Db)
    → All (IsPast j g) db.jobs
    → Refused ((owned_job j w g >>= k) db) db
refused k j w g db h = elim (Option-cases (get j db.jobs)) [
  | inl missing ↦ (
    Error.durable,
    bind_err (λ x. x ≡ (err Error.durable, db)) (owned_job j w g) k db _ db
        (owned_job-none j w g db missing) refl,
  )
  | inr (job, e) ↦ (
    Error.stale_lease,
    bind_err (λ x. x ≡ (err Error.stale_lease, db)) (owned_job j w g) k db _ db
        (owned_job_stale j w g db job e (
          not_owner j w g job (get-id j db.jobs {r = job} e)
            (All-get (IsPast j g) j db.jobs job e h)))
        refl,
  )
]

-- Once a stored job has been claimed beyond the generation `g`, whatever the queue then does, a
-- worker that still holds `g` can neither renew, complete nor fail the job: each of the three calls
-- raises, at any time, and leaves the database as it is.
pub stale_holder-Refused :
    (j w g : ℕ) (ops : List Op) (db : Db) (job : Job)
    → IsSoundTable db
    → get j db.jobs ≡ some job
    → g < job.fencing_generation
    → (t : ℕ) (er : String) (b : Bool)
    → Refused (heartbeat_job j w g t (run ops db)) (run ops db)
      × Refused (complete_job j w g t (run ops db)) (run ops db)
      × Refused (fail_job j w g er b t (run ops db)) (run ops db)
unfolding heartbeat_job complete_job fail_job
stale_holder-Refused j w g ops db job s e past t er b =
    let h : All (IsPast j g) (run ops db).jobs =
      run-Rows (IsPast j g) (IsPast-IsClosed j g) j
        (λ r id now n q. absurd (n (sym (id-new_job r id now) ∙ q))) ops db
        (stored_below j db job s e) (row_of (λ x. g < x.fencing_generation) j db job s e past) in
    (
      refused (renew t) j w g (run ops db) h,
      refused (finish t) j w g (run ops db) h,
      refused (λ x. save_job (failed x er b t)) j w g (run ops db) h,
    )
