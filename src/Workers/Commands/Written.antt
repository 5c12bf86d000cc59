-- ===== src/Workers/Commands/Written.antt =====
-- What the body of a command writes beside its operation.
use scope_guard.Base.{
  ℕ, ◌+◌, Error, ◌≡◌, refl, ap, ◌∙◌, Option, none, some, List, [], ◌∷◌, ◌++◌, sym, ok, err, Exec,
  pure, ◌>>=◌, ◌>>◌, bind_ok, bind_err, Json, obj, field, end,
}
use scope_guard.Workers.Faults.{no_injector}
use scope_guard.Workers.Tables.{JobState, Job, OutboxEvent, AuditEvent, Db}
use scope_guard.Workers.Jobs.{new_job, wakeup, insert_job, enqueue_job}
use scope_guard.Workers.Commands.{
  AuditSpec, JobSpec, or_null, job_request, enqueue_each, audit_event, add_audit, command_body,
}

-- a job that is queued for a specification, to run at once, three times at most
pub record IsQueuedFor (now : ℕ) (spec : JobSpec) (job : Job) : Type 0 where
  pub tenant : job.tenant_id ≡ spec.tenant_id
  pub project : job.project_id ≡ spec.project_id
  pub kind : job.kind ≡ spec.kind
  pub payload : job.payload_ref ≡ spec.payload_ref
  pub correlation : job.correlation_id ≡ spec.correlation_id
  pub causation : job.causation_id ≡ spec.causation_id
  pub state : job.state ≡ JobState.queued
  pub due : job.available_at ≡ now
  pub budget : (job.attempt_count ≡ 0) × (job.max_attempts ≡ 3)

-- one job for each specification, in their order
abbrev pub Queued : ℕ → List JobSpec → List Job → Type 0
Queued now [] [] = Unit
Queued now (spec ∷ specs) (job ∷ jobs) = IsQueuedFor now spec job × Queued now specs jobs
Queued now _ _ = ⊥

-- one unpublished outbox event for each job, in their order
abbrev pub Woken : List Job → List OutboxEvent → Type 0
Woken [] [] = Unit
Woken (job ∷ jobs) (event ∷ events) =
    ((event.event_type ≡ "job.queued")
      × (event.aggregate_id ≡ job.id)
      × (event.published_at ≡ none))
    × Woken jobs events
Woken _ _ = ⊥

-- an audit entry of a specification, at the time `now`
pub record IsEntry (canonical_sha256 : Json → ℕ) (now : ℕ) (spec : AuditSpec) (entry : AuditEvent)
    : Type 0 where
  pub tenant : entry.tenant_id ≡ spec.tenant_id
  pub project : entry.project_id ≡ spec.project_id
  pub actor : entry.actor ≡ spec.actor
  pub action : entry.action ≡ spec.action
  pub resource :
      (entry.resource_type ≡ spec.resource_type)
      × (entry.resource_id ≡ spec.resource_id)
      × (entry.resource_revision ≡ spec.resource_revision)
  pub causes :
      (entry.correlation_id ≡ spec.correlation_id) × (entry.causation_id ≡ spec.causation_id)
  pub states :
      (entry.before_state ≡ or_null spec.before_state)
      × (entry.after_state ≡ or_null spec.after_state)
  pub digest :
      entry.content_digest
      ≡ canonical_sha256
          (obj (field "before" entry.before_state (field "after" entry.after_state end)))
  pub created : entry.created_at ≡ now

abbrev pub Audited : (Json → ℕ) → ℕ → Option AuditSpec → List AuditEvent → Type 0
Audited h now none entries = entries ≡ []
Audited h now (some spec) entries =
    (entry : AuditEvent) × (entries ≡ entry ∷ []) × IsEntry h now spec entry

-- From `db` to `db'` the jobs of the specifications are added, each with its outbox event, and the
-- entries of the audit, and nothing else is written but the supply of identities.
pub record IsWritten (canonical_sha256 : Json → ℕ) (audit : Option AuditSpec) (specs : List JobSpec)
    (now : ℕ) (db db' : Db) : Type 0 where
  pub jobs : List Job
  pub events : List OutboxEvent
  pub entries : List AuditEvent
  pub jobs_added : db'.jobs ≡ db.jobs ++ jobs
  pub queued : Queued now specs jobs
  pub events_added : db'.outbox ≡ db.outbox ++ events
  pub woken : Woken jobs events
  pub entries_added : db'.audits ≡ db.audits ++ entries
  pub audited : Audited canonical_sha256 now audit entries
  pub others :
      (db'.receipts ≡ db.receipts) × (db'.actions ≡ db.actions) × (db'.attempts ≡ db.attempts)

append_nil : {A : Type 0} (xs : List A) → xs ≡ xs ++ []
append_nil [] = refl
append_nil (x ∷ xs) = ap (λ ys. x ∷ ys) (append_nil xs)

append_snoc : {A : Type 0} (xs : List A) (y : A) (ys : List A) → (xs ++ y ∷ []) ++ ys ≡ xs ++ y ∷ ys
append_snoc [] y ys = refl
append_snoc (x ∷ xs) y ys = ap (λ zs. x ∷ zs) (append_snoc xs y ys)

queued_first :
    (spec : JobSpec) (now id : ℕ) → IsQueuedFor now spec (new_job (job_request spec) id now)
unfolding new_job job_request
queued_first spec now id = record {
  tenant = refl;
  project = refl;
  kind = refl;
  payload = refl;
  correlation = refl;
  causation = refl;
  state = refl;
  due = refl;
  budget = (refl, refl);
}

enqueued_first :
    (spec : JobSpec) (now : ℕ) (db : Db)
    → enqueue_job no_injector (job_request spec) now db ≡ insert_job (job_request spec) now db
unfolding enqueue_job insert_job job_request ◌>>=◌
enqueued_first spec now db = refl

module _ (canonical_sha256 : Json → ℕ) (now : ℕ) where
  -- queueing one job after the other
  each-IsWritten :
      (specs : List JobSpec) (db : Db)
      → (db' : Db) × (enqueue_each specs now db ≡ (ok tt, db'))
        × IsWritten canonical_sha256 none specs now db db'
  unfolding enqueue_each insert_job wakeup
  each-IsWritten [] db = (
    db,
    refl,
    record {
      jobs = [];
      events = [];
      entries = [];
      jobs_added = append_nil db.jobs;
      queued = tt;
      events_added = append_nil db.outbox;
      woken = tt;
      entries_added = append_nil db.audits;
      audited = refl;
      others = (refl, refl, refl);
    },
  )
  each-IsWritten (spec ∷ rest) db =
      let job : Job = new_job (job_request spec) db.next_id now in
      let event : OutboxEvent = wakeup "job.queued" job (db.next_id + 1) now in
      let (db', e, w) = each-IsWritten rest (insert_job (job_request spec) now db).1 in
      (
        db',
        bind_ok (λ x. x ≡ (ok tt, db')) _ (λ _. enqueue_each rest now) db job
            (insert_job (job_request spec) now db).1 (enqueued_first spec now db) e,
        record {
          jobs = job ∷ w.jobs;
          events = event ∷ w.events;
          entries = w.entries;
          jobs_added = w.jobs_added ∙ append_snoc db.jobs job w.jobs;
          queued = (queued_first spec now db.next_id, w.queued);
          events_added = w.events_added ∙ append_snoc db.outbox event w.events;
          woken = ((refl, refl, refl), w.woken);
          entries_added = w.entries_added;
          audited = w.audited;
          others = w.others;
        },
      )

  -- the audit entry before the jobs
  audited-IsWritten :
      (audit : Option AuditSpec) (specs : List JobSpec) (db : Db)
      → (db' : Db) × ((add_audit canonical_sha256 audit now >> enqueue_each specs now) db
          ≡ (ok tt, db'))
        × IsWritten canonical_sha256 audit specs now db db'
  unfolding add_audit audit_event ◌>>=◌
  audited-IsWritten none specs db = each-IsWritten specs db
  audited-IsWritten (some spec) specs db =
      let entry : AuditEvent = audit_event canonical_sha256 spec db.next_id now in
      let (db', e, w) = each-IsWritten specs (add_audit canonical_sha256 (some spec) now db).1 in
      (
        db',
        e,
        record {
          jobs = w.jobs;
          events = w.events;
          entries = entry ∷ [];
          jobs_added = w.jobs_added;
          queued = w.queued;
          events_added = w.events_added;
          woken = w.woken;
          entries_added =
              w.entries_added
              ∙ ap (λ es. (db.audits ++ entry ∷ []) ++ es) w.audited
              ∙ sym (append_nil (db.audits ++ entry ∷ []));
          audited = (
            entry,
            refl,
            record {
              tenant = refl;
              project = refl;
              actor = refl;
              action = refl;
              resource = (refl, refl, refl);
              causes = (refl, refl);
              states = (refl, refl);
              digest = refl;
              created = refl;
            },
          );
          others = w.others;
        },
      )

  returns :
      {A : Type 0} (audit : Option AuditSpec) (specs : List JobSpec) (u db' : Db) (a : A)
      → (add_audit canonical_sha256 audit now >> enqueue_each specs now) u ≡ (ok tt, db')
      → (add_audit canonical_sha256 audit now >> (enqueue_each specs now >> pure a)) u ≡ (ok a, db')
  unfolding add_audit ◌>>=◌
  returns none specs u db' a f =
      bind_ok (λ x. x ≡ (ok a, db')) (enqueue_each specs now) (λ _. pure a) u tt db' f refl
  returns (some spec) specs u db' a f =
      bind_ok (λ x. x ≡ (ok a, db')) (enqueue_each specs now) (λ _. pure a)
        (add_audit canonical_sha256 (some spec) now u).1 tt db' f refl

  -- the body after its operation
  pub body-IsWritten :
      {A : Type 0} (operation : Exec Db A) (audit : Option AuditSpec) (specs : List JobSpec)
      (db u : Db) (a : A)
      → operation db ≡ (ok a, u)
      → (db' : Db) × (command_body canonical_sha256 operation audit specs now db ≡ (ok a, db'))
        × IsWritten canonical_sha256 audit specs now u db'
  unfolding command_body
  body-IsWritten operation audit specs db u a e =
      let (db', f, w) = audited-IsWritten audit specs u in
      (db', bind_ok (λ x. x ≡ (ok a, db')) operation _ db a u e (returns audit specs u db' a f), w)

  pub body_raises :
      {A : Type 0} (operation : Exec Db A) (audit : Option AuditSpec) (specs : List JobSpec)
      (db u : Db) (e : Error)
      → operation db ≡ (err e, u)
      → command_body canonical_sha256 operation audit specs now db ≡ (err e, u)
  unfolding command_body
  body_raises operation audit specs db u e h =
      bind_err (λ x. x ≡ (err e, u)) operation _ db e u h refl
