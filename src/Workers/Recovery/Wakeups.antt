-- ===== src/Workers/Recovery/Wakeups.antt =====
-- No job that can be claimed stays without a wake-up.
use scope_guard.Base.{
  ℕ, ◌≡◌, refl, ◌∙◌, ap, subst, inl, inr, Bool, true, ◌&&◌, List, [], ◌∷◌, ◌++◌, arith, ◌==◌,
  str_eq, is_none, Bool-cases, if◌then◌else◌, filter, any, All, ok,
}
use scope_guard.Workers.Tables.{Job, Db}
use scope_guard.Workers.Jobs.{wakeup}
use scope_guard.Workers.Recovery.{
  is_waiting_since, is_about, is_recent, has_wakeup, add_wakeup, wake_one, wake_each,
  discover_lost_wakeups,
}

any-last :
    {A : Type 0} (f : A → Bool) (xs : List A) (a : A) → f a ≡ true → any f (xs ++ a ∷ []) ≡ true
unfolding any
any-last f [] a h = ground (arith, h)
any-last f (x ∷ xs) a h = ground (arith, any-last f xs a h)

any-more :
    {A : Type 0} (f : A → Bool) (xs : List A) (a : A)
    → any f xs ≡ true
    → any f (xs ++ a ∷ []) ≡ true
unfolding any
any-more f [] a h = absurd cc
any-more f (x ∷ xs) a h = ground (arith, h, any-more f xs a)

-- the new event is a pending one of its job
added_wakeup :
    (now : ℕ) (job : Job) (db : Db) → has_wakeup now (add_wakeup now job db).1.outbox job ≡ true
unfolding has_wakeup add_wakeup is_about wakeup
added_wakeup now job db = ground (
  arith,
  any-last
      (λ e. (str_eq e.aggregate_type "job" && e.aggregate_id == job.id) && is_none e.published_at)
      db.outbox (wakeup "job.recovery_wakeup" job db.next_id now) (ground arith),
)

kept_wakeup :
    (now : ℕ) (job other : Job) (db : Db)
    → has_wakeup now db.outbox other ≡ true
    → has_wakeup now (add_wakeup now job db).1.outbox other ≡ true
unfolding has_wakeup add_wakeup
kept_wakeup now job other db h = ground (
  arith,
  h,
  any-more (λ e. is_about other e && is_none e.published_at) db.outbox
      (wakeup "job.recovery_wakeup" job db.next_id now),
  any-more (λ e. is_about other e && is_recent now e) db.outbox
      (wakeup "job.recovery_wakeup" job db.next_id now),
)

module _ (now : ℕ) where
  wake_one_keeps :
      (job other : Job) (x : ℕ × Db)
      → has_wakeup now x.1.outbox other ≡ true
      → has_wakeup now (wake_one now job x).1.outbox other ≡ true
  unfolding wake_one
  wake_one_keeps job other (n, db) h = elim (Bool-cases (has_wakeup now db.outbox job)) [
    | inl awake ↦ rw awake h
    | inr lost ↦ rw lost (kept_wakeup now job other db h)
  ]

  wake_one_adds : (job : Job) (x : ℕ × Db) → has_wakeup now (wake_one now job x).1.outbox job ≡ true
  unfolding wake_one
  wake_one_adds job (n, db) = elim (Bool-cases (has_wakeup now db.outbox job)) [
    | inl awake ↦ rw awake awake
    | inr lost ↦ rw lost (added_wakeup now job db)
  ]

  wake_each_keeps :
      (jobs : List Job) (other : Job) (x : ℕ × Db)
      → has_wakeup now x.1.outbox other ≡ true
      → has_wakeup now (wake_each now jobs x).1.outbox other ≡ true
  unfolding wake_each
  wake_each_keeps [] other x h = h
  wake_each_keeps (job ∷ rest) other x h =
      wake_each_keeps rest other (wake_one now job x) (wake_one_keeps job other x h)

  wake_each-All :
      (jobs : List Job) (x : ℕ × Db)
      → All (λ job. has_wakeup now (wake_each now jobs x).1.outbox job ≡ true) jobs
  unfolding wake_each
  wake_each-All [] x = tt
  wake_each-All (job ∷ rest) x = (
    wake_each_keeps rest job (wake_one now job x) (wake_one_adds job x),
    wake_each-All rest (wake_one now job x),
  )

  -- when every job has a wake-up there is nothing to do
  wake_each_idle :
      (jobs : List Job) (n : ℕ) (db : Db)
      → All (λ job. has_wakeup now db.outbox job ≡ true) jobs
      → wake_each now jobs (n, db) ≡ (n, db)
  unfolding wake_each wake_one
  wake_each_idle [] n db h = refl
  wake_each_idle (job ∷ rest) n db h = rw h.0 (wake_each_idle rest n db h.1)

  wake_one_jobs : (job : Job) (x : ℕ × Db) → (wake_one now job x).1.jobs ≡ x.1.jobs
  unfolding wake_one add_wakeup
  wake_one_jobs job (n, db) = ground arith

  wake_each_jobs : (jobs : List Job) (x : ℕ × Db) → (wake_each now jobs x).1.jobs ≡ x.1.jobs
  unfolding wake_each
  wake_each_jobs [] x = refl
  wake_each_jobs (job ∷ rest) x = wake_each_jobs rest (wake_one now job x) ∙ wake_one_jobs job x

filter-All :
    {A : Type 0} (P : A → Type 0) (f : A → Bool) (xs : List A)
    → All P (filter f xs)
    → All (λ x. f x ≡ true → P x) xs
unfolding filter
filter-All P f [] h = tt
filter-All P f (x ∷ xs) h = elim (Bool-cases (f x)) [
  | inl kept ↦
      let h' : All P (x ∷ filter f xs) =
        subst (λ b. All P (if b then x ∷ filter f xs else filter f xs)) kept h in
      ((λ _. h'.0), filter-All P f xs h'.1)
  | inr dropped ↦
      let h' : All P (filter f xs) =
        subst (λ b. All P (if b then x ∷ filter f xs else filter f xs)) dropped h in
      ((λ y. absurd cc), filter-All P f xs h')
]

-- After `discover_lost_wakeups`, every job that waits and is due has an outbox event that is still to be
-- published or was written in the last minute, no job was changed, and running it once more at the same
-- time adds nothing.
pub no_lost_wakeup :
    (now : ℕ) (db : Db)
    → All
        (λ job.
          is_waiting_since now job ≡ true
          → has_wakeup now (discover_lost_wakeups now db).1.outbox job ≡ true)
        db.jobs
      × ((discover_lost_wakeups now db).1.jobs ≡ db.jobs)
      × (discover_lost_wakeups now (discover_lost_wakeups now db).1
          ≡ (ok 0, (discover_lost_wakeups now db).1))
unfolding discover_lost_wakeups
no_lost_wakeup now db =
    let jobs = filter (is_waiting_since now) db.jobs in
    let x = wake_each now jobs (0, db) in
    let every = wake_each-All now jobs (0, db) in
    let again : wake_each now (filter (is_waiting_since now) x.1.jobs) (0, x.1) ≡ (0, x.1) =
      rw (wake_each_jobs now jobs (0, db)) (wake_each_idle now jobs 0 x.1 every) in
    (
      filter-All (λ job. has_wakeup now x.1.outbox job ≡ true) (is_waiting_since now) db.jobs every,
      wake_each_jobs now jobs (0, db),
      ap (λ (y : ℕ × Db). (ok y.0, y.1)) again,
    )
