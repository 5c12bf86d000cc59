-- ===== src/Workers/Commands/Atomic.antt =====
-- A command's operation, audit entry and jobs are committed together or not at all, and an event is
-- consumed once.
use scope_guard.Base.{
  ℕ, ◌≡◌, refl, ap, sym, ◌⊎◌, subst, inl, inr, true, String, Option, none, some, List, [],
  Option-cases, arith, Error, Result, ok, err, Exec, ◌>>=◌, Session, rollback, within, Json,
  find?-last, eq_iff,
}
use scope_guard.Workers.Tables.{Db, ConsumerReceipt}
use scope_guard.Workers.Locks.{acquire_all}
use scope_guard.Workers.Commands.Written.{IsWritten, body-IsWritten, body_raises}
use scope_guard.Workers.Commands.{
  AuditSpec, JobSpec, undo, command_body, command_try, locked_command, commit_durable_command,
  receipt_of, execute_consumer_once, handle_event, stored_result, reveal, recover_integrity,
  keep_result, read_again, record_consumer_receipt, record_if_new, insert_receipt, is_receipt,
}

-- how the block ends, by the outcomes of the lock and of the body
abbrev Ended :
    {A : Type 0} → Result (Unit {0}) → Result A × Db → Session Db → Result A × Session Db → Type 0
Ended (ok _) (ok a, t) s r = r ≡ (ok a, record { now = t; saved = t })
Ended (ok _) (err e, t) s r = r ≡ (err e, record { now = s.saved; saved = s.saved })
Ended (err e) body s r = r ≡ (err e, s)

-- the block of `command_try` after its body's outcome
finish_block :
    {A : Type 0} (s : Session Db) (b : Result A × Db)
    → Ended (ok tt) b s (
        undo (elim b.0 [
          | ok a ↦ (ok a, record { now = b.1; saved = b.1 })
          | err e ↦ (err e, record { now = b.1; saved = s.saved })
        ]))
unfolding undo
finish_block s (ok a, t) = refl
finish_block s (err e, t) = refl

locked-Ended :
    (canonical_sha256 : Json → ℕ) {A : Type 0} (operation : Exec Db A) (audit : Option AuditSpec)
    (jobs : List JobSpec) (lock : Result (Unit {0})) (now : ℕ) (s : Session Db)
    → Ended lock
        (command_body canonical_sha256 operation audit jobs now s.now)
        s
        (locked_command canonical_sha256 operation audit jobs lock now s)
unfolding locked_command command_try ◌>>=◌
locked-Ended h operation audit jobs (ok u) now s =
    finish_block s (command_body h operation audit jobs now s.now)
locked-Ended h operation audit jobs (err e) now s = refl

module _ (canonical_sha256 : Json → ℕ) {A : Type 0} (operation : Exec Db A)
    (audit : Option AuditSpec) (jobs : List JobSpec) (now : ℕ) where
  -- What a command leaves. On return, the operation returned the result, and its state with the audit
  -- entry and the jobs is the transaction's and is committed. On a raise, either the lock order was
  -- refused and nothing happened, or the operation raised and the committed state is the transaction's.
  abbrev pub IsAtomic : Result (Unit {0}) → Session Db → Result A × Session Db → Type 0
  IsAtomic lock s (ok a, t) =
      (lock ≡ ok tt)
      × (t.now ≡ t.saved)
      × ((u : Db) × (operation s.now ≡ (ok a, u))
          × IsWritten canonical_sha256 audit jobs now u t.saved)
  IsAtomic lock s (err e, t) =
      ((lock ≡ err e) × (t ≡ s))
      ⊎ ((lock ≡ ok tt)
          × (t ≡ record { now = s.saved; saved = s.saved })
          × ((u : Db) × (operation s.now ≡ (err e, u))))

  body-IsAtomic :
      (s : Session Db) (r : Result A × Db)
      → operation s.now ≡ r
      → IsAtomic (ok tt) s (locked_command canonical_sha256 operation audit jobs (ok tt) now s)
  body-IsAtomic s (ok a, u) e =
      let (t, f, w) = body-IsWritten canonical_sha256 now operation audit jobs s.now u a e in
      let x = locked_command canonical_sha256 operation audit jobs (ok tt) now s in
      let ended = locked-Ended canonical_sha256 operation audit jobs (ok tt) now s in
      let same : Ended (ok tt) (ok a, t) s x =
        subst (λ (b : Result A × Db). Ended (ok tt) b s x) f ended in
      subst (IsAtomic (ok tt) s) (sym same) (refl, refl, (u, e, w))
  body-IsAtomic s (err n, u) e =
      let f = body_raises canonical_sha256 now operation audit jobs s.now u n e in
      let x = locked_command canonical_sha256 operation audit jobs (ok tt) now s in
      let ended = locked-Ended canonical_sha256 operation audit jobs (ok tt) now s in
      let same : Ended (ok tt) (err n, u) s x =
        subst (λ (b : Result A × Db). Ended (ok tt) b s x) f ended in
      subst (IsAtomic (ok tt) s) (sym same) (inr (refl, refl, (u, e)))

  by_lock :
      (lock : Result (Unit {0})) (s : Session Db)
      → IsAtomic lock s (locked_command canonical_sha256 operation audit jobs lock now s)
  by_lock (ok tt) s = body-IsAtomic s (operation s.now) refl
  by_lock (err e) s =
      subst (IsAtomic (err e) s)
        (sym (locked-Ended canonical_sha256 operation audit jobs (err e) now s)) (inl (refl, refl))

-- When `commit_durable_command` returns, the operation returned that result, and the transaction's state and
-- the committed one are both the operation's with exactly these rows added: one queued job for each
-- specification, with its outbox event, and the audit entry if one is asked for. When it raises,
-- either the order of the locks was refused, and nothing has changed, or the operation raised that
-- exception, and both states are the one that was committed before.
pub command-IsAtomic :
    (canonical_sha256 : Json → ℕ) {A : Type 0} (operation : Exec Db A) (audit : Option AuditSpec)
    (jobs : List JobSpec) (locks : List String) (now : ℕ) (s : Session Db)
    → IsAtomic canonical_sha256 operation audit jobs now
        (acquire_all locks []).0
        s
        (commit_durable_command canonical_sha256 operation audit jobs locks now s)
unfolding commit_durable_command
command-IsAtomic h operation audit jobs locks now s =
    by_lock h operation audit jobs now (acquire_all locks []).0 s

abbrev result_of : Option ConsumerReceipt → Option Json
result_of none = none
result_of (some r) = some r.result_ref

module _ (consumer : String) (event : ℕ) where
  -- What the block returned is the result of the receipt that its state holds.
  abbrev Recorded : Result Json × Session Db → Type 0
  Recorded (ok r, t) = result_of (receipt_of consumer event t.now) ≡ some r
  Recorded (err e, t) = Unit

  stored-Recorded :
      (t : Session Db) (e : Error) → Recorded (stored_result (receipt_of consumer event t.now) e t)
  unfolding stored_result
  stored-Recorded t e = elim (Option-cases (receipt_of consumer event t.now)) [
    | inl n ↦ rw n tt
    | inr (r, h) ↦ rw h (ap result_of h)
  ]

  recovered-Recorded :
      (rival : Option ConsumerReceipt) (x : Result Json × Session Db)
      → Recorded x
      → Recorded (recover_integrity rival consumer event x)
  unfolding recover_integrity
  recovered-Recorded rival (ok r, t) h = h
  recovered-Recorded rival (err Error.integrity, t) h =
      stored-Recorded (reveal rival t) Error.integrity
  recovered-Recorded rival (err _, t) h = tt

  bind-Recorded :
      {A : Type 0} (x : Result A × Session Db) (k : A → Exec (Session Db) Json)
      → ((a : A) (t : Session Db) → x ≡ (ok a, t) → Recorded (k a t))
      → Recorded (elim x.0 [ ok a ↦ k a x.1 | err e ↦ (err e, x.1) ])
  bind-Recorded (ok a, t) k h = h a t refl
  bind-Recorded (err e, t) k h = tt

  read_again-Recorded :
      (rival : Option ConsumerReceipt) (e : Error) (s : Session Db)
      → Recorded (read_again rival consumer event e s)
  unfolding read_again
  read_again-Recorded rival e s = stored-Recorded (rollback s).1 e

  own_receipt :
      (r : Json) (now : ℕ)
      → is_receipt consumer event
          (record { consumer_name = consumer; event_id = event; result_ref = r; received_at = now })
        ≡ true
  unfolding is_receipt
  own_receipt r now = ground (arith, (eq_iff consumer consumer).1 refl)

  kept-Recorded :
      (rival : Option ConsumerReceipt) (r : Json) (now : ℕ) (s : Session Db)
      (o : Option ConsumerReceipt)
      → receipt_of consumer event s.now ≡ o
      → Recorded (
          (record_if_new o rival consumer event r now >>= λ stored.
          keep_result rival consumer event r stored)
            s)
  unfolding ◌>>=◌ record_if_new insert_receipt keep_result receipt_of
  kept-Recorded rival r now s (some old) h = read_again-Recorded rival Error.runtime_error s
  kept-Recorded (some x) r now s none h =
      read_again-Recorded (some x) Error.runtime_error (reveal (some x) s)
  kept-Recorded none r now s none h = ap result_of (
      find?-last (is_receipt consumer event) s.now.receipts
        (record { consumer_name = consumer; event_id = event; result_ref = r; received_at = now }) h
        (own_receipt r now))

  handled-Recorded :
      (rival : Option ConsumerReceipt) (operation : Exec Db Json) (now : ℕ) (s : Session Db)
      (o : Option ConsumerReceipt)
      → receipt_of consumer event s.now ≡ o
      → Recorded (handle_event rival consumer event operation now o s)
  unfolding handle_event record_consumer_receipt ◌>>=◌
  handled-Recorded rival operation now s (some r) h = ap result_of h
  handled-Recorded rival operation now s none h = recovered-Recorded rival _ (
      bind-Recorded (within operation s)
        (λ r. record_consumer_receipt rival consumer event r now >>= λ stored.
          keep_result rival consumer event r stored)
        (λ r t _. kept-Recorded rival r now t (receipt_of consumer event t.now) refl))

  again :
      (rival : Option ConsumerReceipt) (operation : Exec Db Json) (now : ℕ) (t : Session Db)
      (r : Json)
      → Recorded (ok r, t)
      → (o : Option ConsumerReceipt) → receipt_of consumer event t.now ≡ o
      → handle_event rival consumer event operation now o t ≡ (ok r, t)
  unfolding handle_event
  again rival operation now t r h none n = absurd cc
  again rival operation now t r h (some x) n = let q : x.result_ref ≡ r = cc in rw q refl

-- Once an event has been consumed with a result, on whichever branch, delivering it again to the same
-- consumer returns that result and changes nothing, whatever the operation would do, and whatever
-- other transaction raced with either delivery.
pub consumed_once :
    (rival rival' : Option ConsumerReceipt) (consumer : String) (event : ℕ)
    (operation operation' : Exec Db Json) (now now' : ℕ) (s t : Session Db) (r : Json)
    → execute_consumer_once rival consumer event operation now s ≡ (ok r, t)
    → execute_consumer_once rival' consumer event operation' now' t ≡ (ok r, t)
unfolding execute_consumer_once
consumed_once rival rival' consumer event operation operation' now now' s t r h =
    again consumer event rival' operation' now' t r
      (subst (Recorded consumer event) h (
        handled-Recorded consumer event rival operation now s (receipt_of consumer event s.now)
          refl))
      (receipt_of consumer event t.now) refl
