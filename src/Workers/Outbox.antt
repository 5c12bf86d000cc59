-- ===== src/Workers/Outbox.antt =====
-- services/workers/durable.py, `publish_outbox`: each pending event is attempted once, and every
-- attempt and its result are committed around the call of the publisher, so that no transaction
-- spans the network.
pub mod AtLeastOnce
use scope_guard.Base.{
  ℕ, ◌+◌, String, Bool, true, false, not, ◌&&◌, ◌||◌, Option, none, some, List, [], ◌∷◌, ltb, ◌==◌,
  is_none, if◌then◌else◌, filter, sort_by, take, put, Error, Result, ok, err, Exec, pure, raise_if,
  gets, ◌>>=◌, ◌>>◌, Session, commit, within,
}
use scope_guard.Workers.Faults.{CrashPoint, CrashInjector, trip}
use scope_guard.Workers.Tables.{OutboxEvent, Db, outbox_id}

-- The publisher: the class name of what it raised for the event at that attempt, or none.
abbrev pub Publisher : Type 0
Publisher = ℕ → ℕ → Option String

-- `ORDER BY created_at, id`
unfoldable pub publish_order : OutboxEvent → OutboxEvent → Bool
publish_order a b = ltb a.created_at b.created_at || a.created_at == b.created_at && ltb a.id b.id

unfoldable pub pending : (OutboxEvent → Bool) → ℕ → List OutboxEvent → List OutboxEvent
pending locked limit events =
    take limit
      (sort_by publish_order (filter (λ e. is_none e.published_at && not (locked e)) events))

abbrev pub Events : Type 0
Events = Session Db

unfoldable pub save_event : OutboxEvent → Exec Events (Unit {0})
save_event e s = (ok tt, record s { now = record (s.now) { outbox = put e s.now.outbox } })

unfoldable pub attempted : OutboxEvent → OutboxEvent
attempted e = record e { publish_attempts = e.publish_attempts + 1 }

-- The `try`: a crash injected there is caught like any exception of the publisher.
unfoldable pub outcome : CrashInjector → Publisher → OutboxEvent → Option String
outcome injector publish e =
    if injector CrashPoint.outbox_publishing
    then some "InjectedCrash"
    else publish e.id e.publish_attempts

unfoldable pub rejected : OutboxEvent → String → OutboxEvent
rejected e error = record e { last_error = some error }

unfoldable pub published : OutboxEvent → ℕ → OutboxEvent
published e current = record e { published_at = some current; last_error = none }

-- the `except` and the `else` branch
unfoldable pub settle : CrashInjector → ℕ → OutboxEvent → Option String → Exec Events Bool
settle injector current e (some error) = do save_event (rejected e error); commit; pure false
settle injector current e none = do
  trip injector CrashPoint.outbox_result_save
  save_event (published e current)
  commit
  pure true

unfoldable pub publish_one : CrashInjector → Publisher → ℕ → OutboxEvent → Exec Events Bool
publish_one injector publish current event = do
  let e = attempted event
  save_event e
  commit
  trip injector CrashPoint.outbox_attempt_committed
  settle injector current e (outcome injector publish e)

-- the counters `published` and `failed`
unfoldable pub tally : Bool → ℕ × ℕ → ℕ × ℕ
tally true (p, f) = (p + 1, f)
tally false (p, f) = (p, f + 1)

unfoldable pub publish_each :
    CrashInjector → Publisher → ℕ → List OutboxEvent → ℕ × ℕ → Exec Events (ℕ × ℕ)
publish_each injector publish current [] counts = pure counts
publish_each injector publish current (e ∷ rest) counts =
    publish_one injector publish current e >>= λ done.
    publish_each injector publish current rest (tally done counts)

unfoldable pub publish_outbox :
    CrashInjector → Publisher → (OutboxEvent → Bool) → ℕ → ℕ → Exec Events (ℕ × ℕ)
publish_outbox injector publish locked limit current = do
  raise_if (ltb limit 1) Error.durable
  entries ← gets (λ s. pending locked limit s.now.outbox)
  publish_each injector publish current entries (0, 0)
