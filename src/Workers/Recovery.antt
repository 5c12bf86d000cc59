-- ===== src/Workers/Recovery.antt =====
-- services/workers/recovery.py: the sweep that finds jobs without a wake-up and dispatches without an end.
pub mod Wakeups
use scope_guard.Base.{
  ℕ, ◌+◌, ◌-◌, String, Bool, true, false, not, ◌&&◌, ◌||◌, Option, none, some, List, [], ◌∷◌, ◌++◌,
  ltb, leb, ◌==◌, str_eq, is_none, if◌then◌else◌, filter, any, length, Error, Result, ok, err, Exec,
  pure, gets, ◌>>=◌, ◌>>◌,
}
use scope_guard.Workers.Tables.{Job, OutboxEvent, ActionState, ExternalAction, Db, seconds}
use scope_guard.Workers.Jobs.{is_waiting, wakeup}
use scope_guard.Workers.Actions.{mark_action_unknown}

abbrev pub recovery_stale : ℕ
recovery_stale = seconds 60

unfoldable pub is_waiting_since : ℕ → Job → Bool
is_waiting_since now job = is_waiting job.state && leb job.available_at now

unfoldable pub is_about : Job → OutboxEvent → Bool
is_about job e = str_eq e.aggregate_type "job" && e.aggregate_id == job.id

-- `created_at >= current - 60 seconds`
unfoldable pub is_recent : ℕ → OutboxEvent → Bool
is_recent now e = leb now (e.created_at + recovery_stale)

-- an event of the job that is still to be published, or was written lately
unfoldable pub has_wakeup : ℕ → List OutboxEvent → Job → Bool
has_wakeup now outbox job =
    any (λ e. is_about job e && is_none e.published_at) outbox
    || any (λ e. is_about job e && is_recent now e) outbox

unfoldable pub add_wakeup : ℕ → Job → Exec Db (Unit {0})
add_wakeup now job db = (
  ok tt,
  record db {
    outbox = db.outbox ++ wakeup "job.recovery_wakeup" job db.next_id now ∷ [];
    next_id = db.next_id + 1;
  },
)

-- one job, with the count of the wake-ups that were written
unfoldable pub wake_one : ℕ → Job → ℕ × Db → ℕ × Db
wake_one now job (created, db) =
    if has_wakeup now db.outbox job then (created, db) else (created + 1, (add_wakeup now job db).1)

unfoldable pub wake_each : ℕ → List Job → ℕ × Db → ℕ × Db
wake_each now [] x = x
wake_each now (job ∷ rest) x = wake_each now rest (wake_one now job x)

unfoldable pub discover_lost_wakeups : ℕ → Exec Db ℕ
discover_lost_wakeups now db =
    let (created, db') = wake_each now (filter (is_waiting_since now) db.jobs) (0, db) in
    (ok created, db')

abbrev pub is_dispatching : ActionState → Bool
is_dispatching ActionState.dispatching = true
is_dispatching _ = false

-- `updated_at <= current - 60 seconds`
unfoldable pub is_orphaned : ℕ → ExternalAction → Bool
is_orphaned now a = is_dispatching a.state && leb (a.updated_at + recovery_stale) now

unfoldable pub mark_each : ℕ → List ExternalAction → ℕ → Exec Db ℕ
mark_each now [] n = pure n
mark_each now (a ∷ rest) n =
    mark_action_unknown a.id "dispatch_lease_expired_requires_reconciliation" now >>= λ _.
    mark_each now rest n

unfoldable pub recover_orphaned_actions : ℕ → Exec Db ℕ
recover_orphaned_actions now db =
    let orphans = filter (is_orphaned now) db.actions in mark_each now orphans (length orphans) db
