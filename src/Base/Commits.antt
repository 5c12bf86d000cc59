-- ===== src/Base/Commits.antt =====
-- A SQLAlchemy session over a database: the state that the transaction sees, and the state that was
-- committed last. `commit` publishes, `rollback` (and a crash) returns to what was committed.
use scope_guard.Base.Effects.{Exec, ok}

pub record Session (S : Type 0) : Type 0 where
  pub now : S
  pub saved : S

module _ {S : Type 0} where
  abbrev pub commit : Exec (Session S) (Unit {0})
  commit s = (ok tt, record { now = s.now; saved = s.now })

  abbrev pub rollback : Exec (Session S) (Unit {0})
  rollback s = (ok tt, record { now = s.saved; saved = s.saved })

  -- code that works within the transaction
  abbrev pub within : {A : Type 0} → Exec S A → Exec (Session S) A
  within m s = let (r, t) = m s.now in (r, record { now = t; saved = s.saved })

  abbrev pub begin : S → Session S
  begin s = record { now = s; saved = s }
