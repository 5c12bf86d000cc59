-- ===== src/Workers/Faults.antt =====
-- services/workers/faults.py: deterministic crash injection.
use scope_guard.Base.{Bool, false, Exec, Error, raise_if}

pub data CrashPoint : Type 0 where
  transaction_persisted outbox_attempt_committed outbox_publishing outbox_result_save : CrashPoint
  job_claimed action_dispatch_persisted action_provider_succeeded action_result_saved : CrashPoint

-- The points at which an injector crashes. `injector=None` is the injector that never does.
abbrev pub CrashInjector : Type 0
CrashInjector = CrashPoint → Bool

abbrev pub no_injector : CrashInjector
no_injector point = false

-- `CrashInjector.trip`
unfoldable pub trip : {S : Type 0} → CrashInjector → CrashPoint → Exec S (Unit {0})
trip injector point = raise_if (injector point) Error.injected_crash
