-- ===== src/Domain/Calendar.antt =====
-- services/domain/terms.py: due dates and working days. A date is its ordinal (1 is the first day of
-- year 1, a Monday), an instant a number of microseconds.
use scope_guard.Base.{
  ℕ, zero, suc, ◌+◌, ◌-◌, ◌*◌, ◌%◌, String, Bool, not, ◌&&◌, ltb, ◌==◌, if◌then◌else◌, Option, none,
  some, List, any, Error, Result, ok, err,
}

pub data ℤ : Type 0 where
  pos negsuc : ℕ → ℤ

-- The time zone database of `zoneinfo` with the arithmetic of `datetime`: which names it knows, the
-- local date and time of day of an instant, and the instant of a local date and time.
pub record Zones : Type 0 where
  pub is_known : String → Bool
  pub local_date : String → ℕ → ℕ
  pub local_time : String → ℕ → ℕ
  pub combine : String → ℕ → ℕ → ℕ

pub record CalendarRules : Type 0 where
  pub timezone_name : String
  pub weekdays : List ℕ
  pub holiday_dates : List ℕ

-- `date.max`, the 31 December 9999; to count past it raises OverflowError
abbrev pub max_date : ℕ
max_date = 3652059

-- `time(17, 0)`
abbrev pub due_local_time : ℕ
due_local_time = 17 * 3600 * 1000000

-- `date.weekday()`, 0 on a Monday
unfoldable pub weekday : ℕ → ℕ
weekday date = (date + 6) % 7

-- `current.weekday() in rules.weekdays and current not in rules.holiday_dates`
unfoldable pub is_working_day : CalendarRules → ℕ → Bool
is_working_day rules date =
    any (λ d. d == weekday date) rules.weekdays && not (any (λ d. d == date) rules.holiday_dates)

-- The loop of `add_working_days`, with the days that the calendar has left after `current`.
unfoldable pub advance : CalendarRules → ℕ → ℕ → ℕ → Result ℕ
advance rules left current zero = ok current
advance rules zero current (suc remaining) = err Error.overflow_error
advance rules (suc left) current (suc remaining) =
    advance rules left (suc current)
      (if is_working_day rules (suc current) then remaining else suc remaining)

unfoldable pub on_date : Zones → String → ℕ → Result ℕ → Result ℕ
on_date zones zone time (err e) = err e
on_date zones zone time (ok date) = ok (zones.combine zone date time)

-- A start without a time zone is none.
unfoldable pub add_working_days : Zones → Option ℕ → ℤ → CalendarRules → Result ℕ
add_working_days zones none days rules = err Error.validation
add_working_days zones (some started_at) (negsuc _) rules = err Error.validation
add_working_days zones (some started_at) (pos zero) rules = ok started_at
add_working_days zones (some started_at) (pos (suc n)) rules =
    let zone = rules.timezone_name in
    let current = zones.local_date zone started_at in
    if zones.is_known zone
    then on_date zones zone (zones.local_time zone started_at)
        (advance rules (max_date - current) current (suc n))
    else err Error.key_error

unfoldable pub due_at : Zones → Option ℕ → String → Result ℕ
due_at zones none zone = err Error.validation
due_at zones (some client_approved_at) zone =
    let due_date = zones.local_date zone client_approved_at + 7 in
    if not (zones.is_known zone)
    then err Error.validation
    else if ltb max_date due_date
    then err Error.overflow_error
    else ok (zones.combine zone due_date due_local_time)
