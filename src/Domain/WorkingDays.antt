-- ===== src/Domain/WorkingDays.antt =====
-- The working-day loop against counting the working days of the calendar.
use scope_guard.Base.{
  ℕ, zero, suc, ◌+◌, ◌-◌, ◌≤◌, ◌<◌, ◌≡◌, refl, sym, ap, subst, ◌∙◌, ◌⊎◌, leb, inl, inr, true, false,
  Bool-cases, if◌then◌else◌, arith, some, ok, err, Error,
}
use scope_guard.Domain.Calendar.{
  pos, Zones, CalendarRules, max_date, is_working_day, advance, on_date, add_working_days,
}

-- the working days among the `n` days after `current`
unfoldable pub working_days : CalendarRules → ℕ → ℕ → ℕ
working_days rules current zero = 0
working_days rules current (suc n) =
    let rest = working_days rules (suc current) n in
    if is_working_day rules (suc current) then suc rest else rest

-- `date` is the `days`-th working day after `current`, at most `left` days later.
pub record IsNthDay (rules : CalendarRules) (left current days date : ℕ) : Type 0 where
  pub distance : ℕ
  pub within : distance ≤ left
  pub later : date ≡ distance + current
  pub works : is_working_day rules date ≡ true
  pub counted : working_days rules current distance ≡ days

-- one turn of the loop
module _ (rules : CalendarRules) (left current : ℕ) where
  advance_works :
      (days : ℕ)
      → is_working_day rules (suc current) ≡ true
      → advance rules (suc left) current (suc days) ≡ advance rules left (suc current) days
  unfolding advance
  advance_works days works =
      ap (λ b. advance rules left (suc current) (if b then days else suc days)) works

  advance_idle :
      (days : ℕ)
      → is_working_day rules (suc current) ≡ false
      → advance rules (suc left) current (suc days) ≡ advance rules left (suc current) (suc days)
  unfolding advance
  advance_idle days idle =
      ap (λ b. advance rules left (suc current) (if b then days else suc days)) idle

  working_days_works :
      is_working_day rules (suc current) ≡ true
      → working_days rules current (suc left) ≡ suc (working_days rules (suc current) left)
  unfolding working_days
  working_days_works works = rw works refl

  working_days_idle :
      is_working_day rules (suc current) ≡ false
      → working_days rules current (suc left) ≡ working_days rules (suc current) left
  unfolding working_days
  working_days_idle idle = rw idle refl

-- a day that works is the last of those counted to it
first_day :
    (rules : CalendarRules) (left current date : ℕ)
    → is_working_day rules (suc current) ≡ true
    → suc current ≡ date
    → IsNthDay rules (suc left) current 1 date
unfolding working_days
first_day rules left current date works e = record {
  distance = 1;
  within = omega arith;
  later = omega (arith, e);
  works = subst (λ x. is_working_day rules x ≡ true) e works;
  counted = working_days_works rules 0 current works;
}

-- a day that is counted from tomorrow is counted from today
later_day :
    (rules : CalendarRules) (left current days total date : ℕ)
    → ((n : ℕ)
        → working_days rules (suc current) n ≡ days
        → working_days rules current (suc n) ≡ total)
    → IsNthDay rules left (suc current) days date
    → IsNthDay rules (suc left) current total date
later_day rules left current days total date turn day = record {
  distance = suc day.distance;
  within = omega (arith, day.within);
  later = omega (arith, day.later);
  works = day.works;
  counted = turn day.distance day.counted;
}

-- the loop after a day that works, when what is left of it counts
counts_on :
    (rules : CalendarRules) (left current days date : ℕ)
    → ((m : ℕ)
        → advance rules left (suc current) (suc m) ≡ ok date
        → IsNthDay rules left (suc current) (suc m) date)
    → is_working_day rules (suc current) ≡ true
    → advance rules left (suc current) days ≡ ok date
    → IsNthDay rules (suc left) current (suc days) date
unfolding advance
counts_on rules left current zero date tail works e =
    first_day rules left current date works (ground (arith, e))
counts_on rules left current (suc days) date tail works e =
    later_day rules left current (suc days) (suc (suc days)) date
      (λ n k. working_days_works rules n current works ∙ ap suc k) (tail days e)

counts :
    (rules : CalendarRules) (left current days date : ℕ)
    → advance rules left current (suc days) ≡ ok date
    → IsNthDay rules left current (suc days) date
unfolding advance
counts rules zero current days date e = absurd (ground (arith, e))
counts rules (suc left) current days date e =
    elim (Bool-cases (is_working_day rules (suc current))) [
      | inl works ↦
          counts_on rules left current days date (λ m k. counts rules left (suc current) m date k)
            works (sym (advance_works rules left current days works) ∙ e)
      | inr idle ↦
          later_day rules left current (suc days) (suc days) date
            (λ n k. working_days_idle rules n current idle ∙ k)
            (counts rules left (suc current) days date
              (sym (advance_idle rules left current days idle) ∙ e))
    ]

reaches :
    (rules : CalendarRules) (left current days : ℕ)
    → days ≤ working_days rules current left
    → (date : ℕ) × (advance rules left current days ≡ ok date)
unfolding advance working_days
reaches rules left current zero h = (current, refl)
reaches rules zero current (suc days) h = absurd (omega (arith, h))
reaches rules (suc left) current (suc days) h =
    elim (Bool-cases (is_working_day rules (suc current))) [
      | inl works ↦
          let k = working_days_works rules left current works in
          let rest = reaches rules left (suc current) days (omega (arith, h, k)) in
          (rest.0, advance_works rules left current days works ∙ rest.1)
      | inr idle ↦
          let k = working_days_idle rules left current idle in
          let rest = reaches rules left (suc current) (suc days) (omega (arith, h, k)) in
          (rest.0, advance_idle rules left current days idle ∙ rest.1)
    ]

overflows :
    (rules : CalendarRules) (left current days : ℕ)
    → working_days rules current left < days
    → advance rules left current days ≡ err Error.overflow_error
unfolding advance working_days
overflows rules left current zero h = absurd (omega (arith, h))
overflows rules zero current (suc days) h = refl
overflows rules (suc left) current (suc days) h =
    elim (Bool-cases (is_working_day rules (suc current))) [
      | inl works ↦
          let k = working_days_works rules left current works in
          advance_works rules left current days works
          ∙ overflows rules left (suc current) days (omega (arith, h, k))
      | inr idle ↦
          let k = working_days_idle rules left current idle in
          advance_idle rules left current days idle
          ∙ overflows rules left (suc current) (suc days) (omega (arith, h, k))
    ]

leb_cases : (a b : ℕ) → (a ≤ b) ⊎ (b < a)
leb_cases a b = elim (Bool-cases (leb a b)) [
  | inl h ↦ inl (ground (arith, h))
  | inr h ↦ inr (ground (arith, h))
]

-- In a time zone that is known, adding one or more working days gives the local time of the start on
-- the date that is exactly that many working days later, itself a working day, or else raises
-- OverflowError, and then the calendar has fewer working days left up to the end of year 9999.
pub add_working_days-IsNthDay :
    (zones : Zones) (rules : CalendarRules) (start n : ℕ)
    → zones.is_known rules.timezone_name ≡ true
    → ((date : ℕ) × (add_working_days zones (some start) (pos (suc n)) rules
          ≡ ok
              (zones.combine rules.timezone_name date (zones.local_time rules.timezone_name start)))
        × IsNthDay rules
            (max_date - zones.local_date rules.timezone_name start)
            (zones.local_date rules.timezone_name start)
            (suc n)
            date)
      ⊎ ((add_working_days zones (some start) (pos (suc n)) rules ≡ err Error.overflow_error)
          × (working_days rules
                (zones.local_date rules.timezone_name start)
                (max_date - zones.local_date rules.timezone_name start)
              < suc n))
unfolding add_working_days on_date
add_working_days-IsNthDay zones rules start n known =
    let zone = rules.timezone_name in
    let current = zones.local_date zone start in
    let left = max_date - current in
    let time = zones.local_time zone start in
    elim (leb_cases (suc n) (working_days rules current left)) [
      | inl enough ↦
          let found = reaches rules left current (suc n) enough in
          inl (
            found.0,
            rw known (ap (on_date zones zone time) found.1),
            counts rules left current n found.0 found.1,
          )
      | inr short ↦ inr (
        rw known (ap (on_date zones zone time) (overflows rules left current (suc n) short)),
        short,
      )
    ]
