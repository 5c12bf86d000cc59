-- ===== src/Domain/Tests.antt =====
-- A recommendation at concrete terms, and working days over a holiday and a weekend.
use scope_guard.Base.{
  arith, ℕ, ◌≡◌, ◌≤◌, ◌<◌, ◌*◌, ◌+◌, ◌-◌, ◌/◌, ◌%◌, ◌⊎◌, refl, some, ok, err, Error, true, [], ◌∷◌,
  any,
}
use scope_guard.Domain.Decimals.{
  significant, half_even, half, digits, digits_in, ceil_quotient, ceil_at,
}
use scope_guard.Domain.Money.{Hours, scale, parse_hours, round_up, recommend, recommend_total_minor}
use scope_guard.Domain.Calendar.{
  pos, negsuc, Zones, CalendarRules, max_date, due_local_time, weekday, is_working_day, advance,
  on_date, add_working_days, due_at,
}
use scope_guard.Domain.WorkingDays.{working_days, IsNthDay, add_working_days-IsNthDay}
use scope_guard.Domain.Prices.{IsPrice, recommended-IsPrice}

-- 2.5 hours
abbrev effort : Hours
effort = record { coefficient = 25; places = 1 }

recommends : recommend_total_minor (some effort) 1501 1000 100 ≡ ok 3800
unfolding recommend_total_minor parse_hours recommend round_up scale significant half_even half
    digits digits_in ceil_quotient ceil_at
recommends = refl

-- an effort of 29 digits, whose last one the decimal context drops
abbrev long_effort : Hours
long_effort = record { coefficient = 10000000000000000000000000001; places = 28 }

drops_digits : recommend_total_minor (some long_effort) 100 1 1 ≡ ok 100
unfolding recommend_total_minor parse_hours recommend round_up scale significant half_even half
    digits digits_in ceil_quotient ceil_at
drops_digits = refl

recommended-IsPrice_example :
    IsPrice effort 1501 1000 100 3800 × (1 ≤ 25) × (25 ≤ 1000 * scale effort)
unfolding scale
recommended-IsPrice_example =
    recommended-IsPrice effort 1501 1000 100 3800 (omega arith) (omega arith) recommends

abbrev day : ℕ
day = 86400 * 1000000

-- 1 January 1970, a Thursday
abbrev epoch : ℕ
epoch = 719163

abbrev utc : Zones
utc = record {
  is_known = λ z. true;
  local_date = λ z t. epoch + t / day;
  local_time = λ z t. t % day;
  combine = λ z d t. (d - epoch) * day + t;
}

-- Monday to Friday, without 2 January 1970
abbrev five_days : CalendarRules
five_days = record {
  timezone_name = "UTC";
  weekdays = 0 ∷ 1 ∷ 2 ∷ 3 ∷ 4 ∷ [];
  holiday_dates = 719164 ∷ [];
}

-- the second working day after the Thursday is the Tuesday
skips : add_working_days utc (some 0) (pos 2) five_days ≡ ok (5 * day)
unfolding add_working_days advance on_date is_working_day weekday any
skips = refl

adds_nothing : add_working_days utc (some 7) (pos 0) five_days ≡ ok 7
unfolding add_working_days
adds_nothing = refl

refuses_past : add_working_days utc (some 7) (negsuc 0) five_days ≡ err Error.validation
unfolding add_working_days
refuses_past = refl

falls_due : due_at utc (some 7) "UTC" ≡ ok (7 * day + due_local_time)
unfolding due_at
falls_due = refl

add_working_days-IsNthDay_example :
    ((date : ℕ) × (add_working_days utc (some 0) (pos 2) five_days ≡ ok (utc.combine "UTC" date 0))
      × IsNthDay five_days (max_date - epoch) epoch 2 date)
    ⊎ ((add_working_days utc (some 0) (pos 2) five_days ≡ err Error.overflow_error)
        × (working_days five_days epoch (max_date - epoch) < 2))
add_working_days-IsNthDay_example = add_working_days-IsNthDay utc five_days 0 1 refl
