-- ===== src/Domain/Decimals.antt =====
-- The arithmetic of `decimal` in its default context, on natural numbers: results are rounded to 28
-- significant digits, half to even.
use scope_guard.Base.{
  ℕ, zero, suc, ◌+◌, ◌*◌, ◌-◌, ◌/◌, ◌%◌, ◌^◌, true, false, ltb, ◌==◌, if◌then◌else◌,
}

abbrev pub precision : ℕ
precision = 28

-- the quotient `q` with the rest `r` by `b`, rounded half to even
unfoldable pub half : ℕ → ℕ → ℕ → ℕ
half q r b = if ltb (2 * r) b then q else if ltb b (2 * r) then q + 1 else q + q % 2

unfoldable pub half_even : ℕ → ℕ → ℕ
half_even a b = half (a / b) (a % b) b

-- the number of decimal digits; a number has at most as many as it counts, so that is enough fuel
unfoldable pub digits_in : ℕ → ℕ → ℕ
digits_in zero n = 0
digits_in (suc fuel) n = elim (n == 0) [ true ↦ 0 | false ↦ 1 + digits_in fuel (n / 10) ]

unfoldable pub digits : ℕ → ℕ
digits n = digits_in n n

-- an integer coefficient, rounded to the precision
unfoldable pub significant : ℕ → ℕ
significant n = half_even n (10 ^ (digits n - precision)) * 10 ^ (digits n - precision)

-- The ceiling of `half_even (n * t) (m * u) * u / t`: of `n / m` rounded to the last place that `t` over
-- `u` keeps.
unfoldable pub ceil_at : ℕ → ℕ → ℕ → ℕ → ℕ
ceil_at n m t u = (half_even (n * t) (m * u) * u + (t - 1)) / t

-- The ceiling of the quotient `n / m` as the context rounds it. A quotient below one stays above zero
-- and at most one.
unfoldable pub ceil_quotient : ℕ → ℕ → ℕ
ceil_quotient n m =
    if n / m == 0
    then (if n == 0 then 0 else 1)
    else ceil_at n m (10 ^ (precision - digits (n / m))) (10 ^ (digits (n / m) - precision))
