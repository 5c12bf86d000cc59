-- ===== src/Domain/Money.antt =====
-- services/domain/money.py: money in integer paise, and effort in exact decimal hours.
use scope_guard.Base.{
  ℕ, ◌*◌, ◌^◌, max, String, Bool, not, ◌&&◌, ◌||◌, ltb, leb, ◌==◌, str_eq, Error, Result, ok, err,
  check, if◌then◌else◌, Option, none, some,
}
use scope_guard.Domain.Decimals.{significant, ceil_quotient}

abbrev pub max_change_minor : ℕ
max_change_minor = 100000000

-- A finite non-negative decimal: a coefficient over a power of ten. What `Decimal(value)` makes of a
-- text is the standard library's; a text that it rejects, an infinity, a NaN and a negative number are none.
pub record Hours : Type 0 where
  pub coefficient : ℕ
  pub places : ℕ

unfoldable pub scale : Hours → ℕ
scale h = 10 ^ h.places

unfoldable pub hours_le : Hours → Hours → Bool
hours_le a b = leb (a.coefficient * scale b) (b.coefficient * scale a)

-- `parse_hours`: positive, and at most 1000
unfoldable pub parse_hours : Option Hours → Result Hours
parse_hours none = err Error.validation
parse_hours (some h) =
    if ltb 0 h.coefficient && leb h.coefficient (1000 * scale h) then ok h else err Error.validation

-- `high > low * 2`, where the product is rounded by the context
unfoldable pub is_wide : Hours → Hours → Bool
is_wide low high =
    not (leb (high.coefficient * scale low) (significant (2 * low.coefficient) * scale high))

unfoldable pub in_order : Hours → Hours → Hours → Result (Hours × Hours × Hours)
in_order low recommended high =
    if hours_le low recommended && hours_le recommended high
    then (if is_wide low high then err Error.validation else ok (low, recommended, high))
    else err Error.validation

unfoldable pub validate_effort_range :
    Option Hours → Option Hours → Option Hours → Result (Hours × Hours × Hours)
validate_effort_range low recommended high = elim (parse_hours low) [
  | err e ↦ err e
  | ok l ↦ elim (parse_hours recommended) [
    | err e ↦ err e
    | ok r ↦ elim (parse_hours high) [ err e ↦ err e | ok h ↦ in_order l r h ]
  ]
]

-- The price `n / d` in paise, rounded up to whole increments: the quotient by the increment is rounded
-- by the context, and its ceiling is exact.
unfoldable pub round_up : ℕ → ℕ → ℕ → ℕ
round_up n d increment = ceil_quotient n (d * increment) * increment

-- The product of effort and rate is rounded by the context too; the comparison with the minimum is exact.
unfoldable pub recommend : Hours → ℕ → ℕ → ℕ → Result ℕ
recommend h rate minimum increment =
    if rate == 0 || (minimum == 0 || increment == 0)
    then err Error.validation
    else (let result =
          round_up (max (significant (h.coefficient * rate)) (minimum * scale h)) (scale h)
            increment in
        if ltb max_change_minor result then err Error.validation else ok result)

unfoldable pub recommend_total_minor : Option Hours → ℕ → ℕ → ℕ → Result ℕ
recommend_total_minor hours rate minimum increment = elim (parse_hours hours) [
  | err e ↦ err e
  | ok h ↦ recommend h rate minimum increment
]

-- `validate_money`; the amounts are integers, and a negative one is out of range like a large one
unfoldable pub validate_money : ℕ → ℕ → String → Bool → Result (Unit {0})
validate_money total_minor tax_minor currency allow_zero =
    check
      (not (str_eq currency "INR")
        || (ltb max_change_minor total_minor
            || (not allow_zero && total_minor == 0 || ltb total_minor tax_minor)))
      Error.validation
