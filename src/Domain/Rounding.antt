-- ===== src/Domain/Rounding.antt =====
-- Where the rounding of the decimal context does not show.
use native.Mathlib.Nat.{
  div-add-mod', mod-lt, mul_comm, one-le-pow, div-le_self, le-div_iff_mul-le, div-lt_iff_lt-mul,
  div-eq_of_lt-le, add-mul, mul-le-mul_right, mul_right_comm, pow-suc, pow-le-pow_right,
  mul-div_left, mul-mod_left, mod-one, div-one,
}
use scope_guard.Base.{
  ℕ, zero, suc, ◌+◌, ◌*◌, ◌-◌, ◌/◌, ◌%◌, ◌^◌, ◌≤◌, ◌<◌, ◌≡◌, refl, sym, ap, ◌∙◌, inl, inr, ◌⊎◌,
  ◌==◌, arith, Bool-cases, if◌then◌else◌,
}
use scope_guard.Domain.Decimals.{
  precision, half, half_even, digits_in, digits, significant, ceil_at, ceil_quotient,
}

half-cases : (q r b : ℕ) → 1 ≤ b → (half q r b ≡ q) ⊎ ((1 ≤ r) × (half q r b ≡ q + 1))
unfolding half
half-cases q r b h = ground arith

half_whole : (q b : ℕ) → 1 ≤ b → half q 0 b ≡ q
unfolding half
half_whole q b h = ground arith

-- as many digits as a power of ten needs, whatever the fuel
digits_in-le : (fuel n j : ℕ) → n < 10 ^ j → digits_in fuel n ≤ j
unfolding digits_in
digits_in-le zero n j h = omega arith
digits_in-le (suc fuel) n zero h = elim (Bool-cases (n == 0)) [
  | inl none ↦ rw (digits_in, none) (omega arith)
  | inr some ↦ absurd (ground (arith, some, h))
]
digits_in-le (suc fuel) n (suc j) h = elim (Bool-cases (n == 0)) [
  | inl none ↦ rw (digits_in, none) (omega arith)
  | inr some ↦
      rw (digits_in, some)
        (omega (arith, digits_in-le fuel (n / 10) j (omega (arith, h, pow-suc 10 j))))
]

next_digit : (n j : ℕ) → n / 10 < 10 ^ j → n < 10 ^ (1 + j)
next_digit n j h =
    let one_more : 1 + j ≡ suc j = omega arith in
    let power : 10 ^ (1 + j) ≡ 10 ^ j * 10 = ap (λ x. 10 ^ x) one_more ∙ pow-suc 10 j in
    omega (arith, power, h)

-- enough fuel counts every digit
digits_in-cover : (fuel n : ℕ) → n ≤ fuel → n < 10 ^ digits_in fuel n
unfolding digits_in
digits_in-cover zero n h = omega arith
digits_in-cover (suc fuel) n h = elim (Bool-cases (n == 0)) [
  | inl none ↦ rw (digits_in, none) (ground (arith, none))
  | inr some ↦
      rw (digits_in, some)
        (next_digit n (digits_in fuel (n / 10))
          (digits_in-cover fuel (n / 10) (ground (arith, some, h))))
]

pub digits-cover : (n : ℕ) → n < 10 ^ digits n
unfolding digits
digits-cover n = digits_in-cover n n (omega arith)

pub digits-le : (n j : ℕ) → n < 10 ^ j → digits n ≤ j
unfolding digits
digits-le n j h = digits_in-le n n j h

no_drop : (d : ℕ) → d ≤ precision → 10 ^ (d - precision) ≡ 1
no_drop d h = let none : d - precision ≡ 0 = omega (arith, h) in ap (λ x. 10 ^ x) none

pub significant_exact : (n : ℕ) → n < 10 ^ 28 → significant n ≡ n
unfolding significant half_even
significant_exact n h =
    let few : 10 ^ (digits n - precision) ≡ 1 = no_drop (digits n) (digits-le n 28 h) in
    rw few (rw (mod-one n, div-one n) (omega (arith, half_whole n 1 (omega arith))))

-- a quotient `f` with the rest `r` by `m`, taken to more places by the factor `t`
module _ (n m f r t : ℕ) (whole : n ≡ f * m + r) (less : r < m) (some_places : 1 ≤ t) where
  scaled : n * t ≡ f * t * m + r * t
  scaled = ap (λ x. x * t) whole ∙ add-mul (f * m) r t ∙ ap (λ x. x + r * t) (mul_right_comm f m t)

  rest_below : r * t + t ≤ m * t
  rest_below =
      omega (arith, mul-le-mul_right {m = r + 1} {n = m} t (omega (arith, less)), add-mul r 1 t)

  least : f * t ≤ n * t / m
  least =
      (le-div_iff_mul-le {k = m} {x = f * t} {y = n * t} (omega (arith, less))).1
        (omega (arith, scaled))

  most : n * t / m < f * t + t
  most =
      (div-lt_iff_lt-mul {k = m} {x = n * t} {y = f * t + t} (omega (arith, less))).1
        (omega (arith, scaled, rest_below, some_places, add-mul (f * t) t m, mul_comm t m))

  above : 1 ≤ r → m ≤ t → f * t + 1 ≤ n * t / m
  above h k =
      (le-div_iff_mul-le {k = m} {x = f * t + 1} {y = n * t} (omega (arith, less))).1
        (omega (arith, scaled, k, add-mul (f * t) 1 m, mul-le-mul_right {m = 1} {n = r} t h))

  -- where the rounded quotient lies
  near : (n * t / m ≤ half_even (n * t) m) × (half_even (n * t) m ≤ f * t + t)
  unfolding half_even
  near = elim (half-cases (n * t / m) (n * t % m) m (omega (arith, less))) [
    | inl same ↦ (omega (arith, same), omega (arith, same, most))
    | inr (rest, next) ↦ (omega (arith, next), omega (arith, next, most))
  ]

  exact_quotient : r ≡ 0 → half_even (n * t) m ≡ f * t
  unfolding half_even
  exact_quotient h =
      let even : n * t ≡ f * t * m = scaled ∙ ap (λ x. f * t * m + x * t) h ∙ omega arith in
      rw even (
        rw (mul-mod_left (f * t) m, mul-div_left (f * t) {n = m} (omega (arith, less)))
          (half_whole (f * t) m (omega (arith, less))))

  -- the ceiling of the rounded quotient is that of the exact one
  module _ (u : ℕ) (same_place : u ≡ 1) where
    at_place : ceil_at n m t u ≡ (half_even (n * t) m + (t - 1)) / t
    unfolding ceil_at
    at_place =
        let divisor : m * u ≡ m = ap (λ x. m * x) same_place ∙ omega arith in
        let product : half_even (n * t) m * u ≡ half_even (n * t) m =
          ap (λ x. half_even (n * t) m * x) same_place ∙ omega arith in
        rw divisor (rw product refl)

    reaches : f ≤ ceil_at n m t u
    reaches = rw at_place (
        (le-div_iff_mul-le {k = t} {x = f} {y = half_even (n * t) m + (t - 1)} some_places).1
          (omega (arith, least, near.0)))

    ceil_whole : r ≡ 0 → ceil_at n m t u ≡ f
    ceil_whole h =
        at_place
        ∙ div-eq_of_lt-le {k = f} t {m = half_even (n * t) m + (t - 1)}
            (omega (arith, exact_quotient h))
            (omega (arith, exact_quotient h, some_places, add-mul f 1 t))

    ceil_part : 1 ≤ r → m ≤ t → ceil_at n m t u ≡ f + 1
    ceil_part h k =
        at_place
        ∙ div-eq_of_lt-le {k = f + 1} t {m = half_even (n * t) m + (t - 1)}
            (omega (arith, above h k, near.0, some_places, add-mul f 1 t))
            (omega (arith, near.1, some_places, add-mul f 1 t, add-mul (f + 1) 1 t))

    ceil_at-bounds : m ≤ t → (n ≤ ceil_at n m t u * m) × (ceil_at n m t u * m < n + m)
    ceil_at-bounds k = elim (Bool-cases (r == 0)) [
      | inl none ↦
          let z : r ≡ 0 = ground (arith, none) in
          rw (ceil_whole z) (omega (arith, whole, z, less), omega (arith, whole, z, less))
      | inr some ↦
          let p : 1 ≤ r = ground (arith, some) in
          rw (ceil_part p k)
            (omega (arith, whole, less, add-mul f 1 m), omega (arith, whole, p, add-mul f 1 m))
    ]

divided : (n m : ℕ) → n ≡ n / m * m + n % m
divided n m = sym (div-add-mod' n m)

power_positive : (k : ℕ) → 1 ≤ 10 ^ k
power_positive k = one-le-pow k 10 (omega arith)

-- the rounding never falls under the whole part of the quotient
pub ceil_quotient-reaches : (n m : ℕ) → 1 ≤ m → n < 10 ^ 28 → n / m ≤ ceil_quotient n m
unfolding ceil_quotient
ceil_quotient-reaches n m h k =
    let few : n / m < 10 ^ 28 = omega (arith, k, div-le_self n m) in
    elim (Bool-cases (n / m == 0)) [
      | inl none ↦ let z : n / m ≡ 0 = ground (arith, none) in omega (arith, z)
      | inr some ↦ rw some (
          reaches n m (n / m) (n % m) (10 ^ (precision - digits (n / m))) (divided n m)
            (mod-lt n {m = m} h) (power_positive _) (10 ^ (digits (n / m) - precision))
            (no_drop (digits (n / m)) (digits-le (n / m) 28 few)))
    ]

-- a quotient below one
below :
    (n m : ℕ)
    → 1 ≤ m
    → n / m ≡ 0
    → (n ≤ (if n == 0 then 0 else 1) * m) × ((if n == 0 then 0 else 1) * m < n + m)
below n m h z =
    let less : n < m = omega (arith, divided n m, ap (λ x. x * m) z, mod-lt n {m = m} h) in
    elim (Bool-cases (n == 0)) [
      | inl none ↦ rw none (ground (arith, none), omega (arith, h))
      | inr some ↦ let p : 1 ≤ n = ground (arith, some) in rw some (omega arith, omega arith)
    ]

-- A quotient with at most nine digits before the point is rounded up to the next integer exactly, if
-- the divisor is not above 10^19.
pub ceil_quotient-bounds :
    (n m : ℕ)
    → 1 ≤ m
    → m ≤ 10 ^ 19
    → n / m < 10 ^ 9
    → (n ≤ ceil_quotient n m * m) × (ceil_quotient n m * m < n + m)
unfolding ceil_quotient
ceil_quotient-bounds n m h small few =
    let d : digits (n / m) ≤ 9 = digits-le (n / m) 9 few in
    let wide : m ≤ 10 ^ (precision - digits (n / m)) = omega (
      arith,
      small,
      pow-le-pow_right {n = 10} (omega arith) {i = 19} {j = precision - digits (n / m)}
          (omega (arith, d)),
    ) in
    elim (Bool-cases (n / m == 0)) [
      | inl none ↦ rw none (below n m h (ground (arith, none)))
      | inr some ↦ rw some (
          ceil_at-bounds n m (n / m) (n % m) (10 ^ (precision - digits (n / m))) (divided n m)
            (mod-lt n {m = m} h) (power_positive _) (10 ^ (digits (n / m) - precision))
            (no_drop (digits (n / m)) (omega (arith, d))) wide)
    ]
