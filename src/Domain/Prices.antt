-- ===== src/Domain/Prices.antt =====
-- The recommended price is the exact one rounded up to whole increments.
use native.Mathlib.Nat.{mul_comm, mul_assoc, one-le-mul, one-le-pow, mul-le-mul}
use scope_guard.Base.{
  ℕ, ◌+◌, ◌*◌, ◌/◌, ◌^◌, ◌≤◌, ◌<◌, ◌≡◌, refl, sym, ap, subst, ◌∙◌, max, inl, inr, false, ◌||◌, ◌&&◌,
  leb, some, arith, ltb, ◌==◌, Bool-cases, ok,
}
use scope_guard.Domain.Decimals.{significant, ceil_quotient}
use scope_guard.Domain.Rounding.{significant_exact, ceil_quotient-reaches, ceil_quotient-bounds}
use scope_guard.Domain.Money.{
  Hours, scale, parse_hours, max_change_minor, round_up, recommend, recommend_total_minor,
}

-- A price `r` for `n / d`: it covers it, by less than one increment more, in whole increments.
pub record IsRounded (n d increment r : ℕ) : Type 0 where
  pub covers : n ≤ d * r
  pub tight : d * r < n + d * increment
  pub whole : (k : ℕ) × (r ≡ k * increment)

regroup : (d q i : ℕ) → d * (q * i) ≡ q * (d * i)
regroup d q i = sym (mul_assoc d q i) ∙ ap (λ x. x * i) (mul_comm d q) ∙ mul_assoc q d i

-- a price within the limit has a quotient of at most nine digits
quotient_small :
    (n m increment : ℕ)
    → 1 ≤ m
    → 1 ≤ increment
    → n < 10 ^ 28
    → ceil_quotient n m * increment ≤ max_change_minor
    → n / m < 10 ^ 9
quotient_small n m increment h hi few low = omega (
  arith,
  ceil_quotient-reaches n m h few,
  mul-le-mul {n₁ = n / m} {m₁ = 1} {n₂ = ceil_quotient n m} {m₂ = increment}
      (ceil_quotient-reaches n m h few) hi,
  low,
)

round_up-IsRounded :
    (n d increment : ℕ)
    → 1 ≤ d
    → 1 ≤ increment
    → n < 10 ^ 28
    → d * increment ≤ 10 ^ 19
    → round_up n d increment ≤ max_change_minor
    → IsRounded n d increment (round_up n d increment)
unfolding round_up
round_up-IsRounded n d i hd hi few small low =
    let q = ceil_quotient n (d * i) in
    let bounds : (n ≤ q * (d * i)) × (q * (d * i) < n + d * i) =
      ceil_quotient-bounds n (d * i) (one-le-mul hd hi) small
        (quotient_small n (d * i) i (one-le-mul hd hi) hi few low) in
    record {
      covers = subst (λ x. n ≤ x) (sym (regroup d q i)) bounds.0;
      tight = subst (λ x. x < n + d * i) (sym (regroup d q i)) bounds.1;
      whole = (q, refl);
    }

-- What a recommendation says of its price.
pub record IsPrice (h : Hours) (rate minimum increment r : ℕ) : Type 0 where
  pub rounded : IsRounded (max (h.coefficient * rate) (minimum * scale h)) (scale h) increment r
  pub bounded : r ≤ max_change_minor
  pub positive : (1 ≤ rate) × (1 ≤ minimum) × (1 ≤ increment)

positive_terms : (a b c : ℕ) → (a == 0 || (b == 0 || c == 0)) ≡ false → (1 ≤ a) × (1 ≤ b) × (1 ≤ c)
positive_terms a b c h = (ground (arith, h), ground (arith, h), ground (arith, h))

not_above : (a b : ℕ) → ltb a b ≡ false → b ≤ a
not_above a b h = ground (arith, h)

scale_positive : (h : Hours) → 1 ≤ scale h
unfolding scale
scale_positive h = one-le-pow h.places 10 (omega arith)

recommend-IsPrice :
    (h : Hours) (rate minimum increment r : ℕ)
    → max (h.coefficient * rate) (minimum * scale h) < 10 ^ 28
    → scale h * increment ≤ 10 ^ 19
    → recommend h rate minimum increment ≡ ok r
    → IsPrice h rate minimum increment r
unfolding recommend
recommend-IsPrice h rate minimum increment r few small e =
    let n = max (h.coefficient * rate) (minimum * scale h) in
    let price = round_up n (scale h) increment in
    let unrounded : significant (h.coefficient * rate) ≡ h.coefficient * rate =
      significant_exact (h.coefficient * rate) (omega (arith, few)) in
    let same_price : round_up (max (significant (h.coefficient * rate)) (minimum * scale h))
          (scale h) increment
        ≡ price =
      ap (λ x. round_up (max x (minimum * scale h)) (scale h) increment) unrounded in
    elim (Bool-cases (rate == 0 || (minimum == 0 || increment == 0))) [
      | inl bad ↦ absurd (ground (arith, bad, e))
      | inr good ↦ elim (Bool-cases (ltb max_change_minor price)) [
        | inl high ↦ absurd (ground (arith, good, high, same_price, e))
        | inr low ↦
            let same : price ≡ r = ground (arith, good, low, same_price, e) in
            let terms = positive_terms rate minimum increment good in
            let within = not_above max_change_minor price low in
            subst (IsPrice h rate minimum increment) same (record {
              rounded =
                  round_up-IsRounded n (scale h) increment (scale_positive h) terms.2 few small
                    within;
              bounded = within;
              positive = terms;
            })
      ]
    ]

-- For an effort whose product with the rate, and with the minimum in its own places, has at most 28
-- digits, and whose places with the increment make at most 10^19: a price that is recommended is at
-- most the limit of a change order, is the larger of effort times rate and the minimum, rounded up to
-- whole increments by less than one of them, and comes only from positive terms and an effort of more
-- than zero and at most 1000 hours.
pub recommended-IsPrice :
    (h : Hours) (rate minimum increment r : ℕ)
    → max (h.coefficient * rate) (minimum * scale h) < 10 ^ 28
    → scale h * increment ≤ 10 ^ 19
    → recommend_total_minor (some h) rate minimum increment ≡ ok r
    → IsPrice h rate minimum increment r × (1 ≤ h.coefficient) × (h.coefficient ≤ 1000 * scale h)
unfolding recommend_total_minor parse_hours
recommended-IsPrice h rate minimum increment r few small e =
    elim (Bool-cases (ltb 0 h.coefficient && leb h.coefficient (1000 * scale h))) [
      | inr out ↦ absurd (ground (arith, out, e))
      | inl within ↦ (
        recommend-IsPrice h rate minimum increment r few small (ground (arith, within, e)),
        ground (arith, within),
        ground (arith, within),
      )
    ]
