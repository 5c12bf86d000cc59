-- ===== src/Workers/Capacity/Counts.antt =====
-- Counting the active reservations of services/workers/capacity.py.
use scope_guard.Base.{
  ℕ, ◌+◌, ◌≡◌, ◌≤◌, refl, sym, subst, inl, inr, Bool, true, false, ◌&&◌, some, List, [], ◌∷◌, ◌++◌,
  arith, ◌==◌, All-map, All-filter, find?-All, Bool-cases, if◌then◌else◌, filter, find?, count,
  length, put, All,
}
use scope_guard.Base.Unique.{Unique, Differs}
use scope_guard.Workers.Capacity.{
  AnalysisCapacityReservation, reservation_id, CapacityPolicy, is_active, visible, of_tenant,
}

abbrev pub all_seen : AnalysisCapacityReservation → Bool
all_seen r = false

unfoldable active_of : ℕ → ℕ → AnalysisCapacityReservation → Bool
active_of now tenant r = is_active now r && of_tenant tenant r

-- At a time, at most `global_limit` reservations are active, and at most `per_tenant` of each tenant.
pub record IsWithin (policy : CapacityPolicy) (now : ℕ) (rows : List AnalysisCapacityReservation)
    : Type 0 where
  pub in_all : count (is_active now) rows ≤ policy.global_limit
  pub of_each :
      (tenant : ℕ) → count (λ r. is_active now r && r.tenant_id == tenant) rows ≤ policy.per_tenant

pub count-snoc :
    {A : Type 0} (f : A → Bool) (xs : List A) (a : A)
    → count f (xs ++ a ∷ []) ≤ count f xs + (if f a then 1 else 0)
unfolding count
count-snoc f [] a = ground arith
count-snoc f (x ∷ xs) a = ground (arith, count-snoc f xs a)

-- what the query counts
pub count-visible :
    (now : ℕ) (rows : List AnalysisCapacityReservation)
    → length (visible all_seen now rows) ≡ count (is_active now) rows
unfolding visible filter count
count-visible now [] = refl
count-visible now (r ∷ rows) = ground (arith, count-visible now rows)

pub count-visible_of :
    (now t : ℕ) (rows : List AnalysisCapacityReservation)
    → count (of_tenant t) (visible all_seen now rows)
      ≡ count (λ r. is_active now r && r.tenant_id == t) rows
unfolding visible filter count of_tenant
count-visible_of now t [] = refl
count-visible_of now t (r ∷ rows) = ground (arith, count-visible_of now t rows)

-- A row that is counted only if every row of its identity was adds nothing.
pub count-put-le :
    (f : AnalysisCapacityReservation → Bool) (r : AnalysisCapacityReservation)
    (rows : List AnalysisCapacityReservation)
    → All (λ x. x.id ≡ r.id → f r ≡ true → f x ≡ true) rows
    → count f (put r rows) ≤ count f rows
unfolding count put
count-put-le f r [] h = omega arith
count-put-le f r (x ∷ xs) h = ground (arith, h.0, count-put-le f r xs h.1)

below_first :
    (g : AnalysisCapacityReservation → Bool) (ys : List AnalysisCapacityReservation)
    (x : AnalysisCapacityReservation) (xs : List AnalysisCapacityReservation)
    (r : AnalysisCapacityReservation)
    → All (Differs x) ys
    → find? g ys ≡ some r
    → (find? g ys ≡ some r → All (λ z. z.id ≡ r.id → z ≡ r) xs)
    → (x.id ≡ r.id → x ≡ r) × All (λ z. z.id ≡ r.id → z ≡ r) xs
below_first g ys x xs r d e k = ((λ i. absurd ((find?-All (Differs x) g ys r d e).0 (sym i))), k e)

-- the row that was found among the active ones is the only one of its identity
pub only_row :
    (q g : AnalysisCapacityReservation → Bool) (rows : List AnalysisCapacityReservation)
    (r : AnalysisCapacityReservation)
    → Unique rows
    → find? g (filter q rows) ≡ some r
    → All (λ x. x.id ≡ r.id → x ≡ r) rows
unfolding filter find?
only_row q g [] r u e = tt
only_row q g (x ∷ xs) r u e = elim (Bool-cases (q x)) [
  | inl kept ↦ elim (Bool-cases (g x)) [
    | inl hit ↦
        let same : x ≡ r = ground (arith, kept, hit, e) in
        (
          (λ _. same),
          subst (λ y. All (λ z. z.id ≡ y.id → z ≡ y) xs) same
              (All-map _ _ (λ z d i. absurd (d i)) xs u.0),
        )
    | inr miss ↦
        below_first g (filter q xs) x xs r (All-filter (Differs x) q xs u.0)
          (ground (arith, kept, miss, e)) (only_row q g xs r u.1)
  ]
  | inr dropped ↦
      below_first g (filter q xs) x xs r (All-filter (Differs x) q xs u.0)
        (ground (arith, dropped, e)) (only_row q g xs r u.1)
]

pub adds_nothing :
    {m n k : ℕ} (a b : Bool) → b ≡ false → n ≤ k → m ≤ n + (if a && b then 1 else 0) → m ≤ k
adds_nothing a b e h c = ground (arith, e, h, c)
