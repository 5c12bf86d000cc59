-- ===== src/Base/Unique.antt =====
-- Tables whose rows have different identities: each row is the one that its identity finds, and
-- filters, sorts, limits and write-backs keep that.
use scope_guard.Base.{
  ◌∙◌, ℕ, zero, suc, ◌<◌, ◌≡◌, sym, ◌≢◌, inl, inr, Bool, true, none, some, refl, List, [], ◌∷◌,
  ◌++◌, arith, ◌==◌, Bool-cases, All, All-append, All-take, All-filter, filter, take, sort_by,
  insert_sorted, HasId, get, put, edit, get-put_ne, get-edit_ne,
}

module _ {ℓ} {R : Type ℓ} ⦃h : HasId R⦄ where
  abbrev pub Differs : R → R → Type 0
  Differs x y = h.id_of y ≢ h.id_of x

  abbrev pub Unique : List R → Type 0
  Unique [] = Unit
  Unique (x ∷ xs) = All (Differs x) xs × Unique xs

  -- each of `cs` is a row of the table
  abbrev pub Found : List R → List R → Type ℓ
  Found rows cs = All (λ c. get (h.id_of c) rows ≡ some c) cs

module _ {ℓ} {R : Type ℓ} ⦃h : HasId R⦄ where
  Found-cons : (x : R) (xs cs : List R) → All (Differs x) cs → Found xs cs → Found (x ∷ xs) cs
  unfolding get
  Found-cons x xs [] d f = tt
  Found-cons x xs (c ∷ cs) d f = (ground (arith, d.0, f.0), Found-cons x xs cs d.1 f.1)

  get_head : (x : R) (xs : List R) → get (h.id_of x) (x ∷ xs) ≡ some x
  unfolding get
  get_head x xs = ground arith

  pub Found-self : (rows : List R) → Unique rows → Found rows rows
  Found-self [] u = tt
  Found-self (x ∷ xs) u = (get_head x xs, Found-cons x xs xs u.0 (Found-self xs u.1))

  -- writing back one row leaves the others found
  pub Found-put :
      (r : R) (rows cs : List R) → All (Differs r) cs → Found rows cs → Found (put r rows) cs
  Found-put r rows [] d f = tt
  Found-put r rows (c ∷ cs) d f =
      (get-put_ne (h.id_of c) r rows (λ e. d.0 (sym e)) ∙ f.0, Found-put r rows cs d.1 f.1)

  Differs-put :
      (x r : R) (rows : List R) → Differs x r → All (Differs x) rows → All (Differs x) (put r rows)
  unfolding put
  Differs-put x r [] n d = tt
  Differs-put x r (y ∷ ys) n d = elim (Bool-cases (h.id_of y == h.id_of r)) [
    | inl hit ↦ rw hit (n, Differs-put x r ys n d.1)
    | inr miss ↦ rw miss (d.0, Differs-put x r ys n d.1)
  ]

  -- a put of a row whose identity is that of `y`, which differs from `x`
  Differs-of_hit : (x y r : R) → (h.id_of y == h.id_of r) ≡ true → Differs x y → Differs x r
  Differs-of_hit x y r e d = ground arith

  Differs-put_any : (x r : R) (rows : List R) → All (Differs x) rows → All (Differs x) (put r rows)
  unfolding put
  Differs-put_any x r [] d = tt
  Differs-put_any x r (y ∷ ys) d = elim (Bool-cases (h.id_of y == h.id_of r)) [
    | inl hit ↦ rw hit (Differs-of_hit x y r hit d.0, Differs-put_any x r ys d.1)
    | inr miss ↦ rw miss (d.0, Differs-put_any x r ys d.1)
  ]

  Differs-same :
      (x r : R) (ys : List R) → h.id_of x ≡ h.id_of r → All (Differs x) ys → All (Differs r) ys
  Differs-same x r [] e d = tt
  Differs-same x r (y ∷ ys) e d = (λ p. d.0 (p ∙ sym e), Differs-same x r ys e d.1)

  same_id : (x r : R) → (h.id_of x == h.id_of r) ≡ true → h.id_of x ≡ h.id_of r
  same_id x r e = ground arith

  pub Unique-put : (r : R) (rows : List R) → Unique rows → Unique (put r rows)
  unfolding put
  Unique-put r [] u = tt
  Unique-put r (x ∷ xs) u = elim (Bool-cases (h.id_of x == h.id_of r)) [
    | inl hit ↦
        rw hit
          (Differs-put_any r r xs (Differs-same x r xs (same_id x r hit) u.0), Unique-put r xs u.1)
    | inr miss ↦ rw miss (Differs-put_any x r xs u.0, Unique-put r xs u.1)
  ]

  pub Unique-snoc :
      (rows : List R) (r : R)
      → Unique rows
      → All (λ x. h.id_of x < h.id_of r) rows
      → Unique (rows ++ r ∷ [])
  Unique-snoc [] r u l = (tt, tt)
  Unique-snoc (x ∷ xs) r u l = (
    All-append (Differs x) xs (r ∷ []) u.0 (λ e. absurd (omega (arith, l.0)), tt),
    Unique-snoc xs r u.1 l.1,
  )

module _ {ℓ} {R : Type ℓ} ⦃h : HasId R⦄ where
  Differs-edit :
      (x : R) (i : ℕ) (f : R → R) (rows : List R)
      → ((y : R) → h.id_of (f y) ≡ h.id_of y)
      → All (Differs x) rows
      → All (Differs x) (edit i f rows)
  unfolding edit
  Differs-edit x i f [] k d = tt
  Differs-edit x i f (y ∷ ys) k d = elim (Bool-cases (h.id_of y == i)) [
    | inl hit ↦ rw hit ((λ e. d.0 (sym (k y) ∙ e)), Differs-edit x i f ys k d.1)
    | inr miss ↦ rw miss (d.0, Differs-edit x i f ys k d.1)
  ]

  -- assignments to attributes other than the identity keep the identities apart
  pub Unique-edit :
      (i : ℕ) (f : R → R) (rows : List R)
      → ((y : R) → h.id_of (f y) ≡ h.id_of y)
      → Unique rows
      → Unique (edit i f rows)
  unfolding edit
  Unique-edit i f [] k u = tt
  Unique-edit i f (x ∷ xs) k u = elim (Bool-cases (h.id_of x == i)) [
    | inl hit ↦ rw hit (
      Differs-same x (f x) (edit i f xs) (sym (k x)) (Differs-edit x i f xs k u.0),
      Unique-edit i f xs k u.1,
    )
    | inr miss ↦ rw miss (Differs-edit x i f xs k u.0, Unique-edit i f xs k u.1)
  ]

  -- nor does an assignment to one row change the others
  pub Found-edit :
      (r : R) (f : R → R) (rows cs : List R)
      → ((y : R) → h.id_of (f y) ≡ h.id_of y)
      → All (Differs r) cs
      → Found rows cs
      → Found (edit (h.id_of r) f rows) cs
  Found-edit r f rows [] k d g = tt
  Found-edit r f rows (c ∷ cs) k d g = (
    get-edit_ne (h.id_of r) (h.id_of c) f rows k (λ e. d.0 (sym e)) ∙ g.0,
    Found-edit r f rows cs k d.1 g.1,
  )

  pub none_Differs :
      (i : ℕ) (r : R) (rows : List R)
      → h.id_of r ≡ i
      → get i rows ≡ none
      → All (λ x. h.id_of r ≢ h.id_of x) rows
  unfolding get
  none_Differs i r [] e n = tt
  none_Differs i r (x ∷ xs) e n =
      ((λ p. absurd (ground (arith, n, p, e))), none_Differs i r xs e (ground (arith, n)))

  Unique-new :
      (rows : List R) (r : R)
      → Unique rows
      → All (λ x. h.id_of r ≢ h.id_of x) rows
      → Unique (rows ++ r ∷ [])
  Unique-new [] r u d = (tt, tt)
  Unique-new (x ∷ xs) r u d =
      (All-append (Differs x) xs (r ∷ []) u.0 (d.0, tt), Unique-new xs r u.1 d.1)

  pub Unique-insert :
      (rows : List R) (r : R) → Unique rows → get (h.id_of r) rows ≡ none → Unique (rows ++ r ∷ [])
  Unique-insert rows r u n = Unique-new rows r u (none_Differs (h.id_of r) r rows refl n)

  pub get-insert :
      (rows : List R) (r : R)
      → get (h.id_of r) rows ≡ none
      → get (h.id_of r) (rows ++ r ∷ []) ≡ some r
  unfolding get
  get-insert [] r n = ground arith
  get-insert (x ∷ xs) r n = ground (arith, n, get-insert xs r)

module _ {ℓ} {R : Type ℓ} ⦃h : HasId R⦄ where
  pub Unique-filter : (p : R → Bool) (xs : List R) → Unique xs → Unique (filter p xs)
  unfolding filter
  Unique-filter p [] u = tt
  Unique-filter p (x ∷ xs) u = elim (Bool-cases (p x)) [
    | inl kept ↦ rw kept (All-filter (Differs x) p xs u.0, Unique-filter p xs u.1)
    | inr dropped ↦ rw dropped (Unique-filter p xs u.1)
  ]

  pub Unique-take : (n : ℕ) (xs : List R) → Unique xs → Unique (take n xs)
  Unique-take zero xs u = tt
  Unique-take (suc n) [] u = tt
  Unique-take (suc n) (x ∷ xs) u = (All-take (Differs x) n xs u.0, Unique-take n xs u.1)

module _ {ℓ κ} {R : Type ℓ} (P : R → Type κ) (before : R → R → Bool) where
  All-insert_sorted : (a : R) (xs : List R) → P a → All P xs → All P (insert_sorted before a xs)
  unfolding insert_sorted
  All-insert_sorted a [] p h = (p, tt)
  All-insert_sorted a (x ∷ xs) p h = elim (Bool-cases (before x a)) [
    | inl later ↦ rw later (h.0, All-insert_sorted a xs p h.1)
    | inr first ↦ rw first (p, h)
  ]

  pub All-sort_by : (xs : List R) → All P xs → All P (sort_by before xs)
  unfolding sort_by
  All-sort_by [] h = tt
  All-sort_by (x ∷ xs) h = All-insert_sorted x (sort_by before xs) h.0 (All-sort_by xs h.1)

module _ {ℓ} {R : Type ℓ} ⦃h : HasId R⦄ (before : R → R → Bool) where
  Differs-flip : (a : R) (xs : List R) → All (λ x. Differs x a) xs → All (Differs a) xs
  Differs-flip a [] d = tt
  Differs-flip a (x ∷ xs) d = (λ e. d.0 (sym e), Differs-flip a xs d.1)

  Unique-insert_sorted :
      (a : R) (xs : List R) → All (Differs a) xs → Unique xs → Unique (insert_sorted before a xs)
  unfolding insert_sorted
  Unique-insert_sorted a [] d u = (tt, tt)
  Unique-insert_sorted a (x ∷ xs) d u = elim (Bool-cases (before x a)) [
    | inl later ↦ rw later (
      All-insert_sorted (Differs x) before a xs (λ e. d.0 (sym e)) u.0,
      Unique-insert_sorted a xs d.1 u.1,
    )
    | inr first ↦ rw first (d, u)
  ]

  pub Unique-sort_by : (xs : List R) → Unique xs → Unique (sort_by before xs)
  unfolding sort_by
  Unique-sort_by [] u = tt
  Unique-sort_by (x ∷ xs) u =
      Unique-insert_sorted x (sort_by before xs) (All-sort_by (Differs x) before xs u.0)
        (Unique-sort_by xs u.1)
