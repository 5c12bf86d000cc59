-- ===== src/Base/Effects.antt =====
-- Code that reads and changes a state and may raise. What was written before a raise stays written
-- in the state, as the attributes of a session's objects do; undoing it is the caller's rollback.
use Prim.Native.Nat.{ℕ, ◌+◌}
use mathlib.Core.List.{List, [], ◌∷◌}
use mathlib.Core.Path.{◌≡◌, refl, sym, subst}
use mathlib.Core.Bool.{Bool, true, false}
use mathlib.Core.Option.{Option, none, some}
use scope_guard.Base.Errors.{Error}

pub data Result {ℓ} (A : Type ℓ) : Type ℓ where
  ok : A → Result A
  err : Error → Result A

abbrev pub Exec {ℓ} : Type ℓ → Type ℓ → Type ℓ
Exec S A = S → Result A × S

module _ {ℓ} {S A : Type ℓ} where
  abbrev pub pure : A → Exec S A
  pure a s = (ok a, s)

  abbrev pub raise : Error → Exec S A
  raise e s = (err e, s)

  abbrev pub lift : Result A → Exec S A
  lift r s = (r, s)

  abbrev pub gets : (S → A) → Exec S A
  gets f s = (ok (f s), s)

  abbrev pub or_raise : Option A → Error → Exec S A
  or_raise none e s = (err e, s)
  or_raise (some a) e s = (ok a, s)

  -- a query for one row, and what is raised where it finds none
  unfoldable pub ask : (S → Option A) → Error → Exec S A
  ask f e s = or_raise (f s) e s

module _ {ℓ} {S A B : Type ℓ} where
  infixl 5 ◌>>=◌ ◌>>◌
  unfoldable pub ◌>>=◌ : Exec S A → (A → Exec S B) → Exec S B
  ◌>>=◌ m f s = let (r, s') = m s in elim r [ ok a ↦ f a s' | err e ↦ (err e, s') ]

  abbrev pub ◌>>◌ : Exec S A → Exec S B → Exec S B
  m >> k = m >>= λ _. k

-- An action whose outcome is known, before the rest of its block.
module _ {ℓ κ} {S A B : Type ℓ} (P : Result B × S → Type κ) (m : Exec S A) (k : A → Exec S B)
    (s : S) where
  pub bind_ok : (a : A) (t : S) → m s ≡ (ok a, t) → P (k a t) → P ((m >>= k) s)
  unfolding ◌>>=◌
  bind_ok a t e p = subst (λ x. P (elim x.0 [ ok b ↦ k b x.1 | err f ↦ (err f, x.1) ])) (sym e) p

  pub bind_err : (f : Error) (t : S) → m s ≡ (err f, t) → P (err f, t) → P ((m >>= k) s)
  unfolding ◌>>=◌
  bind_err f t e p = subst (λ x. P (elim x.0 [ ok b ↦ k b x.1 | err g ↦ (err g, x.1) ])) (sym e) p

module _ {ℓ κ} {S A B : Type ℓ} (P : Result B × S → Type κ) where
  bind_after :
      (x : Result A × S) (k : A → Exec S B)
      → ((a : A) (t : S) → x ≡ (ok a, t) → P (k a t))
      → ((f : Error) (t : S) → x ≡ (err f, t) → P (err f, t))
      → P (elim x.0 [ ok a ↦ k a x.1 | err f ↦ (err f, x.1) ])
  bind_after (ok a, t) k p q = p a t refl
  bind_after (err f, t) k p q = q f t refl

  pub bind_cases :
      (m : Exec S A) (k : A → Exec S B) (s : S)
      → ((a : A) (t : S) → m s ≡ (ok a, t) → P (k a t))
      → ((f : Error) (t : S) → m s ≡ (err f, t) → P (err f, t))
      → P ((m >>= k) s)
  unfolding ◌>>=◌
  bind_cases m k s p q = bind_after (m s) k p q

-- A block that returned: so did its first action, and the rest from there.
module _ {S A B : Type 0} where
  inv_after :
      (x : Result A × S) (k : A → Exec S B) (b : B) (t : S)
      → ◌≡◌ {A = Result B × S} (elim x.0 [ ok a ↦ k a x.1 | err f ↦ (err f, x.1) ]) (ok b, t)
      → (a : A) × (u : S) × (x ≡ (ok a, u)) × (k a u ≡ (ok b, t))
  inv_after (ok a, u) k b t e = (a, u, refl, e)
  inv_after (err f, u) k b t e = absurd cc

  pub bind_inv :
      (m : Exec S A) (k : A → Exec S B) (s t : S) (b : B)
      → (m >>= k) s ≡ (ok b, t)
      → (a : A) × (u : S) × (m s ≡ (ok a, u)) × (k a u ≡ (ok b, t))
  unfolding ◌>>=◌
  bind_inv m k s t b e = inv_after (m s) k b t e

-- `for x in xs: count += f(x)`
unfoldable pub sum_each : {S A : Type 0} → (A → Exec S ℕ) → List A → Exec S ℕ
sum_each f [] = pure 0
sum_each f (x ∷ xs) = f x >>= λ n. (sum_each f xs >>= λ m. pure (n + m))

module _ {S A B C : Type 0} where
  assoc_after :
      (x : Result A × S) (k : A → Exec S B) (h : B → Exec S C)
      → let y : Result B × S = elim x.0 [ ok a ↦ k a x.1 | err f ↦ (err f, x.1) ] in
        ◌≡◌ {A = Result C × S}
          (elim y.0 [ ok b ↦ h b y.1 | err f ↦ (err f, y.1) ])
          (elim x.0 [ ok a ↦ (k a >>= h) x.1 | err f ↦ (err f, x.1) ])
  unfolding ◌>>=◌
  assoc_after (ok a, t) k h = refl
  assoc_after (err f, t) k h = refl

  pub bind_assoc :
      (m : Exec S A) (k : A → Exec S B) (h : B → Exec S C) (s : S)
      → ((m >>= k) >>= h) s ≡ (m >>= λ a. k a >>= h) s
  unfolding ◌>>=◌
  bind_assoc m k h s = assoc_after (m s) k h

abbrev pub raise_if : {S : Type 0} → Bool → Error → Exec S (Unit {0})
raise_if true e s = (err e, s)
raise_if false e s = (ok tt, s)

abbrev pub modify : {S : Type 0} → (S → S) → Exec S (Unit {0})
modify f s = (ok tt, f s)

-- the pure part alone: a check that raises
abbrev pub check : Bool → Error → Result (Unit {0})
check true e = err e
check false e = ok tt

-- a lookup and a guard that returned
pub looked_up :
    {S A : Type 0} (o : Option A) (e : Error) (s u : S) (a : A)
    → ◌≡◌ {A = Result A × S} (or_raise o e s) (ok a, u)
    → (o ≡ some a) × (u ≡ s)
looked_up none e s u a h = absurd cc
looked_up (some x) e s u a h = (cc, cc)

pub passed :
    {S : Type 0} (b : Bool) (e : Error) (s u : S) (x : Unit {0})
    → ◌≡◌ {A = Result (Unit {0}) × S} (raise_if b e s) (ok x, u)
    → (b ≡ false) × (u ≡ s)
passed true e s u x h = absurd cc
passed false e s u x h = (refl, cc)
