-- ===== src/Base/Yields.antt =====
-- What holds when a block returns: a condition of the state before, and one of the result and the
-- state after. Nothing is said of a block that raises, whose writes the caller rolls back.
use scope_guard.Base.{
  ◌≡◌, refl, subst, sym, Bool, true, false, Error, Result, ok, err, Exec, pure, raise, raise_if,
  ◌>>=◌, if◌then◌else◌,
}
use scope_guard.Base.Frames.{Frame}
use scope_guard.Base.Does.{Does, Post, Anything, Post-Anything}

abbrev pub Out : {S A : Type 0} → (A → S → Type 0) → Result A × S → Type 0
Out Q (ok a, t) = Q a t
Out Q (err e, t) = Unit

pub record Yields {S A : Type 0} (P : S → Type 0) (m : Exec S A) (Q : A → S → Type 0) : Type 0 where
  pub at : (s : S) → P s → Out Q (m s)

-- a view that a block leaves alone carries its conditions
pub Does-of_Frame :
    {S X A : Type 0} (view : S → X) (P : X → Type 0) (m : Exec S A)
    → Frame view m
    → Does (λ s. P (view s)) Anything m
Does-of_Frame view P m h = record {
  keeps = λ s p. subst P (sym (h.at s)) p;
  gives = λ s p. Post-Anything (m s).0;
}

module _ {S A : Type 0} {P : S → Type 0} {Q : A → S → Type 0} where
  pub Yields-pure : (a : A) → ((s : S) → P s → Q a s) → Yields P (pure a) Q
  Yields-pure a h = record { at = h }

  pub Yields-raise : (e : Error) → Yields P (raise {A = A} e) Q
  Yields-raise e = record { at = λ s p. tt }

  pub Yields-if :
      (b : Bool) (m n : Exec S A)
      → (b ≡ true → Yields P m Q)
      → (b ≡ false → Yields P n Q)
      → Yields P (if b then m else n) Q
  Yields-if true m n h k = h refl
  Yields-if false m n h k = k refl

  pub Yields-weaken :
      {P' : S → Type 0} (m : Exec S A) → ((s : S) → P s → P' s) → Yields P' m Q → Yields P m Q
  Yields-weaken m w h = record { at = λ s p. h.at s (w s p) }

module _ {S A B : Type 0} {R : B → S → Type 0} where
  after :
      {Q : A → S → Type 0} (x : Result A × S) (f : A → Exec S B)
      → Out Q x
      → ((a : A) → Yields (Q a) (f a) R)
      → Out R (elim x.0 [ ok a ↦ f a x.1 | err e ↦ (err e, x.1) ])
  after (ok a, t) f q k = (k a).at t q
  after (err e, t) f q k = tt

module _ {S A B : Type 0} {P : S → Type 0} {R : B → S → Type 0} where
  pub Yields-bind :
      {Q : A → S → Type 0} (m : Exec S A) (f : A → Exec S B)
      → Yields P m Q
      → ((a : A) → Yields (Q a) (f a) R)
      → Yields P (m >>= f) R
  unfolding ◌>>=◌
  Yields-bind m f h k = record { at = λ s p. after (m s) f (h.at s p) k }

  done :
      {T : A → Type 0} (x : Result A × S) (f : A → Exec S B)
      → P x.1
      → Post T x.0
      → ((a : A) → T a → Yields P (f a) R)
      → Out R (elim x.0 [ ok a ↦ f a x.1 | err e ↦ (err e, x.1) ])
  done (ok a, t) f p q k = (k a q).at t p
  done (err e, t) f p q k = tt

  -- after a block that keeps the condition
  pub Yields-does :
      {T : A → Type 0} (m : Exec S A) (f : A → Exec S B)
      → Does P T m
      → ((a : A) → T a → Yields P (f a) R)
      → Yields P (m >>= f) R
  unfolding ◌>>=◌
  Yields-does m f h k = record { at = λ s p. done (m s) f (h.keeps s p) (h.gives s p) k }

anything : {S A : Type 0} (x : Result A × S) → Out (λ _ _. Unit {0}) x
anything (ok a, t) = tt
anything (err e, t) = tt

-- nothing is asked of the result
pub Yields-any : {S A : Type 0} {P : S → Type 0} (m : Exec S A) → Yields P m (λ _ _. Unit {0})
Yields-any m = record { at = λ s p. anything (m s) }

-- a condition that does not depend on the state
pub Yields-known :
    {S A X : Type 0} {Q : A → S → Type 0} (m : Exec S A)
    → (X → Yields (λ _. Unit {0}) m Q)
    → Yields (λ _. X) m Q
Yields-known m h = record { at = λ s x. (h x).at s tt }

-- a guard on what was read from the state
pub Yields-guard :
    {S : Type 0} (f : S → Bool) (b : Bool) (e : Error)
    → Yields (λ s. f s ≡ b) (raise_if b e) (λ _ s. f s ≡ false)
Yields-guard f true e = record { at = λ s p. tt }
Yields-guard f false e = record { at = λ s p. p }

pub given : {S A : Type 0} (T : A → Type 0) (x : Result A × S) → Post T x.0 → Out (λ a _. T a) x
given T (ok a, t) q = q
given T (err e, t) q = tt

pub Yields-of_Does :
    {S A : Type 0} {P : S → Type 0} {T : A → Type 0} (m : Exec S A)
    → Does P T m
    → Yields P m (λ a _. T a)
Yields-of_Does {T = T} m h = record { at = λ s p. given T (m s) (h.gives s p) }

mapped :
    {S A : Type 0} (Q T : A → S → Type 0) (x : Result A × S)
    → ((a : A) (s : S) → Q a s → T a s)
    → Out Q x
    → Out T x
mapped Q T (ok a, t) f q = f a t q
mapped Q T (err e, t) f q = tt

pub Yields-map :
    {S A : Type 0} {P : S → Type 0} {Q T : A → S → Type 0} (m : Exec S A)
    → ((a : A) (s : S) → Q a s → T a s)
    → Yields P m Q
    → Yields P m T
Yields-map {Q = Q} {T = T} m f h = record { at = λ s p. mapped Q T (m s) f (h.at s p) }

stands : {S A : Type 0} (P : S → Type 0) (x : Result A × S) → P x.1 → Out (λ _ s. P s) x
stands P (ok a, t) p = p
stands P (err e, t) p = tt

-- a block that keeps a condition
pub Yields-keeps :
    {S A : Type 0} {P : S → Type 0} {T : A → Type 0} (m : Exec S A)
    → Does P T m
    → Yields P m (λ _ s. P s)
Yields-keeps {P = P} m h = record { at = λ s p. stands P (m s) (h.keeps s p) }
