-- ===== src/Base/Does.antt =====
-- Rules for a block of effects: an invariant of the state, and a property of what the block returns.
use scope_guard.Base.{
  ◌≡◌, refl, Bool, true, false, Option, none, some, Error, Result, ok, err, Exec, pure, raise,
  or_raise, ask, gets, raise_if, ◌>>=◌, ◌>>◌, if◌then◌else◌,
}

abbrev pub Post {ℓ} : {A : Type 0} → (A → Type ℓ) → Result A → Type ℓ
Post R (ok a) = R a
Post R (err e) = Unit

-- From a state with `P` the block ends, by return or by raise, in one with `P`; what it returns has `R`.
pub record Does {S A : Type 0} (P : S → Type 0) (R : A → Type 0) (m : Exec S A) : Type 0 where
  pub keeps : (s : S) → P s → P (m s).1
  pub gives : (s : S) → P s → Post R (m s).0

abbrev pub Anything : {A : Type 0} → A → Type 0
Anything a = Unit

pub Post-Anything : {A : Type 0} (r : Result A) → Post Anything r
Post-Anything (ok a) = tt
Post-Anything (err e) = tt

keeps_lookup :
    {S A : Type 0} (P : S → Type 0) (o : Option A) (e : Error) (s : S) → P s → P (or_raise o e s).1
keeps_lookup P none e s p = p
keeps_lookup P (some a) e s p = p

gives_lookup :
    {S A : Type 0} (R : A → Type 0) (o : Option A) (e : Error) (s : S)
    → ((a : A) → o ≡ some a → R a)
    → Post R (or_raise o e s).0
gives_lookup R none e s r = tt
gives_lookup R (some a) e s r = r a refl

module _ {S : Type 0} {P : S → Type 0} where
  pub Does-pure : {A : Type 0} {R : A → Type 0} (a : A) → R a → Does P R (pure a)
  Does-pure a r = record { keeps = λ s p. p; gives = λ s p. r }

  pub Does-raise : {A : Type 0} {R : A → Type 0} (e : Error) → Does P R (raise {A = A} e)
  Does-raise e = record { keeps = λ s p. p; gives = λ s p. tt }

  pub Does-raise_if : (b : Bool) (e : Error) → Does P (λ _. b ≡ false) (raise_if b e)
  Does-raise_if true e = record { keeps = λ s p. p; gives = λ s p. tt }
  Does-raise_if false e = record { keeps = λ s p. p; gives = λ s p. refl }

  pub Does-lookup :
      {A : Type 0} {R : A → Type 0} (f : S → Option A) (e : Error)
      → ((s : S) (a : A) → P s → f s ≡ some a → R a)
      → Does P R (λ s. or_raise (f s) e s)
  Does-lookup {R = R} f e r = record {
    keeps = λ s p. keeps_lookup P (f s) e s p;
    gives = λ s p. gives_lookup R (f s) e s (λ a q. r s a p q);
  }

  pub Does-if :
      {A : Type 0} {R : A → Type 0} (b : Bool) (m n : Exec S A)
      → (b ≡ true → Does P R m)
      → (b ≡ false → Does P R n)
      → Does P R (if b then m else n)
  Does-if true m n f g = f refl
  Does-if false m n f g = g refl

module _ {S A B : Type 0} {P : S → Type 0} {R : A → Type 0} {T : B → Type 0} where
  keeps_after :
      (r : Result A) (s : S) (f : A → Exec S B)
      → P s
      → Post R r
      → ((a : A) → R a → Does P T (f a))
      → P (let x : Result B × S = elim r [ ok a ↦ f a s | err e ↦ (err e, s) ] in x).1
  keeps_after (ok a) s f p r d = (d a r).keeps s p
  keeps_after (err e) s f p r d = p

  gives_after :
      (r : Result A) (s : S) (f : A → Exec S B)
      → P s
      → Post R r
      → ((a : A) → R a → Does P T (f a))
      → Post T (let x : Result B × S = elim r [ ok a ↦ f a s | err e ↦ (err e, s) ] in x).0
  gives_after (ok a) s f p r d = (d a r).gives s p
  gives_after (err e) s f p r d = tt

  pub Does-bind :
      (m : Exec S A) (f : A → Exec S B)
      → Does P R m
      → ((a : A) → R a → Does P T (f a))
      → Does P T (m >>= f)
  unfolding ◌>>=◌
  Does-bind m f d e = record {
    keeps = λ s p. keeps_after (m s).0 (m s).1 f (d.keeps s p) (d.gives s p) e;
    gives = λ s p. gives_after (m s).0 (m s).1 f (d.keeps s p) (d.gives s p) e;
  }

  pub Does-then : (m : Exec S A) (n : Exec S B) → Does P R m → Does P T n → Does P T (m >> n)
  Does-then m n d e = Does-bind m (λ _. n) d (λ a r. e)

-- A block that takes one condition of the state to another, however it ends.
abbrev pub Leads : {S A : Type 0} → (S → Type 0) → (S → Type 0) → Exec S A → Type 0
Leads P Q m = (s : _) → P s → Q (m s).1

module _ {S A B : Type 0} {P Q : S → Type 0} {R : A → Type 0} where
  leads_after :
      (r : Result A) (s : S) (f : A → Exec S B)
      → P s
      → Post R r
      → ((x : S) → P x → Q x)
      → ((a : A) → R a → Leads P Q (f a))
      → Q (let x : Result B × S = elim r [ ok a ↦ f a s | err e ↦ (err e, s) ] in x).1
  leads_after (ok a) s f p r w d = d a r s p
  leads_after (err e) s f p r w d = w s p

  -- a prefix that keeps the first condition, which is at least the second
  pub Leads-bind :
      (m : Exec S A) (f : A → Exec S B)
      → Does P R m
      → ((x : S) → P x → Q x)
      → ((a : A) → R a → Leads P Q (f a))
      → Leads P Q (m >>= f)
  unfolding ◌>>=◌
  Leads-bind m f d w e s p = leads_after (m s).0 (m s).1 f (d.keeps s p) (d.gives s p) w e

module _ {S A B : Type 0} {Q : S → Type 0} where
  kept_after :
      (r : Result A) (s : S) (f : A → Exec S B)
      → Q s
      → ((a : A) → Does Q Anything (f a))
      → Q (let x : Result B × S = elim r [ ok a ↦ f a s | err e ↦ (err e, s) ] in x).1
  kept_after (ok a) s f q d = (d a).keeps s q
  kept_after (err e) s f q d = q

module _ {S A B : Type 0} {P Q : S → Type 0} where
  -- the step that takes the one to the other, before a rest that keeps it
  pub Leads-then :
      (m : Exec S A) (f : A → Exec S B)
      → Leads P Q m
      → ((a : A) → Does Q Anything (f a))
      → Leads P Q (m >>= f)
  unfolding ◌>>=◌
  Leads-then m f d e s p = kept_after (m s).0 (m s).1 f (d s p) e

-- a query, with what its row is known to have
pub Does-ask :
    {S A : Type 0} {P : S → Type 0} {R : A → Type 0} (f : S → Option A) (e : Error)
    → ((s : S) (a : A) → P s → f s ≡ some a → R a)
    → Does P R (ask f e)
unfolding ask
Does-ask f e r = Does-lookup f e r

pub Does-gets :
    {S A : Type 0} {P : S → Type 0} {R : A → Type 0} (f : S → A)
    → ((s : S) → P s → R (f s))
    → Does P R (gets f)
Does-gets f r = record { keeps = λ s p. p; gives = λ s p. r s p }
