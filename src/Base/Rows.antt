-- ===== src/Base/Rows.antt =====
-- A table of the database as the list of its rows, oldest first, each with a numeric identity: reads
-- by identity, and the write-back of a row that was read and changed.
use Prim.Native.Nat.{ℕ}
use mathlib.Core.Path.{◌≡◌, refl, subst}
use mathlib.Core.Logic.{◌≢◌, inl, inr}
use mathlib.Core.Bool.{Bool, true, false}
use mathlib.Core.Option.{Option, none, some}
use mathlib.Core.List.{List, [], ◌∷◌, ◌++◌}
use native.Mathlib.Omega.{arith}
use scope_guard.Base.Tests.{◌==◌, if◌then◌else◌, Bool-cases}
use scope_guard.Base.Lists.{All, length}

-- A row type with its primary key.
pub record HasId {ℓ} (R : Type ℓ) : Type ℓ where
  pub id_of : R → ℕ

module _ {ℓ} {R : Type ℓ} ⦃h : HasId R⦄ where
  -- `session.get(R, id)`
  unfoldable pub get : ℕ → List R → Option R
  get i [] = none
  get i (r ∷ rs) = if h.id_of r == i then some r else get i rs

  -- the flush of a changed row: it replaces the row of its identity
  unfoldable pub put : R → List R → List R
  put r [] = []
  put r (x ∷ xs) = let rest = put r xs in if h.id_of x == h.id_of r then r ∷ rest else x ∷ rest

  -- an assignment to the attributes of the row of an identity
  unfoldable pub edit : ℕ → (R → R) → List R → List R
  edit i f [] = []
  edit i f (x ∷ xs) = (if h.id_of x == i then f x else x) ∷ edit i f xs

module _ {ℓ} {R : Type ℓ} ⦃h : HasId R⦄ where
  pub get-edit_self :
      (i : ℕ) (f : R → R) (rs : List R) {r : R}
      → ((x : R) → h.id_of (f x) ≡ h.id_of x)
      → get i rs ≡ some r
      → get i (edit i f rs) ≡ some (f r)
  unfolding get edit
  get-edit_self i f [] k e = cc
  get-edit_self i f (x ∷ rs) {r} k e = ground (arith, k x, get-edit_self i f rs {r = r} k)

  pub get-edit_ne :
      (i j : ℕ) (f : R → R) (rs : List R)
      → ((x : R) → h.id_of (f x) ≡ h.id_of x)
      → i ≢ j
      → get j (edit i f rs) ≡ get j rs
  unfolding get edit
  get-edit_ne i j f [] k e = refl
  get-edit_ne i j f (x ∷ rs) k e = ground (arith, k x, get-edit_ne i j f rs k e)

  pub get-snoc :
      (i : ℕ) (rs : List R) (x : R) {r : R} → get i rs ≡ some r → get i (rs ++ x ∷ []) ≡ some r
  unfolding get
  get-snoc i [] x e = cc
  get-snoc i (y ∷ rs) x {r} e = ground (arith, get-snoc i rs x {r = r})

  pub get-id : (i : ℕ) (rs : List R) {r : R} → get i rs ≡ some r → h.id_of r ≡ i
  unfolding get
  get-id i [] e = cc
  get-id i (x ∷ rs) {r} e = ground (arith, get-id i rs {r = r})

  pub get-put_self :
      (r : R) (rs : List R) {old : R}
      → get (h.id_of r) rs ≡ some old
      → get (h.id_of r) (put r rs) ≡ some r
  unfolding get put
  get-put_self r [] e = cc
  get-put_self r (x ∷ rs) {old} e = ground (arith, get-put_self r rs {old = old})

  pub get-put_ne : (j : ℕ) (r : R) (rs : List R) → h.id_of r ≢ j → get j (put r rs) ≡ get j rs
  unfolding get put
  get-put_ne j r [] e = refl
  get-put_ne j r (x ∷ rs) e = ground (arith, get-put_ne j r rs e)

  pub length-put : (r : R) (rs : List R) → length (put r rs) ≡ length rs
  unfolding put
  length-put r [] = refl
  length-put r (x ∷ rs) = ground (arith, length-put r rs)

module _ {ℓ κ} {R : Type ℓ} ⦃h : HasId R⦄ (P : R → Type κ) where
  pub All-put : (r : R) (rs : List R) → P r → All P rs → All P (put r rs)
  unfolding put
  All-put r [] p a = tt
  All-put r (x ∷ rs) p a = elim (Bool-cases (h.id_of x == h.id_of r)) [
    | inl hit ↦ rw hit (p, All-put r rs p a.1)
    | inr miss ↦ rw miss (a.0, All-put r rs p a.1)
  ]

  All-get_in :
      (b : Bool) (x r : R) (rest : Option R)
      → (if b then some x else rest) ≡ some r
      → P x
      → (rest ≡ some r → P r)
      → P r
  All-get_in true x r rest e p k = let q : x ≡ r = cc in subst P q p
  All-get_in false x r rest e p k = k e

  pub All-get : (i : ℕ) (rs : List R) (r : R) → get i rs ≡ some r → All P rs → P r
  unfolding get
  All-get i [] r e a = cc
  All-get i (x ∷ rs) r e a =
      All-get_in (h.id_of x == i) x r (get i rs) e a.0 (λ e'. All-get i rs r e' a.1)
