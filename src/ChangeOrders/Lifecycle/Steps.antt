-- ===== src/ChangeOrders/Lifecycle/Steps.antt =====
-- The changes that a change order may undergo, and rules for blocks that keep to them.
use scope_guard.Base.{
  ℕ, ◌≡◌, refl, sym, ap, subst, inl, inr, Bool, true, false, not, Option, none, some, List, [], ◌∷◌,
  ◌++◌, arith, Bool-cases, if◌then◌else◌, find?, find?-All, get, get-id, edit, get-snoc, Error,
  Result, ok, err, Exec, gets, ask, raise_if, or_raise, modify, pure, ◌>>=◌, ◌>>◌, bind_ok,
  bind_err, is_some,
}
use scope_guard.Base.Unique.{Unique, Found-self, Unique-insert, get-insert}
use scope_guard.Base.Frames.{Frame}
use scope_guard.ChangeOrders.Tables.{ChangeOrderStatus, ChangeOrder, Office, order_id}
use scope_guard.ChangeOrders.Office.{Desk, find_order, when, moved_order, move_order}
use scope_guard.ChangeOrders.Proposals.{with_revision, point_order}
use scope_guard.ChangeOrders.Assembly.{add_order}
use scope_guard.ChangeOrders.Frames.{seen}
use scope_guard.ChangeOrders.Lifecycle.Frames.{orders}
use scope_guard.ChangeOrders.Lifecycle.Changes.{
  stay, Follows-refl, From, Moved, Moved-edit, Moved-same, Moved-trans, Tracks, is_final,
  may_become,
}

module _ {A B : Type 0} where
  Moved-after :
      (r : Result A) (L : List ChangeOrder) (s : Office) (f : A → Exec Office B)
      → Moved L (orders s)
      → ((a : A) → Tracks (f a))
      → Moved L
          (orders (let x : Result B × Office = elim r [ ok a ↦ f a s | err e ↦ (err e, s) ] in x).1)
  Moved-after (ok a) L s f h k = Moved-trans L (orders s) _ h ((k a).at s h.0)
  Moved-after (err e) L s f h k = h

  From-after :
      (o : ChangeOrder) (r : Result A) (L : List ChangeOrder) (s : Office) (f : A → Exec Office B)
      → orders s ≡ L
      → Unique L
      → get o.id L ≡ some o
      → ((a : A) → From o (f a))
      → Moved L
          (orders (let x : Result B × Office = elim r [ ok a ↦ f a s | err e ↦ (err e, s) ] in x).1)
  From-after o (ok a) L s f e u at k =
      subst (λ M. Moved M (orders (f a s).1)) e
        ((k a).at s (subst Unique (sym e) u) (subst (λ M. get o.id M ≡ some o) (sym e) at))
  From-after o (err x) L s f e u at k = Moved-same L (orders s) e u

  -- from one state
  pub Moved-bind :
      (m : Exec Office A) (f : A → Exec Office B) (s : Office)
      → Moved (orders s) (orders (m s).1)
      → ((a : A) → Tracks (f a))
      → Moved (orders s) (orders ((m >>= f) s).1)
  unfolding ◌>>=◌
  Moved-bind m f s h k = Moved-after (m s).0 (orders s) (m s).1 f h k

  pub Tracks-bind :
      (m : Exec Office A) (f : A → Exec Office B)
      → Tracks m
      → ((a : A) → Tracks (f a))
      → Tracks (m >>= f)
  Tracks-bind m f h k = record { at = λ s u. Moved-bind m f s (h.at s u) k }

  pub From-bind :
      (o : ChangeOrder) (m : Exec Office A) (f : A → Exec Office B)
      → Frame orders m
      → ((a : A) → From o (f a))
      → From o (m >>= f)
  unfolding ◌>>=◌
  From-bind o m f h k = record {
    at = λ s u e. From-after o (m s).0 (orders s) (m s).1 f (h.at s) u e k;
  }

  pub From-then :
      (o : ChangeOrder) (m : Exec Office A) (f : A → Exec Office B)
      → From o m
      → ((a : A) → Tracks (f a))
      → From o (m >>= f)
  unfolding ◌>>=◌
  From-then o m f h k = record {
    at = λ s u e. Moved-after (m s).0 (orders s) (m s).1 f (h.at s u e) k;
  }

module _ {B : Type 0} where
  pub From-guard :
      (o : ChangeOrder) (b : Bool) (e : Error) (f : Unit {0} → Exec Office B)
      → (b ≡ false → From o (f tt))
      → From o (raise_if b e >>= f)
  unfolding ◌>>=◌
  From-guard o true e f k = record { at = λ s u g. Moved-same (orders s) (orders s) refl u }
  From-guard o false e f k = record { at = λ s u g. (k refl).at s u g }

  found_row :
      (o : Option ChangeOrder) (e : Error) (f : ChangeOrder → Exec Office B) (s : Office)
      → Unique (orders s)
      → ((x : ChangeOrder) → o ≡ some x → Moved (orders s) (orders (f x s).1))
      → Moved (orders s) (orders ((or_raise o e >>= f) s).1)
  unfolding ◌>>=◌
  found_row none e f s u k = Moved-same (orders s) (orders s) refl u
  found_row (some x) e f s u k = k x refl

  -- a row that a query finds is the row of its identity
  pub Tracks-found :
      (g : Office → Option ChangeOrder) (e : Error) (f : ChangeOrder → Exec Office B)
      → ((s : Office) (o : ChangeOrder)
          → Unique (orders s)
          → g s ≡ some o
          → get o.id (orders s) ≡ some o)
      → ((o : ChangeOrder) → From o (f o))
      → Tracks (ask g e >>= f)
  unfolding ask ◌>>=◌
  Tracks-found g e f k h = record {
    at = λ s u. found_row (g s) e f s u (λ o q. (h o).at s u (k s o u q));
  }

when-some : {A : Type 0} (p : A → Bool) (o : Option A) (a : A) → when p o ≡ some a → o ≡ some a
when-some p none a e = absurd cc
when-some p (some x) a e = ground (arith, e)

get_own : (i : ℕ) (L : List ChangeOrder) (o : ChangeOrder) → get i L ≡ some o → get o.id L ≡ some o
get_own i L o e = subst (λ j. get j L ≡ some o) (sym (get-id i L e)) e

pub find_order_row :
    (t i : ℕ) (s : Office) (o : ChangeOrder)
    → find_order t i s ≡ some o
    → get o.id (orders s) ≡ some o
unfolding find_order seen
find_order_row t i s o e = get_own i s.access.orders o (when-some _ _ o e)

pub Tracks-find :
    {B : Type 0} (t i : ℕ) (e : Error) (f : ChangeOrder → Exec Office B)
    → ((o : ChangeOrder) → From o (f o))
    → Tracks (ask (find_order t i) e >>= f)
Tracks-find t i e f h = Tracks-found (find_order t i) e f (λ s o u q. find_order_row t i s o q) h

pub find?_row :
    (p : ChangeOrder → Bool) (L : List ChangeOrder) (o : ChangeOrder)
    → Unique L
    → find? p L ≡ some o
    → (get o.id L ≡ some o) × (p o ≡ true)
find?_row p L o u e = find?-All (λ x. get x.id L ≡ some x) p L o (Found-self L u) e

-- the two ways in which the code changes an order
pub From-move :
    (o : ChangeOrder) (t : ChangeOrderStatus)
    → may_become t o.status ≡ true
    → From o (move_order o.id t)
unfolding move_order moved_order seen
From-move o t h = record {
  at = λ s u e.
      Moved-edit s.access.orders o (moved_order t) (λ x. refl)
        (record {
          allowed = h;
          counted = refl;
          same_id = refl;
          same_tenant = refl;
          same_project = refl;
          same_request = refl;
          same_number = refl;
        })
        u e;
}

pub From-point :
    (desk : Desk) (o : ChangeOrder) (revision : ℕ)
    → is_final o.status ≡ false
    → From o (point_order desk o.id revision)
unfolding point_order with_revision seen
From-point desk o revision h = record {
  at = λ s u e.
      Moved-edit s.access.orders o _ (λ x. refl)
        (record {
          allowed = ap not h;
          counted = refl;
          same_id = refl;
          same_tenant = refl;
          same_project = refl;
          same_request = refl;
          same_number = refl;
        })
        u e;
}

pub Tracks-eq :
    {A : Type 0} (m n : Exec Office A) → ((s : Office) → m s ≡ n s) → Tracks n → Tracks m
Tracks-eq m n e h = record {
  at = λ s u. subst (λ x. Moved (orders s) (orders x.1)) (sym (e s)) (h.at s u);
}

pub Moved-insert :
    (L : List ChangeOrder) (o : ChangeOrder) → Unique L → get o.id L ≡ none → Moved L (L ++ o ∷ [])
Moved-insert L o u n = (Unique-insert L o u n, λ i x e. (x, get-snoc i L o e, stay))

with_order : ChangeOrder → Office → Office
with_order o s = record s { access = record (s.access) { orders = s.access.orders ++ o ∷ [] } }

-- an insertion, by whether the identity is taken
add_order_by :
    (o : ChangeOrder) (s : Office) (b : Bool)
    → is_some (get o.id s.access.orders) ≡ b
    → ◌≡◌ {A = Result (Unit {0}) × Office}
        (add_order o s)
        ((raise_if b Error.integrity >>= λ _. modify (with_order o)) s)
unfolding add_order ◌>>=◌ with_order
add_order_by o s b e =
    ap (λ (x : Bool). (raise_if x Error.integrity >>= λ _. modify (with_order o)) s) e

is_none_of : {A : Type 0} (g : Option A) → is_some g ≡ false → g ≡ none
is_none_of none e = refl
is_none_of (some x) e = cc

module _ {A : Type 0} (o : ChangeOrder) (m : Exec Office A) (h : From o m) where
  inserted :
      (s : Office)
      → Unique s.access.orders
      → Moved s.access.orders (orders ((add_order o >> m) s).1)
  unfolding seen with_order ◌>>=◌
  inserted s u = elim (Bool-cases (is_some (get o.id s.access.orders))) [
    | inl taken ↦
        bind_err (λ x. Moved s.access.orders (orders x.1)) (add_order o) (λ _. m) s Error.integrity
          s (add_order_by o s true taken) (u, Follows-refl s.access.orders)
    | inr free ↦
        let e = is_none_of (get o.id s.access.orders) free in
        let first = Moved-insert s.access.orders o u e in
        bind_ok (λ x. Moved s.access.orders (orders x.1)) (add_order o) (λ _. m) s tt
          (with_order o s) (add_order_by o s false free)
          (Moved-trans s.access.orders (s.access.orders ++ o ∷ []) _ first
            (h.at (with_order o s) first.0 (get-insert s.access.orders o e)))
  ]

  pub Tracks-insert : Tracks (add_order o >> m)
  unfolding seen
  Tracks-insert = record { at = λ s u. inserted s u }

pub From-pure :
    {A B : Type 0} (o : ChangeOrder) (a : A) (f : A → Exec Office B)
    → From o (f a)
    → From o (pure a >>= f)
unfolding ◌>>=◌
From-pure o a f h = record { at = h.at }

pub From-if :
    {A : Type 0} (o : ChangeOrder) (b : Bool) (m n : Exec Office A)
    → (b ≡ true → From o m)
    → (b ≡ false → From o n)
    → From o (if b then m else n)
From-if o true m n h k = h refl
From-if o false m n h k = k refl

-- a query whose result the rest reads
pub Tracks-gets :
    {A B : Type 0} (g : Office → A) (f : A → Exec Office B)
    → ((s : Office) → Unique (orders s) → Moved (orders s) (orders (f (g s) s).1))
    → Tracks (gets g >>= f)
unfolding ◌>>=◌
Tracks-gets g f h = record { at = h }

-- the table after a change of status and a rest that leaves it alone
pub move_order-then :
    {A : Type 0} (i : ℕ) (t : ChangeOrderStatus) (f : Unit {0} → Exec Office A)
    → ((x : Unit {0}) → Frame orders (f x))
    → (s : Office) → orders ((move_order i t >>= f) s).1 ≡ edit i (moved_order t) (orders s)
unfolding ◌>>=◌ move_order seen
move_order-then i t f h s = (h tt).at (move_order i t s).1
