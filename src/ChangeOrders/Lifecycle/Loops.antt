-- ===== src/ChangeOrders/Lifecycle/Loops.antt =====
-- A loop over orders that were selected, each of which it may move.
use scope_guard.Base.{
  ℕ, ◌≡◌, refl, sym, ap, subst, inl, inr, true, some, List, [], ◌∷◌, get, edit, Exec, sum_each, ◌⊎◌,
  All, bind_cases,
}
use scope_guard.Base.Unique.{Unique, Differs, Found, Found-edit}
use scope_guard.ChangeOrders.Tables.{ChangeOrderStatus, ChangeOrder, Office, order_id}
use scope_guard.ChangeOrders.Office.{moved_order}
use scope_guard.ChangeOrders.Lifecycle.Frames.{orders}
use scope_guard.ChangeOrders.Lifecycle.Changes.{
  Change, Follows-refl, Moved, Moved-edit, Moved-same, Moved-trans, may_become,
}

-- A loop over rows that were selected, whose body changes no order but its own.
abbrev pub Outcome : ChangeOrderStatus → ChangeOrder → List ChangeOrder → List ChangeOrder → Type 0
Outcome t o L M = (M ≡ L) ⊎ (M ≡ edit o.id (moved_order t) L)

module _ (t : ChangeOrderStatus) (body : ChangeOrder → Exec Office ℕ)
    (only : (o : ChangeOrder) (s : Office) → Outcome t o (orders s) (orders (body o s).1)) where
  turn :
      (o : ChangeOrder) (L M cs : List ChangeOrder)
      → Outcome t o L M
      → may_become t o.status ≡ true
      → Unique L
      → get o.id L ≡ some o
      → All (Differs o) cs
      → Found L cs
      → Moved L M × Found M cs
  unfolding moved_order
  turn o L M cs (inl e) h u at d g = (Moved-same L M e u, subst (λ x. Found x cs) (sym e) g)
  turn o L M cs (inr e) h u at d g =
      let c : Change o (moved_order t o) = record {
        allowed = h;
        counted = refl;
        same_id = refl;
        same_tenant = refl;
        same_project = refl;
        same_request = refl;
        same_number = refl;
      } in
      subst (λ x. Moved L x × Found x cs) (sym e)
        (
          Moved-edit L o (moved_order t) (λ x. refl) c u at,
          Found-edit o (moved_order t) L cs (λ x. refl) d g,
        )

  pub sum_each-Moved :
      (os : List ChangeOrder) (s : Office)
      → All (λ o. may_become t o.status ≡ true) os
      → Unique os
      → Found (orders s) os
      → Unique (orders s)
      → Moved (orders s) (orders (sum_each body os s).1)
  unfolding sum_each
  sum_each-Moved [] s a v g u = (u, Follows-refl (orders s))
  sum_each-Moved (o ∷ os) s a v g u =
      let first = turn o (orders s) (orders (body o s).1) os (only o s) a.0 u g.0 v.0 g.1 in
      bind_cases (λ x. Moved (orders s) (orders x.1)) (body o) _ s
        (λ n w e.
          let same : (body o s).1 ≡ w = ap (λ x. x.1) e in
          let (moved, rest) =
            subst (λ x. Moved (orders s) (orders x) × Found (orders x) os) same first in
          Moved-trans (orders s) (orders w) _ moved (
            bind_cases (λ x. Moved (orders w) (orders x.1)) (sum_each body os) _ w
              (λ m z q.
                subst (λ x. Moved (orders w) (orders x)) (ap (λ x. x.1) q)
                  (sum_each-Moved os w a.1 v.1 rest moved.0))
              (λ f z q.
                subst (λ x. Moved (orders w) (orders x)) (ap (λ x. x.1) q)
                  (sum_each-Moved os w a.1 v.1 rest moved.0))))
        (λ f w e. subst (λ x. Moved (orders s) (orders x)) (ap (λ x. x.1) e) first.0)
