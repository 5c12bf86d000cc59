-- ===== src/ChangeOrders/Lifecycle/Changes.antt =====
-- The changes that a change order may undergo, and what it is for a table to have undergone them.
use scope_guard.Base.{
  ℕ, ◌+◌, ◌≡◌, sym, ap, subst, ◌∙◌, inl, inr, Bool, true, false, not, some, List, arith, ◌==◌,
  Bool-cases, get, edit, get-edit_self, get-edit_ne, Exec,
}
use scope_guard.Base.Unique.{Unique, Unique-edit}
use scope_guard.Base.Frames.{Frame}
use scope_guard.ChangeOrders.Tables.{ChangeOrderStatus, ChangeOrder, Office, order_id}
use scope_guard.ChangeOrders.Sessions.{awaits_client}
use scope_guard.ChangeOrders.Approvals.{awaits_freelancer}
use scope_guard.ChangeOrders.Sends.{is_send_pending}
use scope_guard.ChangeOrders.Decisions.{is_closed, awaits_decision}
use scope_guard.ChangeOrders.Lifecycle.Frames.{orders}

-- accepted or withdrawn
abbrev pub is_final : ChangeOrderStatus → Bool
is_final ChangeOrderStatus.client_approved = true
is_final ChangeOrderStatus.withdrawn = true
is_final _ = false

-- The statuses that may come before a status: a new revision may follow all but an acceptance and a
-- withdrawal, and so on.
abbrev pub may_become : ChangeOrderStatus → ChangeOrderStatus → Bool
may_become ChangeOrderStatus.draft s = false
may_become ChangeOrderStatus.awaiting_freelancer_approval s = not (is_final s)
may_become ChangeOrderStatus.send_pending s = awaits_freelancer s
may_become ChangeOrderStatus.awaiting_client_approval s = is_send_pending s
may_become ChangeOrderStatus.revision_requested s = awaits_decision s
may_become ChangeOrderStatus.client_approved s = awaits_client s
may_become ChangeOrderStatus.rejected_by_freelancer s = awaits_freelancer s
may_become ChangeOrderStatus.rejected_by_client s = awaits_decision s
may_become ChangeOrderStatus.withdrawn s = not (is_closed s)
may_become ChangeOrderStatus.expired s = awaits_client s

-- One change: an allowed status, the next row version, and nothing else but the current revision.
pub record Change (o p : ChangeOrder) : Type 0 where
  pub allowed : may_become p.status o.status ≡ true
  pub counted : p.row_version ≡ o.row_version + 1
  pub same_id : p.id ≡ o.id
  pub same_tenant : p.tenant_id ≡ o.tenant_id
  pub same_project : p.project_id ≡ o.project_id
  pub same_request : p.request_id ≡ o.request_id
  pub same_number : p.number ≡ o.number

pub data Walk (o : ChangeOrder) : ChangeOrder → Type 0 where
  stay : Walk o o
  step : {p q : ChangeOrder} → Walk o p → Change p q → Walk o q

pub Walk-trans : {o p q : ChangeOrder} → Walk o p → Walk p q → Walk o q
Walk-trans w stay = w
Walk-trans w (step v c) = step (Walk-trans w v) c

-- Every order of the one table is in the other, after some changes.
abbrev pub Follows : List ChangeOrder → List ChangeOrder → Type 0
Follows L M =
    (i : ℕ) (o : ChangeOrder) → get i L ≡ some o → (p : ChangeOrder) × (get i M ≡ some p) × Walk o p

abbrev pub Moved : List ChangeOrder → List ChangeOrder → Type 0
Moved L M = Unique M × Follows L M

pub Follows-refl : (L : List ChangeOrder) → Follows L L
Follows-refl L i o e = (o, e, stay)

pub Follows-trans : (L M N : List ChangeOrder) → Follows L M → Follows M N → Follows L N
Follows-trans L M N f g i o e =
    let (p, at, w) = f i o e in let (q, there, v) = g i p at in (q, there, Walk-trans w v)

pub Moved-trans : (L M N : List ChangeOrder) → Moved L M → Moved M N → Moved L N
Moved-trans L M N f g = (g.0, Follows-trans L M N f.1 g.1)

pub Moved-same : (L M : List ChangeOrder) → M ≡ L → Unique L → Moved L M
Moved-same L M e u = subst (Moved L) (sym e) (u, Follows-refl L)

-- an assignment to one order that is a change
pub Moved-edit :
    (L : List ChangeOrder) (o : ChangeOrder) (f : ChangeOrder → ChangeOrder)
    → ((x : ChangeOrder) → (f x).id ≡ x.id)
    → Change o (f o)
    → Unique L
    → get o.id L ≡ some o
    → Moved L (edit o.id f L)
Moved-edit L o f k c u at = (
  Unique-edit o.id f L k u,
  λ i x e. elim (Bool-cases (o.id == i)) [
    | inr other ↦ (x, get-edit_ne o.id i f L k (λ s. absurd (ground (arith, other, s))) ∙ e, stay)
    | inl hit ↦
        let own : o.id ≡ i = ground (arith, hit) in
        let same : o ≡ x = let q : some o ≡ some x = sym at ∙ ap (λ j. get j L) own ∙ e in cc in
        (
          f o,
          subst (λ j. get j (edit o.id f L) ≡ some (f o)) own (get-edit_self o.id f L k at),
          subst (λ y. Walk y (f o)) same (step stay c),
        )
  ],
)

-- A block under which every order only undergoes changes, however it ends.
pub record Tracks {A : Type 0} (m : Exec Office A) : Type 0 where
  pub at : (s : Office) → Unique (orders s) → Moved (orders s) (orders (m s).1)

-- The same from a state in which `o` is the row of its identity.
pub record From (o : ChangeOrder) {A : Type 0} (m : Exec Office A) : Type 0 where
  pub at :
      (s : Office)
      → Unique (orders s)
      → get o.id (orders s) ≡ some o
      → Moved (orders s) (orders (m s).1)

pub Tracks-of_Frame : {A : Type 0} (m : Exec Office A) → Frame orders m → Tracks m
Tracks-of_Frame m h = record { at = λ s u. Moved-same (orders s) (orders (m s).1) (h.at s) u }

pub From-of_Tracks : {A : Type 0} (o : ChangeOrder) (m : Exec Office A) → Tracks m → From o m
From-of_Tracks o m h = record { at = λ s u e. h.at s u }
