-- ===== src/ChangeOrders/Requested.antt =====
-- What an acceptance keeps of the payment requests: a condition on all of them, which the request of a
-- new revision meets.
use scope_guard.Base.{
  Result, ok, err, ℕ, ◌≡◌, sym, ap, subst, String, Option, none, some, List, [], ◌∷◌, ◌++◌, find?,
  All, is_some, Error, ok, Exec,
}
use scope_guard.Base.Frames.{Frame}
use scope_guard.Base.Does.{Post-Anything, Does, Anything, Does-raise_if, Does-ask, Does-gets}
use scope_guard.Base.Yields.{
  Yields, Out, Yields-bind, Yields-does, Yields-if, Yields-map, Yields-keeps, Does-of_Frame,
}
use scope_guard.Workers.Tables.{ExternalAction}
use scope_guard.Payments.Tables.{PaymentRequest, Ledger, request_id}
use scope_guard.Payments.Links.{dated}
use scope_guard.Payments.Linked.{prepare_payment_link-All}
use scope_guard.ChangeOrders.Tables.{
  revision_id, Access, ChangeOrder, ProposalRevision, Project, ClientCapability, Office, order_id,
}
use scope_guard.ChangeOrders.Office.{Desk, on_ledger}
use scope_guard.ChangeOrders.Acceptance.{
  payment_row, add_payment, request_payment, client_context, accept_new, accept_first, accept_open,
  accept_client,
}
use scope_guard.ChangeOrders.Receipts.{is_payment_for}
use scope_guard.ChangeOrders.Frames.{seen, move_order-Frame}
use scope_guard.ChangeOrders.AcceptanceFrames.{
  acceptance_rules, amend_scope-Frame, accept_consumed-Frame, receipt-Frame, with_receipt-Frame,
}
use scope_guard.Base.{get, get-id}
use scope_guard.ChangeOrders.Lifts.{prices, scope-Does, on_access-Does}

add_payment-Yields :
    (q : PaymentRequest) (l : List PaymentRequest)
    → Yields (λ s. s.requests ≡ l) (add_payment q) (λ _ s. s.requests ≡ l ++ q ∷ [])
unfolding add_payment
add_payment-Yields q l = Yields-does {T = Anything} _ _ (Does-gets _ (λ _ _. tt)) (λ taken _.
    Yields-does _ _ (Does-raise_if taken Error.integrity)
      (λ _ _. record { at = λ s same. ap (λ x. x ++ q ∷ []) same }))

lifted_beside :
    {A : Type 0} (P : Access → Type 0) (Q : Ledger → Type 0) (s : Office) (x : Result A × Ledger)
    → P s.access
    → Out (λ _ l. Q l) x
    → Out {S = Office} {A = A} (λ _ w. P w.access × Q w.ledger) (x.0, record s { ledger = x.1 })
lifted_beside P Q s (ok a, l) p q = (p, q)
lifted_beside P Q s (err e, l) p q = tt

-- `l` are the payment requests before the acceptance and `R` the revisions. `G r i` holds of all
-- requests once the revision `r` has got the request `i`, and gives back the condition.
module _ (R : List ProposalRevision) (l : List PaymentRequest) (I : List PaymentRequest → Type 0)
    (start : I l) (G : ProposalRevision → ℕ → PaymentRequest → Type 0)
    (dates : (r : ProposalRevision) (i n : ℕ) (p : PaymentRequest) → G r i p → G r i (dated p n))
    (insert : (r : ProposalRevision) (c : ClientCapability) (project n i : ℕ)
      → get r.id R ≡ some r
      → find? (is_payment_for r.id) l ≡ none
      → All (G r i) (l ++ payment_row c project r n i ∷ []))
    (back : (r : ProposalRevision) (i : ℕ) (m : List PaymentRequest) → All (G r i) m → I m) where
  abbrev At : Office → Type 0
  At s = (s.access.revisions ≡ R) × (s.ledger.requests ≡ l)

  same : {A : Type 0} (m : Exec Office A) → Frame prices m → Does At Anything m
  unfolding seen
  same m h = Does-of_Frame prices (λ x. (x.0 ≡ R) × (x.1 ≡ l)) m h

  -- the revisions stay, and a condition on the payment requests
  abbrev With : (List PaymentRequest → Type 0) → Office → Type 0
  With P s = (s.access.revisions ≡ R) × P s.ledger.requests

  abbrev Kept : {A : Type 0} → A → Office → Type 0
  Kept _ s = With I s

  kept :
      {A : Type 0} (P : List PaymentRequest → Type 0) (m : Exec Office A)
      → Frame prices m
      → Does (With P) Anything m
  unfolding seen
  kept P m h = Does-of_Frame prices (λ x. (x.0 ≡ R) × P x.1) m h

  linked :
      {A : Type 0} (P : PaymentRequest → Type 0) (m : Exec Ledger A)
      → Does (λ l. All P l.requests) Anything m
      → Does (With (All P)) Anything (on_ledger m)
  unfolding on_ledger
  linked P m h = record {
    keeps = λ s p. (p.0, h.keeps s.ledger p.1);
    gives = λ s p. Post-Anything (m s.ledger).0;
  }

  still : {A : Type 0} (m : Exec Office A) → Frame prices m → Yields At m Kept
  unfolding seen
  still m h = Yields-map m (λ _ s e. (e.0, subst I (sym e.1) start)) (Yields-keeps m (same m h))

  inserted :
      (r : ProposalRevision) (c : ClientCapability) (project n i : ℕ)
      → get r.id R ≡ some r
      → find? (is_payment_for r.id) l ≡ none
      → Yields At
          (on_ledger (add_payment (payment_row c project r n i)))
          (λ _ s. With (All (G r i)) s)
  unfolding on_ledger seen
  inserted r c project n i at e =
      let q = payment_row c project r n i in
      record {
        at = λ s h.
            lifted_beside (λ x. x.revisions ≡ R) (λ x. All (G r i) x.requests) s
              (add_payment q s.ledger) h.0
              ((Yields-map _ (λ _ x p. subst (All (G r i)) (sym p) (insert r c project n i at e))
                  (add_payment-Yields q l)).at
                s.ledger h.1);
      }

  module _ (d : Desk) (t u v : String) (k n : ℕ) (r : ProposalRevision)
      (at : get r.id R ≡ some r) where
    request_payment-Kept :
        (c : ClientCapability) (project : Project) (o : ChangeOrder)
        → find? (is_payment_for r.id) l ≡ none
        → Yields At (request_payment d t u v k n c r project o) Kept
    unfolding request_payment
    request_payment-Kept c project o e = Yields-does _ _ (same _ (search acceptance_rules)) (λ i _.
        Yields-bind _ _ (inserted r c project.id n i at e) (λ _.
          Yields-does _ _ (kept (All (G r i)) _ (search acceptance_rules)) (λ fact _.
            Yields-does _ _ (kept (All (G r i)) _ (search acceptance_rules)) (λ _ _.
              Yields-does _ _
                (linked (G r i) _ (
                  prepare_payment_link-All (G r i) d.host d.settings
                    (client_context d t u v k n c r) n (dates r i n) i))
                (λ _ _.
                  Yields-map _ (λ _ s h. (h.0, back r i s.ledger.requests h.1))
                    (Yields-keeps _ (kept (All (G r i)) _ (search acceptance_rules))))))))

    accept_new-Kept :
        (c : ClientCapability) (o : ChangeOrder) (project : Project) (a : Option ExternalAction)
        (h : ℕ) (key : String)
        → find? (is_payment_for r.id) l ≡ none
        → Yields At (accept_new d t u v k n c r o project a h key) Kept
    unfolding accept_new
    accept_new-Kept c o project a h key e =
        Yields-does _ _ (same _ (search acceptance_rules)) (λ i _.
          Yields-does _ _ (same _ (search acceptance_rules)) (λ _ _.
            Yields-does _ _ (same _ (search acceptance_rules)) (λ _ _.
              Yields-does _ _ (same _ (search acceptance_rules)) (λ _ _.
                Yields-does _ _ (same _ (move_order-Frame _ o.id _)) (λ _ _.
                  Yields-does _ _ (same _ (search acceptance_rules)) (λ _ _.
                    Yields-does _ _ (same _ (search acceptance_rules)) (λ previous _.
                      Yields-does _ _
                        (same _ (amend_scope-Frame _ d t u v k n c r project previous))
                        (λ _ _.
                          Yields-bind {Q = Kept} _ _ (request_payment-Kept c project o e) (λ p.
                            Yields-keeps _ (
                              kept I _ (
                                search
                                  (acceptance_rules, with_receipt-Frame, receipt-Frame))))))))))))

    accept_first-Kept :
        (c : ClientCapability) (o : ChangeOrder) (project : Project) (a : Option ExternalAction)
        (h : ℕ) (key : String) (known : Option PaymentRequest)
        → find? (is_payment_for r.id) l ≡ known
        → Yields At (accept_first d t u v k n c r o project a h key known) Kept
    unfolding accept_first
    accept_first-Kept c o project a h key none e = accept_new-Kept c o project a h key e
    accept_first-Kept c o project a h key (some p) e =
        still _ (search (acceptance_rules, with_receipt-Frame, receipt-Frame))

    accept_open-Kept :
        (c : ClientCapability) (o : ChangeOrder) (project : Project) (version h : ℕ) (key : String)
        → Yields At (accept_open d t u v k n c r o project version h key) Kept
    unfolding accept_open
    accept_open-Kept c o project version h key =
        Yields-does _ _ (Does-raise_if _ Error.conflict) (λ _ _.
          Yields-does {T = Anything} _ _ (Does-gets _ (λ _ _. tt)) (λ a _.
            Yields-does _ _ (Does-raise_if _ Error.conflict) (λ _ _.
              Yields-does _ _ (Does-raise_if _ Error.conflict) (λ _ _.
                Yields-does {T = λ x. find? (is_payment_for r.id) l ≡ x} _ _
                  (Does-gets _ (λ s e. ap (λ x. find? (is_payment_for r.id) x) (sym e.1)))
                  (λ known e. accept_first-Kept c o project a h key known e)))))

  -- the row of a revision is found by its own identity
  own : (j : ℕ) (r : ProposalRevision) → get j R ≡ some r → get r.id R ≡ some r
  own j r e = subst (λ x. get x R ≡ some r) (sym (get-id j R e)) e

  pub accept_client-Kept :
      (d : Desk) (t u v : String) (k n : ℕ) (session csrf : String) (i version revision hash : ℕ)
      (key : String)
      → Yields At (accept_client d t u v k n session csrf i version revision hash key) Kept
  unfolding accept_client
  accept_client-Kept d t u v k n session csrf i version revision hash key =
      Yields-does _ _
        (on_access-Does (λ x. x.requests ≡ l) _ (scope-Does R d.hash session (some csrf) n))
        (λ scope at.
          let (row, c, r, o) = scope in
          Yields-does _ _ (Does-raise_if _ Error.conflict) (λ _ _.
            Yields-does _ _ (Does-raise_if _ Error.validation) (λ _ _.
              Yields-does {T = Anything} _ _ (Does-ask _ Error.conflict (λ _ _ _ _. tt))
                (λ locked _.
                  Yields-does {T = Anything} _ _ (Does-ask _ Error.conflict (λ _ _ _ _. tt))
                    (λ project _.
                      Yields-if (is_some c.consumed_at) _ _
                        (λ _. still _ (accept_consumed-Frame _ d t u v k n c r locked key))
                        (λ _.
                          accept_open-Kept d t u v k n r (own c.revision_id r at) c locked project
                            version hash key))))))
