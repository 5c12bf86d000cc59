-- ===== src/ChangeOrders/Price.antt =====
-- What an acceptance asks the client to pay.
use scope_guard.Base.{
  ℕ, ◌≡◌, refl, sym, ap, subst, ◌∙◌, String, false, not, Option, none, some, List, [], ◌∷◌, arith,
  find?, find?-All, get, get-id, All, All-append, All-get, All-map, is_some, Error, Exec, gets, ok,
}
use scope_guard.Base.Unique.{none_Differs}
use scope_guard.Base.Frames.{Frame}
use scope_guard.Base.Does.{Does, Anything, Does-raise_if, Does-ask, Does-gets}
use scope_guard.Base.Yields.{
  Yields, Out, Does-of_Frame, Yields-raise, Yields-if, Yields-bind, Yields-does, Yields-known,
  Yields-guard, Yields-of_Does, Yields-map,
}
use scope_guard.Workers.Tables.{ExternalAction}
use scope_guard.Payments.Tables.{PaymentRequest, request_id}
use scope_guard.Payments.Links.{dated}
use scope_guard.Payments.Linked.{prepare_payment_link-All}
use scope_guard.ChangeOrders.Tables.{
  ChangeOrder, ProposalRevision, ClientCapability, Project, Approval, Office, order_id, revision_id,
  capability_id,
}
use scope_guard.ChangeOrders.Office.{Desk, on_ledger}
use scope_guard.ChangeOrders.Acceptance.{
  AcceptanceResult, is_offer, payment_row, add_payment, accept_again, accept_consumed,
  client_context, request_payment, accept_new, accept_first, accept_open, accept_client,
}
use scope_guard.ChangeOrders.Receipts.{is_payment_for}
use scope_guard.ChangeOrders.Frames.{move_order-Frame, seen}
use scope_guard.ChangeOrders.AcceptanceFrames.{acceptance_rules, amend_scope-Frame}
use scope_guard.ChangeOrders.Lifts.{
  prices, scope-Does, lifted, on_access-Does, on_ledger-Does, with_receipt-Yields,
}

-- A payment request asks for the price of a revision.
pub record IsPrice (r : ProposalRevision) (p : PaymentRequest) : Type 0 where
  pub of_revision : p.accepted_revision_id ≡ r.id
  pub total : p.total_minor ≡ r.total_minor
  pub tax : p.tax_minor ≡ r.tax_minor
  pub currency : p.currency ≡ r.currency

-- the same, of the revision that the request names
abbrev pub Priced : List ProposalRevision → PaymentRequest → Type 0
Priced R p = (r : ProposalRevision) × (get p.accepted_revision_id R ≡ some r) × IsPrice r p

module _ (R : List ProposalRevision) where
  abbrev Start : Office → Type 0
  Start s = (s.access.revisions ≡ R) × All (Priced R) s.ledger.requests

  Start-of : {A : Type 0} (m : Exec Office A) → Frame prices m → Does Start Anything m
  unfolding seen
  Start-of m h = Does-of_Frame prices (λ x. (x.0 ≡ R) × All (Priced R) x.1) m h

is_none_of : {A : Type 0} (g : Option A) → is_some g ≡ false → g ≡ none
is_none_of none e = refl
is_none_of (some x) e = cc

module _ (R : List ProposalRevision) (revision hash : ℕ) where
  -- the price of the revision of that identity and that content
  abbrev Charged : PaymentRequest → Type 0
  Charged p =
      (r : ProposalRevision) × (get revision R ≡ some r)
      × (r.canonical_artifact_hash ≡ hash)
      × IsPrice r p

  module _ (r : ProposalRevision) (found : get revision R ≡ some r) where
    same_revision : r.id ≡ revision
    same_revision = get-id revision R found

    existing-IsPrice :
        (s : Office) (p : PaymentRequest)
        → Start R s
        → find? (is_payment_for r.id) s.ledger.requests ≡ some p
        → IsPrice r p
    unfolding is_payment_for
    existing-IsPrice s p h e =
        let ((r', at, price), own) = find?-All (Priced R) _ s.ledger.requests p h.1 e in
        let here : p.accepted_revision_id ≡ revision = ground (arith, own, same_revision) in
        let same : r' ≡ r =
          let q : some r' ≡ some r = sym at ∙ ap (λ i. get i R) here ∙ found in cc in
        subst (λ x. IsPrice x p) same price

    -- a request of that identity asks for the price
    abbrev Own : ℕ → PaymentRequest → Type 0
    Own i q = q.id ≡ i → IsPrice r q

    Own-dated : (i n : ℕ) (p : PaymentRequest) → Own i p → Own i (dated p n)
    unfolding dated
    Own-dated i n p h e =
        let x = h e in
        record { of_revision = x.of_revision; total = x.total; tax = x.tax; currency = x.currency }

    row-IsPrice : (c : ClientCapability) (project n i : ℕ) → IsPrice r (payment_row c project r n i)
    unfolding payment_row
    row-IsPrice c project n i = record {
      of_revision = refl;
      total = refl;
      tax = refl;
      currency = refl;
    }

    add_payment-Own :
        (q : PaymentRequest)
        → IsPrice r q
        → Yields (λ _. Unit {0}) (add_payment q) (λ _ x. All (Own q.id) x.requests)
    unfolding add_payment
    add_payment-Own q h =
        Yields-bind {Q = λ b l. is_some (get q.id l.requests) ≡ b} _ _ (record { at = λ l _. refl })
          (λ taken.
            Yields-bind _ _
              (Yields-guard (λ l. is_some (get q.id l.requests)) taken Error.integrity)
              (λ _. record {
                at = λ l free.
                    All-append (Own q.id) l.requests (q ∷ [])
                      (All-map _ _ (λ x other e. absurd (other (sym e))) l.requests
                        (none_Differs q.id q l.requests refl (is_none_of _ free)))
                      ((λ _. h), tt);
              }))

    inserted-Own :
        (q : PaymentRequest) (i : ℕ)
        → q.id ≡ i
        → IsPrice r q
        → Yields (Start R) (on_ledger (add_payment q)) (λ _ s. All (Own i) s.ledger.requests)
    unfolding on_ledger
    inserted-Own q i e h = record {
      at = λ s p.
          lifted (λ l. All (Own i) l.requests) s (add_payment q s.ledger)
            (subst (λ j. Out (λ _ l. All (Own j) l.requests) (add_payment q s.ledger)) e
              ((add_payment-Own q h).at s.ledger tt));
    }

    row-id : (c : ClientCapability) (project n i : ℕ) → (payment_row c project r n i).id ≡ i
    unfolding payment_row
    row-id c project n i = refl

    Own-of :
        {A : Type 0} (i : ℕ) (m : Exec Office A)
        → Frame prices m
        → Does (λ s. All (Own i) s.ledger.requests) Anything m
    unfolding seen
    Own-of i m h = Does-of_Frame prices (λ x. All (Own i) x.1) m h

    Own-self :
        (i : ℕ) (s : Office) (p : PaymentRequest)
        → All (Own i) s.ledger.requests
        → get i s.ledger.requests ≡ some p
        → IsPrice r p
    Own-self i s p h e = All-get (Own i) i s.ledger.requests p e h (get-id i s.ledger.requests e)

    module _ (d : Desk) (t u v : String) (k n : ℕ) where
      request_payment-IsPrice :
          (c : ClientCapability) (project : Project) (o : ChangeOrder)
          → Yields (Start R) (request_payment d t u v k n c r project o) (λ p _. IsPrice r p)
      unfolding request_payment
      request_payment-IsPrice c project o =
          Yields-does _ _ (Start-of R _ (search acceptance_rules)) (λ i _.
            Yields-bind _ _
              (inserted-Own _ i (row-id c project.id n i) (row-IsPrice c project.id n i))
              (λ _. Yields-does _ _ (Own-of i _ (search acceptance_rules)) (λ fact _.
                Yields-does _ _ (Own-of i _ (search acceptance_rules)) (λ _ _.
                  Yields-does _ _
                    (on_ledger-Does _ (
                      prepare_payment_link-All (Own i) d.host d.settings
                        (client_context d t u v k n c r) n (Own-dated i n) i))
                    (λ _ _.
                      Yields-of_Does _
                        (Does-ask _ Error.conflict (λ s p h e. Own-self i s p h e)))))))

      accept_new-IsPrice :
          (c : ClientCapability) (o : ChangeOrder) (project : Project) (a : Option ExternalAction)
          (h : ℕ) (key : String)
          → Yields
              (Start R)
              (accept_new d t u v k n c r o project a h key)
              (λ x _. IsPrice r x.payment_request)
      unfolding accept_new
      accept_new-IsPrice c o project a h key =
          Yields-does _ _ (Start-of R _ (search acceptance_rules)) (λ i _.
            Yields-does _ _ (Start-of R _ (search acceptance_rules)) (λ _ _.
              Yields-does _ _ (Start-of R _ (search acceptance_rules)) (λ _ _.
                Yields-does _ _ (Start-of R _ (search acceptance_rules)) (λ _ _.
                  Yields-does _ _ (Start-of R _ (move_order-Frame _ o.id _)) (λ _ _.
                    Yields-does _ _ (Start-of R _ (search acceptance_rules)) (λ _ _.
                      Yields-does _ _ (Start-of R _ (search acceptance_rules)) (λ previous _.
                        Yields-does _ _
                          (Start-of R _ (amend_scope-Frame _ d t u v k n c r project previous))
                          (λ _ _. Yields-bind _ _ (request_payment-IsPrice c project o) (λ p.
                            Yields-known _ (λ price.
                              Yields-does {T = Anything} _ _
                                (Does-ask _ Error.conflict (λ _ _ _ _. tt))
                                (λ updated _.
                                  with_receipt-Yields (IsPrice r) d t u v k n updated p _
                                    price)))))))))))

      accept_first-IsPrice :
          (c : ClientCapability) (o : ChangeOrder) (project : Project) (a : Option ExternalAction)
          (h : ℕ) (key : String) (known : Option PaymentRequest)
          → ((p : PaymentRequest) → known ≡ some p → IsPrice r p)
          → Yields
              (Start R)
              (accept_first d t u v k n c r o project a h key known)
              (λ x _. IsPrice r x.payment_request)
      unfolding accept_first
      accept_first-IsPrice c o project a h key none price = accept_new-IsPrice c o project a h key
      accept_first-IsPrice c o project a h key (some p) price =
          with_receipt-Yields (IsPrice r) d t u v k n o p _ (price p refl)

      existing-Does :
          Does
            (Start R)
            (λ o. (p : PaymentRequest) → o ≡ some p → IsPrice r p)
            (gets (λ s. find? (is_payment_for r.id) s.ledger.requests))
      existing-Does = Does-gets _ (λ s h p e. existing-IsPrice s p h e)

      accept_open-IsPrice :
          (c : ClientCapability) (o : ChangeOrder) (project : Project) (version h : ℕ)
          (key : String)
          → Yields
              (Start R)
              (accept_open d t u v k n c r o project version h key)
              (λ x _. IsPrice r x.payment_request)
      unfolding accept_open
      accept_open-IsPrice c o project version h key =
          Yields-does _ _ (Does-raise_if _ Error.conflict) (λ _ _.
            Yields-does {T = Anything} _ _ (Does-gets _ (λ _ _. tt)) (λ a _.
              Yields-does _ _ (Does-raise_if _ Error.conflict) (λ _ _.
                Yields-does _ _ (Does-raise_if _ Error.conflict) (λ _ _.
                  Yields-does _ _ existing-Does
                    (λ known price. accept_first-IsPrice c o project a h key known price)))))

      accept_again-IsPrice :
          (c : ClientCapability) (o : ChangeOrder) (prior : Option Approval)
          (known : Option PaymentRequest)
          → ((p : PaymentRequest) → known ≡ some p → IsPrice r p)
          → Yields
              (Start R)
              (accept_again d t u v k n c r o prior known)
              (λ x _. IsPrice r x.payment_request)
      unfolding accept_again
      accept_again-IsPrice c o (some a) (some p) price =
          with_receipt-Yields (IsPrice r) d t u v k n o p _ (price p refl)
      accept_again-IsPrice c o none known price = Yields-raise Error.conflict
      accept_again-IsPrice c o (some a) none price = Yields-raise Error.conflict

      accept_consumed-IsPrice :
          (c : ClientCapability) (o : ChangeOrder) (key : String)
          → Yields
              (Start R)
              (accept_consumed d t u v k n c r o key)
              (λ x _. IsPrice r x.payment_request)
      unfolding accept_consumed
      accept_consumed-IsPrice c o key =
          Yields-does {T = Anything} _ _ (Does-gets _ (λ _ _. tt)) (λ prior _.
            Yields-does _ _ existing-Does
              (λ known price. accept_again-IsPrice c o prior known price))

  offered :
      (r : ProposalRevision) (c : ClientCapability) (o : ChangeOrder) (i : ℕ)
      → not (is_offer o c r i revision hash) ≡ false
      → (c.revision_id ≡ revision) × (r.canonical_artifact_hash ≡ hash)
  offered r c o i offer = (ground (arith, offer), ground (arith, offer))

  module _ (d : Desk) (t u v : String) (k n : ℕ) where
    accept_client-Charged :
        (session csrf : String) (i version : ℕ) (key : String)
        → Yields
            (Start R)
            (accept_client d t u v k n session csrf i version revision hash key)
            (λ x _. Charged x.payment_request)
    unfolding accept_client
    accept_client-Charged session csrf i version key =
        Yields-does _ _
          (on_access-Does (λ l. All (Priced R) l.requests) _
            (scope-Does R d.hash session (some csrf) n))
          (λ scope found.
            let (row, c, r, o) = scope in
            Yields-does _ _ (Does-raise_if _ Error.conflict) (λ _ offer.
              Yields-does _ _ (Does-raise_if _ Error.validation) (λ _ _.
                Yields-does {T = Anything} _ _ (Does-ask _ Error.conflict (λ _ _ _ _. tt))
                  (λ locked _.
                    Yields-does {T = Anything} _ _ (Does-ask _ Error.conflict (λ _ _ _ _. tt))
                      (λ project _.
                        let (here, same) = offered r c o i offer in
                        let at : get revision R ≡ some r =
                          subst (λ j. get j R ≡ some r) here found in
                        Yields-map _ (λ x s price. (r, at, same, price))
                          (Yields-if (is_some c.consumed_at) _ _
                            (λ _. accept_consumed-IsPrice r at d t u v k n c locked key)
                            (λ _.
                              accept_open-IsPrice r at d t u v k n c locked project version hash
                                key)))))))

-- When payment requests ask for the prices of the revisions they name, and a client's acceptance of a
-- revision under the hash of its content returns, by a first acceptance or by a repeated one, then the
-- payment request it returns asks for the total, tax and currency of the stored revision of that
-- identity, whose content has that hash.
pub accept_client-IsPrice :
    (desk : Desk) (token session_token csrf_token : String) (correlation now : ℕ)
    (session csrf key : String) (i version revision hash : ℕ) (s t : Office) (x : AcceptanceResult)
    → All (Priced s.access.revisions) s.ledger.requests
    → accept_client desk token session_token csrf_token correlation now session csrf i version
        revision hash key s
      ≡ (ok x, t)
    → (r : ProposalRevision) × (get revision s.access.revisions ≡ some r)
      × (r.canonical_artifact_hash ≡ hash)
      × IsPrice r x.payment_request
accept_client-IsPrice desk token st ct k n session csrf key i version revision hash s t x all e =
    subst (Out (λ y _. Charged s.access.revisions revision hash y.payment_request)) e (
      (accept_client-Charged s.access.revisions revision hash desk token st ct k n session csrf i
          version key).at
        s (refl, all))
