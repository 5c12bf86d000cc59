-- ===== src/ChangeOrders/Lifts.antt =====
-- Conditions carried through calls of the other components, and to the receipt of an acceptance.
use scope_guard.Base.{ℕ, String, Exec, Result, ok, err}
use scope_guard.Base.Does.{Does, Anything, Post-Anything}
use scope_guard.Base.Yields.{Yields, Out, Yields-pure, Yields-bind, Yields-any}
use scope_guard.Payments.Tables.{PaymentRequest, Ledger, request_id}
use scope_guard.ChangeOrders.Tables.{
  ChangeOrder, Access, Office, order_id, revision_id, capability_id,
}
use scope_guard.ChangeOrders.Sessions.{CapabilityCredentials}
use scope_guard.ChangeOrders.Office.{Desk, on_ledger, on_access}
use scope_guard.ChangeOrders.Acceptance.{with_receipt}
use scope_guard.Base.{
  ℕ, ◌≡◌, sym, ap, ◌∙◌, String, Option, some, List, get, Error, Exec, or_raise, ok,
}
use scope_guard.Base.Does.{Does, Anything, Does-pure, Does-raise_if, Does-lookup, Does-bind}
use scope_guard.Base.Yields.{Yields, Out, Yields-bind}
use scope_guard.Payments.Tables.{PaymentRequest, request_id}
use scope_guard.ChangeOrders.Tables.{
  ChangeOrder, ProposalRevision, Access, Office, order_id, revision_id, capability_id,
}
use scope_guard.ChangeOrders.Sessions.{Scope, session_scope}
use scope_guard.ChangeOrders.Office.{Desk, on_ledger}
use scope_guard.ChangeOrders.Frames.{seen}

-- the views that an acceptance leaves alone until it requests the payment
abbrev pub prices : Office → List ProposalRevision × List PaymentRequest
prices = seen (λ o r q. (r, q))

-- the payment requests alone
abbrev pub payments : Office → List PaymentRequest
payments = seen (λ o r q. q)

pub lifted :
    {A : Type 0} (Q : Ledger → Type 0) (s : Office) (x : Result A × Ledger)
    → Out (λ _ l. Q l) x
    → Out {S = Office} {A = A} (λ _ w. Q w.ledger) (x.0, record s { ledger = x.1 })
lifted Q s (ok a, l) q = q
lifted Q s (err e, l) q = tt

pub on_ledger-Does :
    {A : Type 0} {P : Ledger → Type 0} (m : Exec Ledger A)
    → Does P Anything m
    → Does (λ s. P s.ledger) Anything (on_ledger m)
unfolding on_ledger
on_ledger-Does m h = record {
  keeps = λ s p. h.keeps s.ledger p;
  gives = λ s p. Post-Anything (m s.ledger).0;
}

pub on_access-Does :
    {A : Type 0} {P : Access → Type 0} (Q : Ledger → Type 0) {T : A → Type 0} (m : Exec Access A)
    → Does P T m
    → Does (λ s. P s.access × Q s.ledger) T (on_access m)
unfolding on_access
on_access-Does Q m h = record {
  keeps = λ s p. (h.keeps s.access p.0, p.1);
  gives = λ s p. h.gives s.access p.0;
}

pub with_receipt-Yields :
    {P : Office → Type 0} (T : PaymentRequest → Type 0) (d : Desk) (t u v : String) (k n : ℕ)
    (o : ChangeOrder) (p : PaymentRequest) (m : Exec Office CapabilityCredentials)
    → T p
    → Yields P (with_receipt d t u v k n o p m) (λ x s. T x.payment_request)
unfolding with_receipt
with_receipt-Yields T d t u v k n o p m h =
    Yields-bind m _ (Yields-any m) (λ c. Yields-pure _ (λ s _. h))

module _ (R : List ProposalRevision) where
  looked :
      {A : Type 0} {T : A → Type 0} (f : Access → Option A) (e : Error)
      → ((s : Access) (a : A) → s.revisions ≡ R → f s ≡ some a → T a)
      → Does (λ s. s.revisions ≡ R) T (λ s. or_raise (f s) e s)
  looked f e h = Does-lookup f e h

  -- the revision of a session is the row of its capability's revision
  pub scope-Does :
      (h : String → ℕ) (token : String) (csrf : Option String) (n : ℕ)
      → Does
          (λ s. s.revisions ≡ R)
          (λ (x : Scope). get x.1.revision_id R ≡ some x.2)
          (session_scope h token csrf n)
  unfolding session_scope
  scope-Does h token csrf n =
      Does-bind {R = Anything} _ _ (looked _ Error.validation (λ _ _ _ _. tt)) (λ row _.
        Does-bind _ _ (Does-raise_if _ Error.validation) (λ _ _.
          Does-bind {R = Anything} _ _ (looked _ Error.validation (λ _ _ _ _. tt)) (λ c _.
            Does-bind {R = Anything} _ _ (looked _ Error.validation (λ _ _ _ _. tt)) (λ order _.
              Does-bind {R = λ r. get c.revision_id R ≡ some r} _ _
                (looked _ Error.validation (λ s r e q. ap (λ L. get c.revision_id L) (sym e) ∙ q))
                (λ r found. Does-pure (row, c, r, order) found)))))
