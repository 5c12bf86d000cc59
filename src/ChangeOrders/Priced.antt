-- ===== src/ChangeOrders/Priced.antt =====
-- Every payment request asks for the price of its revision, before and after an acceptance.
use scope_guard.Base.{
  ℕ, ◌≡◌, refl, sym, subst, String, some, List, [], ◌∷◌, get, All, All-append, ok,
}
use scope_guard.Base.Yields.{Out}
use scope_guard.Payments.Tables.{PaymentRequest}
use scope_guard.Payments.Links.{dated}
use scope_guard.ChangeOrders.Tables.{ProposalRevision, ClientCapability, Office, revision_id}
use scope_guard.ChangeOrders.Office.{Desk}
use scope_guard.ChangeOrders.Acceptance.{AcceptanceResult, payment_row, accept_client}
use scope_guard.ChangeOrders.Price.{Priced}
use scope_guard.ChangeOrders.Requested.{accept_client-Kept}

Priced-dated :
    (R : List ProposalRevision) (n : ℕ) (p : PaymentRequest) → Priced R p → Priced R (dated p n)
unfolding dated
Priced-dated R n p (r, found, x) = (
  r,
  found,
  record { of_revision = x.of_revision; total = x.total; tax = x.tax; currency = x.currency },
)

Priced-row :
    (R : List ProposalRevision) (r : ProposalRevision) (c : ClientCapability) (project n i : ℕ)
    → get r.id R ≡ some r
    → Priced R (payment_row c project r n i)
unfolding payment_row
Priced-row R r c project n i found =
    (r, found, record { of_revision = refl; total = refl; tax = refl; currency = refl })

-- When every payment request asks for the total, tax and currency of the stored revision that it names,
-- that is so after a client's acceptance that returns.
pub accept_client-Priced :
    (desk : Desk) (token session_token csrf_token : String) (correlation now : ℕ)
    (session csrf key : String) (i version revision hash : ℕ) (s t : Office) (x : AcceptanceResult)
    → All (Priced s.access.revisions) s.ledger.requests
    → accept_client desk token session_token csrf_token correlation now session csrf i version
        revision hash key s
      ≡ (ok x, t)
    → All (Priced t.access.revisions) t.ledger.requests
accept_client-Priced d tk st ct k n session csrf key i version revision hash s t x all e =
    let R = s.access.revisions in
    let (same, after) : (t.access.revisions ≡ R) × All (Priced R) t.ledger.requests =
      subst (Out (λ y w. (w.access.revisions ≡ R) × All (Priced R) w.ledger.requests)) e (
        (accept_client-Kept R s.ledger.requests (All (Priced R)) all (λ r j. Priced R)
            (λ r j m. Priced-dated R m)
            (λ r c project m j found _.
              All-append (Priced R) s.ledger.requests (payment_row c project r m j ∷ []) all
                (Priced-row R r c project m j found, tt))
            (λ r j l h. h) d tk st ct k n session csrf i version revision hash key).at
          s (refl, refl)) in
    subst (λ L. All (Priced L) t.ledger.requests) (sym same) after
