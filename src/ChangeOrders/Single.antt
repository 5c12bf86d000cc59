-- ===== src/ChangeOrders/Single.antt =====
-- A revision is charged by one payment request.
use scope_guard.Base.{
  ℕ, ◌≡◌, refl, sym, subst, String, false, none, List, [], ◌∷◌, ◌++◌, arith, ◌==◌, if◌then◌else◌,
  find?, find?-none, All, All-append, All-map, All-zip, ok,
}
use scope_guard.Base.Yields.{Out, Yields-map}
use scope_guard.Payments.Tables.{PaymentRequest, request_id}
use scope_guard.Payments.Links.{dated}
use scope_guard.ChangeOrders.Tables.{ProposalRevision, ClientCapability, Office, order_id}
use scope_guard.ChangeOrders.Office.{Desk}
use scope_guard.ChangeOrders.Acceptance.{AcceptanceResult, payment_row, accept_client}
use scope_guard.ChangeOrders.Receipts.{is_payment_for}
use scope_guard.ChangeOrders.Requested.{accept_client-Kept}
use scope_guard.ChangeOrders.Frames.{seen}

-- `f` gives the payment request of each revision
abbrev pub By : (ℕ → ℕ) → PaymentRequest → Type 0
By f p = p.id ≡ f p.accepted_revision_id

-- Each revision that is named by payment requests is named by those of one identity.
abbrev pub IsSingle : List PaymentRequest → Type 0
IsSingle l = (f : ℕ → ℕ) × All (By f) l

By-dated : (f : ℕ → ℕ) (n : ℕ) (p : PaymentRequest) → By f p → By f (dated p n)
unfolding dated
By-dated f n p h = h

-- the assignment with one more revision
abbrev with_payment : (ℕ → ℕ) → ℕ → ℕ → ℕ → ℕ
with_payment f revision i n = if n == revision then i else f n

elsewhere :
    (f : ℕ → ℕ) (revision i : ℕ) (p : PaymentRequest)
    → is_payment_for revision p ≡ false
    → By f p
    → By (with_payment f revision i) p
unfolding is_payment_for
elsewhere f revision i p other h = rw other h

here : (f : ℕ → ℕ) (revision i : ℕ) → with_payment f revision i revision ≡ i
here f revision i = ground arith

inserted-By :
    (f : ℕ → ℕ) (q : PaymentRequest) (l : List PaymentRequest)
    → All (By f) l
    → find? (is_payment_for q.accepted_revision_id) l ≡ none
    → All (By (with_payment f q.accepted_revision_id q.id)) (l ++ q ∷ [])
inserted-By f q l h e =
    let g = with_payment f q.accepted_revision_id q.id in
    All-append (By g) l (q ∷ [])
      (All-map _ _ (λ p x. elsewhere f q.accepted_revision_id q.id p x.0 x.1) l
        (All-zip _ _ l (find?-none _ l e) h))
      (sym (here f q.accepted_revision_id q.id), tt)

inserted-Single :
    (f : ℕ → ℕ) (l : List PaymentRequest) (r : ProposalRevision) (c : ClientCapability)
    (project n i : ℕ)
    → All (By f) l
    → find? (is_payment_for r.id) l ≡ none
    → All (By (with_payment f r.id i)) (l ++ payment_row c project r n i ∷ [])
unfolding payment_row
inserted-Single f l r c project n i h e = inserted-By f (payment_row c project r n i) l h e

-- When each revision is named by payment requests of at most one identity, that is so after a client's
-- acceptance that returns, whether it is the first or a repeated one: no revision is charged twice.
pub accept_client-IsSingle :
    (desk : Desk) (token session_token csrf_token : String) (correlation now : ℕ)
    (session csrf key : String) (i version revision hash : ℕ) (s t : Office) (x : AcceptanceResult)
    → IsSingle s.ledger.requests
    → accept_client desk token session_token csrf_token correlation now session csrf i version
        revision hash key s
      ≡ (ok x, t)
    → IsSingle t.ledger.requests
unfolding seen
accept_client-IsSingle d tk st ct k n session csrf key i version revision hash s t x single e =
    let (f, all) = single in
    subst (Out (λ y w. IsSingle w.ledger.requests)) e (
      (Yields-map _ (λ _ w h. h.1)
          (accept_client-Kept s.access.revisions s.ledger.requests IsSingle single
            (λ r j. By (with_payment f r.id j)) (λ r j m. By-dated (with_payment f r.id j) m)
            (λ r c project m j _. inserted-Single f s.ledger.requests r c project m j all)
            (λ r j l h. (with_payment f r.id j, h)) d tk st ct k n session csrf i version revision
            hash key)).at
        s (refl, refl))
