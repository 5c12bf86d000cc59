-- ===== src/ChangeOrders/Accepted.antt =====
-- What stands behind an acceptance that returns.
use scope_guard.Base.{
  ℕ, ◌≡◌, refl, sym, ap, subst, ◌∙◌, String, Bool, true, false, not, Option, none, some, arith,
  ◌==◌, some_eq, find?, is_some, Error, Result, ok, err, Exec, gets, ask,
}
use scope_guard.Base.Frames.{Frame}
use scope_guard.Base.Does.{Does, Post, Does-raise_if, Does-ask, Does-gets}
use scope_guard.Base.Yields.{
  Yields, Out, Yields-raise, Yields-does, Yields-any, Yields-map, Yields-if,
}
use scope_guard.Payments.Tables.{PaymentRequest}
use scope_guard.ChangeOrders.Tables.{
  ChangeOrder, ProposalRevision, Project, ClientCapability, Approval, Access, Office,
}
use scope_guard.ChangeOrders.Sessions.{Scope, session_scope}
use scope_guard.ChangeOrders.Office.{Desk, on_access, find_order, find_project}
use scope_guard.ChangeOrders.Acceptance.{
  AcceptanceResult, is_offer, is_send_of, is_eligible, is_prior, accept_again, accept_consumed,
  accept_open, accept_client,
}
use scope_guard.ChangeOrders.Frames.{scope-Frame}

-- a first acceptance: the order is as it was shown, its offer is open, and the scope is its baseline
pub record IsOpen (c : ClientCapability) (r : ProposalRevision) (order : ChangeOrder)
    (project : Project) (version : ℕ) (s : Office) : Type 0 where
  pub unchanged : order.row_version ≡ version
  pub eligible :
      is_eligible order.status (find? (is_send_of c.tenant_id order.id r.id) s.ledger.db.actions)
      ≡ true
  pub baseline : some_eq project.current_scope_version_id r.baseline_version_id ≡ true

-- a repeated one: the client has approved the revision under the same key before
abbrev pub IsRepeat : ProposalRevision → String → Office → Type 0
IsRepeat r key s = (prior : Approval) × (find? (is_prior r.id key) s.approvals ≡ some prior)

pub record IsAccepted (desk : Desk) (session csrf key : String) (now i version revision hash : ℕ)
    (s : Office) : Type 0 where
  pub scope : Scope
  pub order : ChangeOrder
  pub project : Project
  pub in_scope : (session_scope desk.hash session (some csrf) now s.access).0 ≡ ok scope
  pub found : find_order scope.1.tenant_id scope.3.id s ≡ some order
  pub in_project : find_project scope.1.tenant_id scope.3.project_id s ≡ some project
  pub shown :
      (scope.3.id ≡ i) × (scope.1.revision_id ≡ revision) × (scope.2.canonical_artifact_hash ≡ hash)
  pub first : is_some scope.1.consumed_at ≡ false → IsOpen scope.1 scope.2 order project version s
  pub again : is_some scope.1.consumed_at ≡ true → IsRepeat scope.2 key s

offered :
    (o : ChangeOrder) (c : ClientCapability) (r : ProposalRevision) (i revision hash : ℕ)
    → not (is_offer o c r i revision hash) ≡ false
    → (o.id ≡ i) × (c.revision_id ≡ revision) × (r.canonical_artifact_hash ≡ hash)
offered o c r i revision hash e = (ground (arith, e), ground (arith, e), ground (arith, e))

equal : (a b : ℕ) → not (a == b) ≡ false → a ≡ b
equal a b e = ground (arith, e)

holds : (b : Bool) → not b ≡ false → b ≡ true
holds true e = refl
holds false e = cc

own : {A : Type 0} (r : Result A) → Post (λ a. r ≡ ok a) r
own (ok a) = refl
own (err e) = tt

module _ (s : Office) where
  -- up to the writes, the state is the one before the call
  abbrev At : Office → Type 0
  At x = x ≡ s

  asked : {A : Type 0} (f : Office → Option A) (e : Error) → Does At (λ a. f s ≡ some a) (ask f e)
  asked f e = Does-ask f e (λ x a p q. ap f (sym p) ∙ q)

  got : {A : Type 0} (f : Office → A) → Does At (λ a. f s ≡ a) (gets f)
  got f = Does-gets f (λ x p. ap f (sym p))

  read :
      {A : Type 0} (m : Exec Access A)
      → Frame (λ a. a) m
      → Does At (λ a. (m s.access).0 ≡ ok a) (on_access m)
  unfolding on_access
  read m h = record {
    keeps = λ x p. ap (λ a. record x { access = a }) (h.at x.access) ∙ p;
    gives = λ x p.
        subst (λ y. Post (λ a. (m s.access).0 ≡ ok a) (m y.access).0) (sym p) (own (m s.access).0);
  }

  module _ (d : Desk) (t u v : String) (k n : ℕ) where
    again-Yields :
        (c : ClientCapability) (r : ProposalRevision) (o : ChangeOrder) (key : String)
        (prior : Option Approval) (p : Option PaymentRequest)
        → find? (is_prior r.id key) s.approvals ≡ prior
        → Yields At (accept_again d t u v k n c r o prior p) (λ _ _. IsRepeat r key s)
    unfolding accept_again
    again-Yields c r o key (some a) (some p) e = Yields-map _ (λ _ _ _. (a, e)) (Yields-any _)
    again-Yields c r o key none p e = Yields-raise Error.conflict
    again-Yields c r o key (some a) none e = Yields-raise Error.conflict

    consumed-Yields :
        (c : ClientCapability) (r : ProposalRevision) (o : ChangeOrder) (key : String)
        → Yields At (accept_consumed d t u v k n c r o key) (λ _ _. IsRepeat r key s)
    unfolding accept_consumed
    consumed-Yields c r o key =
        Yields-does _ _ (got _)
          (λ prior e. Yields-does _ _ (got _) (λ p _. again-Yields c r o key prior p e))

    accept_open-Yields :
        (c : ClientCapability) (r : ProposalRevision) (o : ChangeOrder) (project : Project)
        (version hash : ℕ) (key : String)
        → Yields At
            (accept_open d t u v k n c r o project version hash key)
            (λ _ _. IsOpen c r o project version s)
    unfolding accept_open
    accept_open-Yields c r o project version hash key =
        Yields-does _ _ (Does-raise_if _ _) (λ _ unchanged. Yields-does _ _ (got _) (λ a send.
          Yields-does _ _ (Does-raise_if _ _) (λ _ eligible.
            Yields-does _ _ (Does-raise_if _ _) (λ _ baseline.
              Yields-map _
                (λ _ _ _. record {
                  unchanged = equal o.row_version version unchanged;
                  eligible = ap (is_eligible o.status) send ∙ holds _ eligible;
                  baseline = holds _ baseline;
                })
                (Yields-any _)))))

    accept-Yields :
        (session csrf key : String) (i version revision hash : ℕ)
        → Yields At
            (accept_client d t u v k n session csrf i version revision hash key)
            (λ _ _. IsAccepted d session csrf key n i version revision hash s)
    unfolding accept_client
    accept-Yields session csrf key i version revision hash =
        Yields-does _ _ (read _ (scope-Frame (λ a. a) d.hash session (some csrf) n))
          (λ scope in_scope.
            let (row, c, r, o) = scope in
            Yields-does _ _ (Does-raise_if _ _) (λ _ offer.
              Yields-does _ _ (Does-raise_if _ _) (λ _ _.
                Yields-does _ _ (asked _ _) (λ order found.
                  Yields-does _ _ (asked _ _) (λ project in_project.
                    let accepted : (is_some c.consumed_at ≡ false
                          → IsOpen c r order project version s)
                        → (is_some c.consumed_at ≡ true → IsRepeat r key s)
                        → IsAccepted d session csrf key n i version revision hash s =
                      λ first again. record {
                        scope = scope;
                        order = order;
                        project = project;
                        in_scope = in_scope;
                        found = found;
                        in_project = in_project;
                        shown = offered o c r i revision hash offer;
                        first = first;
                        again = again;
                      } in
                    Yields-if (is_some c.consumed_at) _ _
                      (λ spent.
                        Yields-map _ (λ _ _ h. accepted (λ e. absurd cc) (λ _. h))
                          (consumed-Yields c r order key))
                      (λ unspent.
                        Yields-map _ (λ _ _ h. accepted (λ _. h) (λ e. absurd cc))
                          (accept_open-Yields c r order project version hash key)))))))

-- When a client's acceptance returns, its session stands for a capability of the revision that was
-- shown, with the hash that was shown, of the order that is named. Where the capability was not spent,
-- the order has the row version that was shown and awaits its client, or is being sent and its send is
-- under way or in doubt, and the scope of the project is still the revision's baseline. Where it
-- was spent, the client has approved the revision under the same idempotency key before.
pub accept_client-IsAccepted :
    (desk : Desk) (token session_token csrf_token : String) (correlation now : ℕ)
    (session csrf key : String) (i version revision hash : ℕ) (s t : Office) (x : AcceptanceResult)
    → accept_client desk token session_token csrf_token correlation now session csrf i version
        revision hash key s
      ≡ (ok x, t)
    → IsAccepted desk session csrf key now i version revision hash s
accept_client-IsAccepted d tk st ct k n session csrf key i version revision hash s t x e =
    subst (Out (λ _ _. IsAccepted d session csrf key n i version revision hash s)) e
      ((accept-Yields s d tk st ct k n session csrf key i version revision hash).at s refl)
