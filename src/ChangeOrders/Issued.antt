-- ===== src/ChangeOrders/Issued.antt =====
-- What is issued with a new revision.
use scope_guard.Base.{
  ℕ, ◌≤◌, ◌≡◌, refl, ap, subst, String, Option, none, some, List, [], ◌∷◌, ◌++◌, arith, Error,
  Result, ok, err, Exec, lift, Fields,
}
use scope_guard.Base.Does.{Does, Anything, Post-Anything, Does-pure, Does-raise_if, Does-bind}
use scope_guard.Base.Yields.{Yields, Out, Yields-pure, Yields-bind, Yields-does}
use scope_guard.ChangeOrders.Tables.{
  ChangeOrder, ProposalRevision, Project, RequestRecord, ClientCapability, Office,
}
use scope_guard.ChangeOrders.Office.{Desk, add_capability}
use scope_guard.ChangeOrders.Proposals.{revision_row, review_row, new_revision}
use scope_guard.ChangeOrders.Payload.{
  max_total_minor, total_in, tax_in, Proposal, build, proposal_payload,
}
use scope_guard.ChangeOrders.Notices.{review_url, url_of, materialize_client_approval_url}

-- the result of a pure step, where it returns
pub Does-lift : {S A : Type 0} {P : S → Type 0} (r : Result A) → Does P (λ a. r ≡ ok a) (lift r)
Does-lift (ok a) = record { keeps = λ s p. p; gives = λ s p. refl }
Does-lift (err e) = record { keeps = λ s p. p; gives = λ s p. tt }

abbrev pub Free : Office → Type 0
Free s = Unit {0}

pub free : {A : Type 0} (m : Exec Office A) → Does Free Anything m
free m = record { keeps = λ s p. tt; gives = λ s p. Post-Anything (m s).0 }

total_bounds : (o : Option ℕ) (n : ℕ) → total_in o ≡ ok n → (1 ≤ n) × (n ≤ max_total_minor)
unfolding total_in
total_bounds none n e = absurd cc
total_bounds (some m) n e = (ground (arith, e), ground (arith, e))

tax_bounds : (total : ℕ) (o : Option ℕ) (n : ℕ) → tax_in total o ≡ ok n → n ≤ total
unfolding tax_in
tax_bounds total none n e = absurd cc
tax_bounds total (some m) n e = ground (arith, e)

-- a price within the limit of a change order, with a tax of at most all of it
pub record IsBounded (total tax : ℕ) : Type 0 where
  pub positive : 1 ≤ total
  pub limited : total ≤ max_total_minor
  pub taxed : tax ≤ total

module _ (desk : Desk) where
  proposal-IsBounded :
      (draft : Fields) (baseline version contact : ℕ)
      → Does Free
          (λ p. IsBounded p.total_minor p.tax_minor)
          (proposal_payload desk draft baseline version contact)
  unfolding proposal_payload build
  proposal-IsBounded draft baseline version contact = Does-bind _ _ (Does-lift _) (λ terms _.
      Does-bind _ _ (Does-lift _) (λ total h. Does-bind _ _ (Does-lift _) (λ tax k.
        Does-bind _ _ (Does-raise_if _ Error.validation) (λ _ _.
          Does-bind _ _ (Does-lift _) (λ deliverables _.
            Does-bind _ _ (Does-lift _) (λ exclusions _.
              Does-bind _ _ (Does-lift _) (λ assumptions _. Does-bind _ _ (Does-lift _) (λ hashes _.
                Does-bind _ _ (Does-lift _) (λ evidence _.
                  let (low, high) = total_bounds _ total h in
                  Does-pure _ (record {
                    positive = low;
                    limited = high;
                    taxed = tax_bounds total _ tax k;
                  }))))))))))

  -- What stands behind a new revision: a bounded price, an encrypted token that gives the review's
  -- link, and last in the table the capability that the token opens.
  pub record IsIssued (token : String) (r : ProposalRevision) (t : Office) : Type 0 where
    pub bounded : IsBounded r.total_minor r.tax_minor
    pub link : materialize_client_approval_url desk r ≡ ok (review_url desk token)
    pub capability : ClientCapability
    pub before : List ClientCapability
    pub stored : t.access.capabilities ≡ before ++ capability ∷ []
    pub opened_by : capability.token_hash ≡ desk.hash token
    pub of_revision : capability.revision_id ≡ r.id
    pub of_content : capability.content_hash ≡ r.canonical_artifact_hash

  link_of_token :
      (r : ProposalRevision) (token : String)
      → desk.unprotect r.token_ciphertext ≡ ok token
      → materialize_client_approval_url desk r ≡ ok (review_url desk token)
  unfolding materialize_client_approval_url
  link_of_token r token e = ap (url_of desk) e

  module _ (inverse : (k c : String) → desk.protect k ≡ ok c → desk.unprotect c ≡ ok k)
      (token : String) (now : ℕ) (order : ChangeOrder) (project : Project) where
    issued :
        (previous : Option ProposalRevision) (p : Proposal) (preference : ℕ) (c : String) (i k : ℕ)
        (s : Office)
        → IsBounded p.total_minor p.tax_minor
        → desk.protect token ≡ ok c
        → let r = revision_row desk order project previous p preference c now i in
          IsIssued token r (add_capability (review_row desk order project r token now k) s).1
    unfolding add_capability review_row revision_row
    issued previous p preference c i k s b e =
        let r = revision_row desk order project previous p preference c now i in
        record {
          bounded = b;
          link = link_of_token r token (inverse token c e);
          capability = review_row desk order project r token now k;
          before = s.access.capabilities;
          stored = refl;
          opened_by = refl;
          of_revision = refl;
          of_content = refl;
        }

    new_revision-Yields :
        (request : RequestRecord) (contact : ℕ) (draft : Fields)
        → Yields Free
            (new_revision desk token now order project request contact draft)
            (λ r t. IsIssued token r t)
    unfolding new_revision add_capability
    new_revision-Yields request contact draft = Yields-does _ _ (free _) (λ baseline _.
        Yields-does _ _ (proposal-IsBounded draft baseline request.request_version contact) (λ p b.
          Yields-does _ _ (free _) (λ previous _. Yields-does _ _ (free _) (λ _ _.
            Yields-does _ _ (free _) (λ preference _. Yields-does _ _ (Does-lift _) (λ c e.
              Yields-does _ _ (free _) (λ i _. Yields-does _ _ (free _) (λ _ _.
                Yields-does _ _ (free _) (λ _ _. Yields-does _ _ (free _) (λ k _.
                  Yields-bind
                    {Q = λ _ t.
                      IsIssued token (revision_row desk order project previous p preference c now i)
                        t}
                    _ _ (record { at = λ s _. issued previous p preference c i k s b e })
                    (λ _. Yields-pure _ (λ t h. h))))))))))))

  -- A revision that is created carries a total of one paisa to the limit with a tax of at most the
  -- total. Its link, as it is made for the freelancer, holds the token that was drawn for it, where
  -- decryption undoes encryption, and the last capability of the table opens with that token and is for
  -- this revision and the hash of its content.
  pub new_revision-IsIssued :
      (token : String) (now contact : ℕ) (order : ChangeOrder) (project : Project)
      (request : RequestRecord) (draft : Fields) (s t : Office) (r : ProposalRevision)
      → ((k c : String) → desk.protect k ≡ ok c → desk.unprotect c ≡ ok k)
      → new_revision desk token now order project request contact draft s ≡ (ok r, t)
      → IsIssued token r t
  new_revision-IsIssued token now contact order project request draft s t r inverse e =
      subst (Out (λ x u. IsIssued token x u)) e
        ((new_revision-Yields inverse token now order project request contact draft).at s tt)
