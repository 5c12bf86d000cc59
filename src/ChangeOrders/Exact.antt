-- ===== src/ChangeOrders/Exact.antt =====
-- What is issued and approved is what was proposed.
use scope_guard.Base.{
  ℕ, ◌⊎◌, inl, inr, List, find?, Fields, get_field, num, str, arr, ◌≡◌, refl, sym, ap, subst, ◌∙◌,
  Bool, true, false, not, Option, none, some, arith, ◌==◌, some_eq, Error, Result, ok, err, Exec,
  gets, ask, if◌then◌else◌, obj,
}
use scope_guard.Base.Frames.{Frame, Frame-ask}
use scope_guard.Base.Does.{Does, Post, Anything, Does-raise_if, Does-ask, Does-gets}
use scope_guard.Base.Yields.{
  Yields, Out, Does-of_Frame, Yields-pure, Yields-bind, Yields-known, Yields-does, Yields-map,
  Yields-weaken, given,
}
use scope_guard.Domain.Auth.{TrustedContext}
use scope_guard.Workers.Tables.{Db, ExternalAction}
use scope_guard.Workers.Actions.{
  ActionRequest, new_action, reuse_or_insert, prepare_external_action, has_key,
}
use scope_guard.Payments.Links.{on_db}
use scope_guard.ChangeOrders.Tables.{
  ChangeOrder, ChangeOrderStatus, ProposalRevision, Project, Office, Approval, ClientCapability,
}
use scope_guard.ChangeOrders.Office.{
  Desk, fresh, move_order, edit_capability, add_approval, on_ledger, on_work, find_order,
  find_project, revision_of, current_revision,
}
use scope_guard.ChangeOrders.Approvals.{
  awaits_freelancer, cites_stale, send_payload, send_action, is_stale_approval, record_approval,
  approve_freelancer,
}
use scope_guard.ChangeOrders.Issued.{free}

-- The fields of a mail that sends the revision `content` of `order`.
pub record IsContent (desk : Desk) (order : ChangeOrder) (content : ProposalRevision)
    (payload : Fields) : Type 0 where
  pub of_order : get_field "change_order_id" payload ≡ some (num order.id)
  pub of_revision : get_field "revision_id" payload ≡ some (num content.id)
  pub recipient : get_field "recipient" payload ≡ some (str content.recipient_email)
  pub subject : get_field "subject" payload ≡ some (str content.subject)
  pub text : get_field "plain_text_body" payload ≡ some (str content.plain_text_body)
  pub html : get_field "html_body" payload ≡ some (str content.html_body)
  pub attachments : get_field "attachment_hashes" payload ≡ some (arr content.attachment_hashes)
  pub hash : get_field "content_hash" payload ≡ some (num content.canonical_artifact_hash)

send_payload-IsContent :
    (desk : Desk) (order : ChangeOrder) (content : ProposalRevision)
    → IsContent desk order content (send_payload desk order content)
unfolding send_payload get_field
send_payload-IsContent desk order content = record {
  of_order = refl;
  of_revision = refl;
  recipient = refl;
  subject = refl;
  text = refl;
  html = refl;
  attachments = refl;
  hash = refl;
}

-- An action that holds the request's content, or that was stored under the request's key among the
-- actions `known` with the digest of that content.
pub record IsPrepared (desk : Desk) (r : ActionRequest) (known : List ExternalAction)
    (a : ExternalAction) : Type 0 where
  pub digest : a.payload_digest ≡ desk.host.canonical_sha256 r.approved_payload
  pub holds :
      (a.approved_payload ≡ r.approved_payload)
      ⊎ (find? (has_key desk.host.canonical_sha256 r) known ≡ some a)

module _ (desk : Desk) (r : ActionRequest) (now : ℕ) where
  reused :
      (known : List ExternalAction) (a : ExternalAction) (b : Bool) (db : Db)
      → find? (has_key desk.host.canonical_sha256 r) known ≡ some a
      → (a.payload_digest == desk.host.canonical_sha256 r.approved_payload) ≡ b
      → Post
          (IsPrepared desk r known)
          (let x : Result ExternalAction × Db = if b then (ok a, db) else (err Error.durable, db) in
            x).0
  reused known a true db found e = record { digest = ground (arith, e); holds = inr found }
  reused known a false db found e = tt

  by_key :
      (known : List ExternalAction) (o : Option ExternalAction) (db : Db)
      → find? (has_key desk.host.canonical_sha256 r) known ≡ o
      → Post (IsPrepared desk r known) (reuse_or_insert desk.host.canonical_sha256 r now o db).0
  unfolding reuse_or_insert new_action
  by_key known none db e = record { digest = refl; holds = inl refl }
  by_key known (some a) db e = reused known a _ db e refl

  IsPrepared-Yields :
      (known : List ExternalAction)
      → Yields
          (λ (s : Office). s.ledger.db.actions ≡ known)
          (on_work (prepare_external_action desk.host.canonical_sha256 r now))
          (λ a _. IsPrepared desk r known a)
  unfolding on_work on_ledger on_db prepare_external_action
  IsPrepared-Yields known = record {
    at = λ s p. given (IsPrepared desk r known) _ (
        by_key known _ s.ledger.db (
          ap (λ (xs : List ExternalAction). find? (has_key desk.host.canonical_sha256 r) xs)
            (sym p)));
  }

-- What a freelancer's approval has found and prepared.
pub record IsApproved (desk : Desk) (tenant i version revision hash now : ℕ) (s : Office)
    (a : ExternalAction) : Type 0 where
  pub order : ChangeOrder
  pub content : ProposalRevision
  pub project : Project
  pub found : find_order tenant i s ≡ some order
  pub in_project : find_project tenant order.project_id s ≡ some project
  pub current : revision_of order order.current_revision_id s ≡ some content
  pub shown : (content.id ≡ revision) × (content.canonical_artifact_hash ≡ hash)
  pub unchanged : order.row_version ≡ version
  pub awaiting : awaits_freelancer order.status ≡ true
  pub fresh_baseline : some_eq project.current_scope_version_id content.baseline_version_id ≡ true
  pub fresh_evidence : cites_stale desk tenant project.id content now s ≡ false
  pub payload : Fields
  pub states : IsContent desk order content payload
  pub digest : a.payload_digest ≡ desk.host.canonical_sha256 (obj payload)
  pub holds :
      (a.approved_payload ≡ obj payload)
      ⊎ (find?
            (has_key desk.host.canonical_sha256 (send_action desk tenant order content))
            s.ledger.db.actions
          ≡ some a)

fresh-Frame : Frame (λ (s : Office). s.ledger.db.actions) fresh
unfolding fresh
fresh-Frame = record { at = λ s. refl }

add_approval-Frame : (a : Approval) → Frame (λ (s : Office). s.ledger.db.actions) (add_approval a)
unfolding add_approval
add_approval-Frame a = record { at = λ s. refl }

edit_capability-Frame :
    (i : ℕ) (f : ClientCapability → ClientCapability)
    → Frame (λ (s : Office). s.ledger.db.actions) (edit_capability i f)
unfolding edit_capability
edit_capability-Frame i f = record { at = λ s. refl }

move_order-Frame :
    (i : ℕ) (status : ChangeOrderStatus)
    → Frame (λ (s : Office). s.ledger.db.actions) (move_order i status)
unfolding move_order
move_order-Frame i status = record { at = λ s. refl }

module _ (desk : Desk) (context : TrustedContext) (now : ℕ) where
  abbrev actions : Office → List ExternalAction
  actions s = s.ledger.db.actions

  -- The writes before the action leave the actions alone.
  module _ (known : List ExternalAction) where
    Known : Office → Type 0
    Known s = actions s ≡ known

    still : {A : Type 0} (m : Exec Office A) → Frame actions m → Does Known Anything m
    unfolding Known
    still m h = Does-of_Frame actions (λ xs. xs ≡ known) m h

    record_approval-Yields :
        (o : ChangeOrder) (r : ProposalRevision) (hash : ℕ)
        → Yields Known
            (record_approval desk context now o r hash)
            (λ (x : ChangeOrder × ExternalAction) _.
              IsPrepared desk (send_action desk context.tenant_id o r) known x.1)
    unfolding Known record_approval
    record_approval-Yields o r hash = Yields-does _ _ (still _ fresh-Frame) (λ i _.
        Yields-does _ _ (still _ (add_approval-Frame _)) (λ _ _.
          Yields-does _ _ (still _ (Frame-ask _ _)) (λ capability _.
            Yields-does _ _ (still _ (edit_capability-Frame _ _)) (λ _ _.
              Yields-does _ _ (still _ (move_order-Frame _ _)) (λ _ _.
                Yields-bind _ _
                  (IsPrepared-Yields desk (send_action desk context.tenant_id o r) now known)
                  (λ a. Yields-known _ (λ h. Yields-does _ _ (free _) (λ _ _.
                    Yields-does _ _ (free _)
                      (λ updated _. Yields-pure (updated, a) (λ _ _. h))))))))))

  -- the checks only read
  module _ (s : Office) where
    At : Office → Type 0
    At x = x ≡ s

    asked : {A : Type 0} (f : Office → Option A) (e : Error) → Does At (λ a. f s ≡ some a) (ask f e)
    unfolding At
    asked f e = Does-ask f e (λ x a p q. ap f (sym p) ∙ q)

    got : {A : Type 0} (f : Office → A) → Does At (λ a. f s ≡ a) (gets f)
    unfolding At
    got f = Does-gets f (λ x p. ap f (sym p))

    exact :
        (r : ProposalRevision) (revision hash : ℕ)
        → is_stale_approval r revision hash ≡ false
        → (r.id ≡ revision) × (r.canonical_artifact_hash ≡ hash)
    unfolding is_stale_approval
    exact r revision hash e = (ground (arith, e), ground (arith, e))

    equal : (a b : ℕ) → not (a == b) ≡ false → a ≡ b
    equal a b e = ground (arith, e)

    holds : (b : Bool) → not b ≡ false → b ≡ true
    holds true e = refl
    holds false e = cc

    approve-Yields :
        (i version revision hash : ℕ)
        → Yields At
            (approve_freelancer desk context now i version revision hash)
            (λ (x : ChangeOrder × ExternalAction) _.
              IsApproved desk context.tenant_id i version revision hash now s x.1)
    unfolding approve_freelancer current_revision send_action At Known
    approve-Yields i version revision hash = Yields-does _ _ (asked _ _) (λ o found.
        Yields-does _ _ (asked _ _) (λ project in_project.
          Yields-does _ _ (Does-raise_if _ _) (λ _ unchanged.
            Yields-does _ _ (asked _ _) (λ r current.
              Yields-does _ _ (Does-raise_if _ _) (λ _ shown.
                Yields-does _ _ (Does-raise_if _ _) (λ _ awaiting.
                  Yields-does _ _ (asked _ _) (λ request _.
                    Yields-does _ _ (Does-raise_if _ _) (λ _ _.
                      Yields-does _ _ (Does-raise_if _ _) (λ _ baseline.
                        Yields-does _ _ (got _) (λ stale is_stale.
                          Yields-does _ _ (Does-raise_if _ _) (λ _ not_stale.
                            Yields-weaken _ (λ x p. ap actions p)
                              (Yields-map _
                                (λ x _ prepared. record {
                                  order = o;
                                  content = r;
                                  project = project;
                                  found = found;
                                  in_project = in_project;
                                  current = current;
                                  shown = exact r revision hash shown;
                                  unchanged = equal o.row_version version unchanged;
                                  awaiting = holds _ awaiting;
                                  fresh_baseline = holds _ baseline;
                                  fresh_evidence = is_stale ∙ not_stale;
                                  payload = send_payload desk o r;
                                  states = send_payload-IsContent desk o r;
                                  digest = prepared.digest;
                                  holds = prepared.holds;
                                })
                                (record_approval-Yields s.ledger.db.actions o r hash)))))))))))))

-- When a freelancer's approval returns, the order was in the tenant, awaited its freelancer and had the
-- row version that was shown; its current revision is the one that was shown, by its identity and by
-- the hash of its content; the project's scope is still the revision's baseline and no cited evidence
-- has gone stale. There is a payload with the order's and the revision's identities and that revision's
-- recipient, subject, text, HTML, attachments and content hash, whose digest is that of the action that
-- is returned, and which is the action's approved payload, unless the action was stored before under
-- the same key.
pub approve_freelancer-IsApproved :
    (desk : Desk) (context : TrustedContext) (now i version revision hash : ℕ) (s t : Office)
    (o : ChangeOrder) (a : ExternalAction)
    → approve_freelancer desk context now i version revision hash s ≡ (ok (o, a), t)
    → IsApproved desk context.tenant_id i version revision hash now s a
unfolding At
approve_freelancer-IsApproved desk context now i version revision hash s t o a e =
    subst
      (Out (λ (x : ChangeOrder × ExternalAction) _.
        IsApproved desk context.tenant_id i version revision hash now s x.1))
      e ((approve-Yields desk context now s i version revision hash).at s refl)
