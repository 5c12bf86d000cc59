-- ===== src/ChangeOrders/Proposals.antt =====
-- services/change_orders/service.py: proposals become revisions of change orders.
use scope_guard.Base.{
  ℕ, ◌+◌, ◌==◌, String, Bool, true, false, ◌&&◌, Option, none, some, List, [], ◌∷◌, ◌++◌,
  if◌then◌else◌, get, edit, Error, Result, err, Exec, pure, raise_if, lift, ask, modify, is_none,
  ◌>>=◌, ◌>>◌, Json, str, arr, obj, Fields, end, field, get_field,
}
use scope_guard.Domain.Auth.{TrustedContext}
use scope_guard.Payments.Texts.{get_or}
use scope_guard.ChangeOrders.Tables.{
  ChangeOrderStatus, ChangeOrder, RevisionStatus, ProposalRevision, Purpose, ClientCapability,
  Project, RequestRecord, Office, order_id, revision_id, capability_id, project_id, record_id,
  contact_id, decision_id, notification_id,
}
use scope_guard.ChangeOrders.Office.{
  Desk, fresh, find_order, find_project, find_request, current_revision, edit_revision,
  add_capability,
}
use scope_guard.ChangeOrders.Payload.{Proposal, artifact, found, proposal_payload, text_of}

module _ (desk : Desk) where
  -- `UUID(str(terms["preference_version_id"]))`
  unfoldable pub preference_of : Fields → Result ℕ
  preference_of terms = elim (get_field "preference_version_id" terms) [
    | none ↦ err Error.key_error
    | some v ↦ found (desk.uuid_of (text_of desk (some v))) Error.value_error
  ]

  -- `str(terms.get("currency", "INR"))`
  abbrev pub currency_of : Fields → String
  currency_of terms = text_of desk (get_or (get_field "currency" terms) (some (str "INR")))

  -- `_current_revision(session, order) if order.current_revision_id else None`
  unfoldable pub previous_of : ChangeOrder → Option ℕ → Exec Office (Option ProposalRevision)
  previous_of order none = pure none
  previous_of order (some i) = current_revision order >>= λ r. pure (some r)

  unfoldable pub revoke_spent : ℕ → ℕ → ClientCapability → ClientCapability
  revoke_spent order now c =
      if c.change_order_id == order && is_none c.revoked_at
      then record c { revoked_at = some now; consumed_at = some now }
      else c

  unfoldable pub revoke_all : ℕ → ℕ → List ClientCapability → List ClientCapability
  revoke_all order now [] = []
  revoke_all order now (c ∷ rest) = revoke_spent order now c ∷ revoke_all order now rest

  unfoldable pub revoke_reviews : ℕ → ℕ → Exec Office (Unit {0})
  revoke_reviews order now = modify (λ s. record s {
    access = record (s.access) { capabilities = revoke_all order now s.access.capabilities };
  })

  unfoldable pub superseded : ProposalRevision → ProposalRevision
  superseded r = record r { status = RevisionStatus.superseded }

  -- the previous revision is superseded, and what opens the order is revoked
  unfoldable pub supersede : ℕ → ℕ → Option ProposalRevision → Exec Office (Unit {0})
  supersede order now none = pure tt
  supersede order now (some r) = edit_revision r.id superseded >> revoke_reviews order now

  abbrev pub next_number : Option ProposalRevision → ℕ
  next_number none = 1
  next_number (some r) = r.revision_number + 1

  -- the row of the table, and what the payment service reads of it
  unfoldable pub add_revision : ProposalRevision → Exec Office (Unit {0})
  add_revision r = modify (λ s. record s {
    access = record (s.access) { revisions = s.access.revisions ++ r ∷ [] };
    ledger = record (s.ledger) {
      recipients = s.ledger.recipients ++ (r.tenant_id, r.id, r.recipient_email) ∷ [];
    };
  })

  unfoldable pub with_revision : ℕ → ChangeOrder → ChangeOrder
  with_revision revision o = record o {
    current_revision_id = some revision;
    status = ChangeOrderStatus.awaiting_freelancer_approval;
    row_version = o.row_version + 1;
  }

  unfoldable pub point_order : ℕ → ℕ → Exec Office (Unit {0})
  point_order i revision = modify (λ s. record s {
    access = record (s.access) { orders = edit i (with_revision revision) s.access.orders };
  })

  unfoldable pub revision_row :
      ChangeOrder
      → Project
      → Option ProposalRevision
      → Proposal
      → ℕ
      → String
      → ℕ
      → ℕ
      → ProposalRevision
  revision_row order project previous p preference ciphertext now id = record {
    id = id;
    tenant_id = order.tenant_id;
    project_id = project.id;
    change_order_id = order.id;
    revision_number = next_number previous;
    baseline_version_id = p.baseline_version_id;
    request_version = p.request_version;
    preference_version_id = preference;
    total_minor = p.total_minor;
    tax_minor = p.tax_minor;
    currency = currency_of p.terms;
    title = p.title;
    requested_change = p.requested_change;
    deliverables = p.deliverables;
    exclusions = p.exclusions;
    assumptions = p.assumptions;
    client_explanation = p.client_explanation;
    recipient_contact_id = p.recipient_contact_id;
    recipient_email = p.recipient_email;
    subject = p.subject;
    plain_text_body = p.plain_text_body;
    html_body = p.html_body;
    attachment_hashes = p.attachment_hashes;
    terms_json = p.terms;
    evidence_digest = desk.host.canonical_sha256 (arr p.evidence_reference_ids);
    evidence_reference_ids = p.evidence_reference_ids;
    canonical_artifact_hash = desk.host.canonical_sha256 (artifact p);
    approval_url = "/c";
    token_ciphertext = ciphertext;
    status = RevisionStatus.current;
    created_at = now;
  }

  unfoldable pub review_row :
      ChangeOrder → Project → ProposalRevision → String → ℕ → ℕ → ClientCapability
  review_row order project r token now id = record {
    id = id;
    tenant_id = order.tenant_id;
    project_id = project.id;
    change_order_id = order.id;
    revision_id = r.id;
    client_id = project.client_id;
    token_hash = desk.hash token;
    content_hash = r.canonical_artifact_hash;
    purpose = Purpose.review;
    activated_at = none;
    expires_at = none;
    consumed_at = none;
    revoked_at = none;
    created_at = now;
  }

  module _ (token : String) (now : ℕ) where
    -- `_new_revision`; `token` is what `secrets` draws
    unfoldable pub new_revision :
        ChangeOrder → Project → RequestRecord → ℕ → Fields → Exec Office ProposalRevision
    new_revision order project request contact draft = do
      baseline ← ask (λ _. project.current_scope_version_id) Error.conflict
      p ← proposal_payload desk draft baseline request.request_version contact
      previous ← previous_of order order.current_revision_id
      supersede order.id now previous
      preference ← lift (preference_of p.terms)
      ciphertext ← lift (desk.protect token)
      id ← fresh
      let r = revision_row order project previous p preference ciphertext now id
      add_revision r
      point_order order.id id
      capability ← fresh
      add_capability (review_row order project r token now capability)
      pure r

    abbrev pub is_spent : ChangeOrderStatus → Bool
    is_spent ChangeOrderStatus.client_approved = true
    is_spent ChangeOrderStatus.withdrawn = true
    is_spent _ = false

    -- `edits.get(name, default)` before the current content
    abbrev pub edited : Fields → String → Json → Fields → Fields
    edited edits name v rest =
        field name (elim (get_field name edits) [ none ↦ v | some e ↦ e ]) rest

    unfoldable pub edited_draft : Fields → ProposalRevision → Fields
    edited_draft edits r = edited edits "title" (str r.title) (
        edited edits "requested_change" (str r.requested_change) (
          edited edits "deliverables" (arr r.deliverables) (
            edited edits "exclusions" (arr r.exclusions) (
              edited edits "assumptions" (arr r.assumptions) (
                edited edits "client_explanation" (str r.client_explanation) (
                  edited edits "subject" (str r.subject) (
                    edited edits "plain_text_body" (str r.plain_text_body) (
                      edited edits "html_body" (str r.html_body) (
                        field "recipient_email" (str r.recipient_email) (
                          field "evidence_reference_ids" (arr r.evidence_reference_ids)
                            (field "terms" (obj r.terms_json) end)))))))))))

    unfoldable pub create_revision : TrustedContext → ℕ → Fields → Exec Office ProposalRevision
    create_revision context i edits = do
      order ← ask (find_order context.tenant_id i) Error.not_found
      raise_if (is_spent order.status) Error.conflict
      current ← current_revision order
      project ← ask (find_project context.tenant_id order.project_id) Error.not_found
      request ← ask (find_request context.tenant_id order.request_id) Error.conflict
      contact ← ask (λ s. get current.recipient_contact_id s.contacts) Error.conflict
      new_revision order project request contact.id (edited_draft edits current)
