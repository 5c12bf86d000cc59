-- ===== src/ChangeOrders/Receipts.antt =====
-- services/change_orders/service.py: the receipts that a client gets for its acceptance.
use scope_guard.Base.{
  ℕ, ◌+◌, ◌==◌, String, Bool, not, ◌&&◌, ◌||◌, Option, none, some, List, find?, filter, Error, Exec,
  raise_if, gets, ◌>>=◌, ◌>>◌, is_none,
}
use scope_guard.Workers.Tables.{action_id, seconds}
use scope_guard.Payments.Tables.{PaymentRequest, PaymentLinkAttempt, request_id}
use scope_guard.Payments.Links.{newest, is_created}
use scope_guard.ChangeOrders.Tables.{
  ChangeOrder, ProposalRevision, Purpose, ClientCapability, Office, order_id, project_id,
  capability_id, scope_id,
}
use scope_guard.ChangeOrders.Sessions.{
  is_review, is_approved, CapabilityCredentials, newest as newest_capability, open_session,
  session_scope,
}
use scope_guard.ChangeOrders.Office.{Desk, on_access, fresh, add_capability}

unfoldable pub is_payment_for : ℕ → PaymentRequest → Bool
is_payment_for revision p = p.accepted_revision_id == revision

unfoldable pub receipt_row :
    Desk → ClientCapability → ProposalRevision → String → ℕ → ℕ → ClientCapability
receipt_row desk source r token now id = record {
  id = id;
  tenant_id = source.tenant_id;
  project_id = source.project_id;
  change_order_id = source.change_order_id;
  revision_id = r.id;
  client_id = source.client_id;
  token_hash = desk.hash token;
  content_hash = r.canonical_artifact_hash;
  purpose = Purpose.receipt;
  activated_at = some now;
  expires_at = some (now + seconds 2592000);
  consumed_at = none;
  revoked_at = none;
  created_at = now;
}

-- `token`, `session_token` and `csrf` are those that `secrets` draws.
module _ (desk : Desk) (token session_token csrf : String) (now : ℕ) where
  -- `_receipt_credentials`
  unfoldable pub receipt_credentials :
      ClientCapability → ProposalRevision → Exec Office CapabilityCredentials
  receipt_credentials source r = do
    id ← fresh
    let c = receipt_row desk source r token now id
    add_capability c
    on_access (open_session desk.hash c Purpose.receipt token session_token csrf now)

  unfoldable pub reopen_receipt :
      ClientCapability
      → ProposalRevision
      → Option ClientCapability
      → Exec Office CapabilityCredentials
  reopen_receipt source r none = receipt_credentials source r
  reopen_receipt source r (some c) =
      on_access (open_session desk.hash c Purpose.receipt "" session_token csrf now)

  unfoldable pub is_receipt_of : ClientCapability → ProposalRevision → ClientCapability → Bool
  is_receipt_of source r c =
      c.change_order_id == source.change_order_id
      && (c.revision_id == r.id
          && (c.client_id == source.client_id
              && (not (is_review c.purpose) && is_none c.revoked_at)))

  -- `_receipt_credentials_for_existing`
  unfoldable pub receipt_credentials_for_existing :
      ClientCapability → ProposalRevision → Exec Office CapabilityCredentials
  receipt_credentials_for_existing source r = do
    receipt ← gets (λ s. newest_capability (filter (is_receipt_of source r) s.access.capabilities))
    reopen_receipt source r receipt

-- the newest link that was created for a payment
unfoldable pub is_created_for : ℕ → PaymentLinkAttempt → Bool
is_created_for payment a = a.payment_request_id == payment && is_created a.status

-- What a receipt shows beside the identities of its order and revision.
pub record Receipt : Type 0 where
  pub change_order : ChangeOrder
  pub revision_id : ℕ
  pub payment : Option PaymentRequest
  pub link : Option PaymentLinkAttempt

abbrev pub link_of : Option PaymentRequest → List PaymentLinkAttempt → Option PaymentLinkAttempt
link_of none links = none
link_of (some p) links = newest (filter (is_created_for p.id) links)

unfoldable pub verify_receipt_session : Desk → ℕ → String → Exec Office Receipt
verify_receipt_session desk now client_session =
    on_access (session_scope desk.hash client_session none now) >>= λ scope.
    let (row, c, r, order) = scope in
    raise_if (is_review c.purpose || not (is_approved order.status)) Error.validation >>= λ _.
    gets (λ s. find? (is_payment_for r.id) s.ledger.requests) >>= λ payment. gets (λ s. record {
      change_order = order;
      revision_id = r.id;
      payment = payment;
      link = link_of payment s.ledger.links;
    })
