-- ===== src/ChangeOrders/Acceptance.antt =====
-- services/change_orders/service.py: the client accepts the exact revision it was shown. The scope is
-- amended, payment is requested, and the client gets a receipt.
use scope_guard.Base.{
  ℕ, ◌+◌, ◌==◌, String, Bool, true, false, not, ◌&&◌, Option, none, some, [], ◌∷◌, ◌++◌,
  if◌then◌else◌, some_eq, str_eq, get, find?, Error, Exec, pure, raise, raise_if, gets, ask, modify,
  ◌>>=◌, ◌>>◌, num, str, obj, end, field, is_some,
}
use scope_guard.Domain.Auth.{TrustedContext}
use scope_guard.Workers.Tables.{ActionState, ActionKey, ExternalAction, action_id, seconds}
use scope_guard.Workers.Actions.{same_key}
use scope_guard.Payments.Tables.{PaymentStatus, PaymentRequest, Ledger, request_id}
use scope_guard.Payments.Texts.{is_empty}
use scope_guard.Payments.Links.{prepare_payment_link}
use scope_guard.ChangeOrders.Tables.{
  ChangeOrderStatus, ChangeOrder, ProposalRevision, ClientCapability, Project, RequestStatus,
  Approval, Actor, Verdict, Office, order_id, project_id, capability_id, scope_id,
}
use scope_guard.ChangeOrders.Sessions.{CapabilityCredentials, session_scope}
use scope_guard.ChangeOrders.Office.{
  Desk, on_ledger, on_access, fresh, find_order, find_project, move_order, move_request,
  edit_capability, edit_action, add_approval, client_name,
}
use scope_guard.ChangeOrders.Approvals.{approval_row}
use scope_guard.ChangeOrders.Receipts.{
  is_payment_for, receipt_credentials, receipt_credentials_for_existing,
}
use scope_guard.ChangeOrders.Amendments.{amend_scope}

pub record AcceptanceResult : Type 0 where
  pub change_order : ChangeOrder
  pub payment_request : PaymentRequest
  pub receipt : CapabilityCredentials

-- `ExternalAction.action_key == f"change-order-send:{order}:{revision}"`
unfoldable pub is_send_of : ℕ → ℕ → ℕ → ExternalAction → Bool
is_send_of tenant order revision a =
    same_key a.action_key (ActionKey.change_order_send order revision) && a.tenant_id == tenant

-- `state in {"DISPATCHING", "UNKNOWN_OUTCOME"}`
abbrev pub is_in_flight : ActionState → Bool
is_in_flight ActionState.dispatching = true
is_in_flight ActionState.unknown_outcome = true
is_in_flight _ = false

abbrev pub in_flight : Option ExternalAction → Bool
in_flight none = false
in_flight (some a) = is_in_flight a.state

abbrev pub is_eligible : ChangeOrderStatus → Option ExternalAction → Bool
is_eligible ChangeOrderStatus.awaiting_client_approval action = true
is_eligible ChangeOrderStatus.send_pending action = in_flight action
is_eligible _ action = false

abbrev pub is_client : Actor → Bool
is_client Actor.client = true
is_client Actor.freelancer = false

abbrev pub has_key : Option String → String → Bool
has_key none key = false
has_key (some k) key = str_eq k key

-- the client's approval of a revision under an idempotency key
unfoldable pub is_prior : ℕ → String → Approval → Bool
is_prior revision key a =
    a.revision_id == revision && (is_client a.actor_type && has_key a.idempotency_key key)

unfoldable pub payment_row : ClientCapability → ℕ → ProposalRevision → ℕ → ℕ → PaymentRequest
payment_row c project r now id = record {
  id = id;
  tenant_id = c.tenant_id;
  project_id = project;
  accepted_revision_id = r.id;
  total_minor = r.total_minor;
  tax_minor = r.tax_minor;
  currency = r.currency;
  status = PaymentStatus.creation_pending;
  due_at = none;
  expire_at = none;
  paid_at = none;
  row_version = 1;
  created_at = now;
  updated_at = now;
}

-- the insertion of a row, which the primary key refuses where the identity is taken
unfoldable pub add_payment : PaymentRequest → Exec Ledger (Unit {0})
add_payment p = do
  taken ← gets (λ s. is_some (get p.id s.requests))
  raise_if taken Error.integrity
  modify (λ s. record s { requests = s.requests ++ p ∷ [] })

unfoldable pub add_revenue :
    ClientCapability → ChangeOrder → ProposalRevision → ℕ → Exec Office (Unit {0})
add_revenue c order r id = modify (λ s. record s {
  revenue =
      s.revenue
      ++ record {
        id = id;
        tenant_id = c.tenant_id;
        project_id = order.project_id;
        change_order_id = order.id;
        revision_id = r.id;
        amount_minor = r.total_minor;
        tax_minor = r.tax_minor;
        currency = r.currency;
      }
        ∷ [];
})

unfoldable pub consumed : ℕ → ClientCapability → ClientCapability
consumed now c = record c { consumed_at = some now; expires_at = some (now + seconds 2592000) }

-- `receipt_ref` names the revision that the client's own receipt confirms.
unfoldable pub confirmed : ℕ → ExternalAction → ExternalAction
confirmed revision a = record a {
  state = ActionState.receipt_confirmed;
  receipt_ref =
      some
        (obj (field "provenance" (str "client-receipt") (field "revision_id" (num revision) end)));
}

-- an answer of the client proves that a send arrived whose outcome is open
unfoldable pub confirm_send : ℕ → ℕ → Option ExternalAction → Exec Office (Unit {0})
confirm_send revision now none = pure tt
confirm_send revision now (some a) =
    if is_in_flight a.state then edit_action a.id now (confirmed revision) else pure tt

abbrev pub is_offer : ChangeOrder → ClientCapability → ProposalRevision → ℕ → ℕ → ℕ → Bool
is_offer order c r order_id revision_id content_hash =
    order.id == order_id
    && (c.revision_id == revision_id && r.canonical_artifact_hash == content_hash)

-- `token`, `session_token` and `csrf` are those that `secrets` draws, `correlation` what `uuid4` draws.
module _ (desk : Desk) (token session_token csrf : String) (correlation now : ℕ) where
  unfoldable pub with_receipt :
      ChangeOrder
      → PaymentRequest
      → Exec Office CapabilityCredentials
      → Exec Office AcceptanceResult
  with_receipt order p receipt =
      receipt >>= λ c. pure (record { change_order = order; payment_request = p; receipt = c })

  -- an acceptance that is repeated after the capability was consumed
  unfoldable pub accept_again :
      ClientCapability
      → ProposalRevision
      → ChangeOrder
      → Option Approval
      → Option PaymentRequest
      → Exec Office AcceptanceResult
  accept_again c r order (some prior) (some p) =
      with_receipt order p (receipt_credentials_for_existing desk token session_token csrf now c r)
  accept_again c r order none existing = raise Error.conflict
  accept_again c r order (some prior) none = raise Error.conflict

  unfoldable pub client_context : ClientCapability → ProposalRevision → TrustedContext
  client_context c r = record {
    tenant_id = c.tenant_id;
    subject = client_name desk c.client_id;
    email = r.recipient_email;
    email_verified = true;
    correlation_id = correlation;
  }

  -- the payment request of the accepted revision, the revenue, and the link
  unfoldable pub request_payment :
      ClientCapability → ProposalRevision → Project → ChangeOrder → Exec Office PaymentRequest
  request_payment c r project order = do
    id ← fresh
    let p = payment_row c project.id r now id
    on_ledger (add_payment p)
    fact ← fresh
    add_revenue c order r fact
    on_ledger (prepare_payment_link desk.host desk.settings (client_context c r) now id)
    ask (λ s. get id s.ledger.requests) Error.conflict

  -- The baseline of the revision is the current version of the project's scope here.
  -- What a first acceptance writes, from `approval = Approval(…)` on
  unfoldable pub accept_new :
      ClientCapability
      → ProposalRevision
      → ChangeOrder
      → Project
      → Option ExternalAction
      → ℕ
      → String
      → Exec Office AcceptanceResult
  accept_new c r order project action content_hash key = do
    id ← fresh
    add_approval (
        approval_row order c.tenant_id r.id Actor.client (client_name desk c.client_id) content_hash
          Verdict.approved (some key) none now id)
    edit_capability c.id (consumed now)
    confirm_send r.id now action
    move_order order.id ChangeOrderStatus.client_approved
    move_request order.request_id RequestStatus.resolved
    previous ← ask (λ s. get r.baseline_version_id s.scopes) Error.conflict
    amend_scope desk c r project previous
    p ← request_payment c r project order
    updated ← ask (λ s. get order.id s.access.orders) Error.conflict
    with_receipt updated p (receipt_credentials desk token session_token csrf now c r)

  unfoldable pub accept_first :
      ClientCapability
      → ProposalRevision
      → ChangeOrder
      → Project
      → Option ExternalAction
      → ℕ
      → String
      → Option PaymentRequest
      → Exec Office AcceptanceResult
  accept_first c r order project action content_hash key (some p) =
      with_receipt order p (receipt_credentials desk token session_token csrf now c r)
  accept_first c r order project action content_hash key none =
      accept_new c r order project action content_hash key

  -- from the test of the row version on
  unfoldable pub accept_open :
      ClientCapability
      → ProposalRevision
      → ChangeOrder
      → Project
      → ℕ
      → ℕ
      → String
      → Exec Office AcceptanceResult
  accept_open c r order project expected_row_version content_hash key = do
    raise_if (not (order.row_version == expected_row_version)) Error.conflict
    action ← gets (λ s. find? (is_send_of c.tenant_id order.id r.id) s.ledger.db.actions)
    raise_if (not (is_eligible order.status action)) Error.conflict
    raise_if (not (some_eq project.current_scope_version_id r.baseline_version_id)) Error.conflict
    existing ← gets (λ s. find? (is_payment_for r.id) s.ledger.requests)
    accept_first c r order project action content_hash key existing

  unfoldable pub accept_consumed :
      ClientCapability → ProposalRevision → ChangeOrder → String → Exec Office AcceptanceResult
  accept_consumed c r order key = do
    prior ← gets (λ s. find? (is_prior r.id key) s.approvals)
    existing ← gets (λ s. find? (is_payment_for r.id) s.ledger.requests)
    accept_again c r order prior existing

  unfoldable pub accept_client :
      String → String → ℕ → ℕ → ℕ → ℕ → String → Exec Office AcceptanceResult
  accept_client client_session client_csrf i expected_row_version revision_id content_hash key =
      on_access (session_scope desk.hash client_session (some client_csrf) now) >>= λ scope.
      let (row, c, r, order) = scope in
      raise_if (not (is_offer order c r i revision_id content_hash)) Error.conflict >>= λ _.
      raise_if (is_empty key) Error.validation >>= λ _.
      ask (find_order c.tenant_id order.id) Error.conflict >>= λ locked.
      ask (find_project c.tenant_id order.project_id) Error.conflict >>= λ project.
      (if is_some c.consumed_at
        then accept_consumed c r locked key
        else accept_open c r locked project expected_row_version content_hash key)
