-- ===== src/ChangeOrders/Assembly.antt =====
-- services/change_orders/service.py: a resolved proposal decision becomes a change order that awaits
-- its freelancer, who is notified.
use Prim.Native.String.{◌++◌ as text_append}
use scope_guard.Base.{
  ℕ, ◌+◌, ◌==◌, String, Bool, true, false, not, ◌&&◌, Option, none, some, List, [], ◌∷◌, ◌++◌,
  if◌then◌else◌, str_eq, some_eq, get, edit, find?, max, Error, Exec, pure, raise_if, gets, ask,
  modify, ◌>>=◌, ◌>>◌, num, str, obj, Fields, end, field, get_field, is_none, is_some,
}
use scope_guard.Domain.Auth.{TrustedContext}
use scope_guard.Workers.Tables.{ActionKey}
use scope_guard.Workers.Actions.{ActionRequest, prepare_external_action}
use scope_guard.Payments.Texts.{is_empty}
use scope_guard.ChangeOrders.Tables.{
  ChangeOrderStatus, ChangeOrder, ProposalRevision, RequestStatus, RequestRecord, ClientContact,
  DecisionStatus, AnalysisDecision, AnalysisDraftRevision, NotificationState, Notification, Office,
  order_id, project_id, record_id, decision_id, notification_id,
}
use scope_guard.ChangeOrders.Office.{
  Desk, on_work, fresh, when, find_project, find_request, current_revision, move_request, enqueue,
  is_current_status,
}
use scope_guard.ChangeOrders.Proposals.{new_revision}
use scope_guard.ChangeOrders.Payload.{address, text_of}

-- `get_analysis_decision`
unfoldable pub find_decision : ℕ → ℕ → Office → Option AnalysisDecision
find_decision tenant i s = when (λ d. d.tenant_id == tenant) (get i s.decisions)

unfoldable pub is_draft_of : ℕ → AnalysisDraftRevision → Bool
is_draft_of decision d = d.decision_id == decision && is_current_status d.status

-- the request of a decision, in its project and tenant
unfoldable pub request_for : ℕ → ℕ → Option ℕ → Office → Option RequestRecord
request_for tenant project none s = none
request_for tenant project (some i) s =
    when (λ r. r.project_id == project) (find_request tenant i s)

abbrev pub takes_proposal : RequestStatus → Bool
takes_proposal RequestStatus.opened = true
takes_proposal RequestStatus.proposal_open = true
takes_proposal _ = false

unfoldable pub is_contact : ℕ → ℕ → String → ClientContact → Bool
is_contact tenant client email c =
    c.client_id == client && (c.tenant_id == tenant && str_eq c.normalized_email email)

-- `status.not_in({"CLIENT_APPROVED", "WITHDRAWN", "EXPIRED"})`
abbrev pub is_live : ChangeOrderStatus → Bool
is_live ChangeOrderStatus.client_approved = false
is_live ChangeOrderStatus.withdrawn = false
is_live ChangeOrderStatus.expired = false
is_live _ = true

unfoldable pub is_live_order : ℕ → ℕ → ℕ → ChangeOrder → Bool
is_live_order tenant project request o =
    o.tenant_id == tenant
    && (o.project_id == project && (o.request_id == request && is_live o.status))

-- `coalesce(max(number), 0)` over the orders of a project
unfoldable pub last_number : ℕ → ℕ → List ChangeOrder → ℕ
last_number tenant project [] = 0
last_number tenant project (o ∷ rest) =
    let n = last_number tenant project rest in
    if o.tenant_id == tenant && o.project_id == project then max o.number n else n

unfoldable pub order_row : ℕ → ℕ → ℕ → ℕ → ℕ → ChangeOrder
order_row tenant project request number id = record {
  id = id;
  tenant_id = tenant;
  project_id = project;
  request_id = request;
  number = number;
  current_revision_id = none;
  status = ChangeOrderStatus.draft;
  row_version = 1;
}

-- the insertion of a row, which the primary key refuses where the identity is taken
unfoldable pub add_order : ChangeOrder → Exec Office (Unit {0})
add_order o = do
  taken ← gets (λ s. is_some (get o.id s.access.orders))
  raise_if taken Error.integrity
  modify (λ s. record s { access = record (s.access) { orders = s.access.orders ++ o ∷ [] } })

-- the live order of the request, or a new one with the next number of the project
unfoldable pub open_order : ℕ → ℕ → ℕ → Option ChangeOrder → Exec Office ChangeOrder
open_order tenant project request (some o) = pure o
open_order tenant project request none = do
  last ← gets (λ s. last_number tenant project s.access.orders)
  id ← fresh
  let o = order_row tenant project request (last + 1) id
  add_order o
  pure o

-- `decision.status = "RESOLVED"; decision.row_version += 1`
unfoldable pub resolved : AnalysisDecision → AnalysisDecision
resolved d = record d { status = DecisionStatus.resolved; row_version = d.row_version + 1 }

unfoldable pub resolve_decision : ℕ → Exec Office (Unit {0})
resolve_decision i = modify (λ s. record s { decisions = edit i resolved s.decisions })

-- notifications by their order and revision; SES is the only channel
unfoldable pub is_notice_of : ChangeOrder → ProposalRevision → Notification → Bool
is_notice_of order r n =
    n.tenant_id == order.tenant_id
    && (some_eq n.change_order_id order.id && some_eq n.revision_id r.id)

unfoldable pub notification_row : ChangeOrder → ProposalRevision → String → ℕ → ℕ → Notification
notification_row order r recipient action id = record {
  id = id;
  tenant_id = order.tenant_id;
  change_order_id = some order.id;
  revision_id = some r.id;
  verified_recipient = recipient;
  state = NotificationState.pending;
  action_id = some action;
}

unfoldable pub notify :
    ChangeOrder → ProposalRevision → String → ℕ → Option Notification → Exec Office ℕ
notify order r recipient action (some n) = do
  modify (λ s. record s {
    notifications = edit n.id (λ x. record x { action_id = some action }) s.notifications;
  })
  pure n.id
notify order r recipient action none = do
  id ← fresh
  modify (λ s. record s {
    notifications = s.notifications ++ notification_row order r recipient action id ∷ [];
  })
  pure id

unfoldable pub notice_action : ChangeOrder → ProposalRevision → String → ActionRequest
notice_action order r recipient = record {
  tenant_id = order.tenant_id;
  action_key = ActionKey.change_order_notification order.id r.id;
  provider = "ses";
  operation = "send_change_order";
  approved_payload = obj (
      field "change_order_id" (num order.id) (
        field "revision_id" (num r.id) (
          field "recipient" (str recipient) (
            field "subject" (str (text_append "Approval required: " r.title)) (
              field "token_ciphertext" (str r.token_ciphertext)
                (field "approval_path" (str "/c") end))))));
  project_id = some order.project_id;
}

module _ (desk : Desk) where
  -- `_queue_freelancer_notification`
  unfoldable pub queue_freelancer_notification :
      TrustedContext → ChangeOrder → ProposalRevision → ℕ → Exec Office (Unit {0})
  queue_freelancer_notification context order r now = do
    let recipient = address context.email
    raise_if (is_empty recipient) Error.validation
    action ←
        on_work
          (prepare_external_action desk.host.canonical_sha256 (notice_action order r recipient) now)
    known ← gets (λ s. find? (is_notice_of order r) s.notifications)
    notice ← notify order r recipient action.id known
    enqueue order.tenant_id order.project_id "notification.send"
        (obj (field "action_id" (num action.id) (field "notification_id" (num notice) end)))
        context.correlation_id now
    pure tt

  abbrev pub eligible : Option RequestRecord → Option RequestRecord
  eligible r = when (λ x. takes_proposal x.status) r

  -- `str(payload.get("recipient_email", "")).strip().casefold()`
  abbrev pub recipient_of : Fields → String
  recipient_of draft = address (text_of desk (get_field "recipient_email" draft))

  unfoldable pub assemble_change_order : String → ℕ → TrustedContext → ℕ → Exec Office ChangeOrder
  assemble_change_order token now context i = do
    decision ← ask (find_decision context.tenant_id i) Error.not_found
    raise_if (not (str_eq decision.kind "PROPOSAL_REVIEW")) Error.validation
    draft ← ask (λ s. find? (is_draft_of decision.id) s.drafts) Error.conflict
    project ← ask (find_project context.tenant_id decision.project_id) Error.not_found
    request ←
        ask (λ s. eligible (request_for context.tenant_id project.id decision.request_id s))
          Error.conflict
    raise_if (is_none project.current_scope_version_id) Error.conflict
    contact ←
        ask
          (λ s.
            find? (is_contact context.tenant_id project.client_id (recipient_of draft.payload))
              s.contacts)
          Error.validation
    known ←
        gets (λ s. find? (is_live_order context.tenant_id project.id request.id) s.access.orders)
    order ← open_order context.tenant_id project.id request.id known
    new_revision desk token now order project request contact.id draft.payload
    move_request request.id RequestStatus.proposal_open
    resolve_decision decision.id
    updated ← ask (λ s. get order.id s.access.orders) Error.conflict
    revision ← current_revision updated
    queue_freelancer_notification context updated revision now
    pure updated
