-- ===== src/ChangeOrders/Decisions.antt =====
-- services/change_orders/service.py: the other ends of an offer. Its freelancer rejects or waives it,
-- or withdraws it; its client rejects it or asks for changes.
use scope_guard.Base.{
  ℕ, ◌==◌, String, Bool, true, false, not, ◌&&◌, Option, none, some, List, [], ◌∷◌, if◌then◌else◌,
  str_eq, ltb, get, filter, Error, Exec, pure, raise_if, gets, ask, ◌>>=◌, ◌>>◌, bool, num, obj,
  end, field, is_some,
}
use scope_guard.Domain.Auth.{TrustedContext}
use scope_guard.Workers.Tables.{ActionState, ActionKey, ExternalAction, action_id}
use scope_guard.Workers.Actions.{cancel_action}
use scope_guard.Payments.Texts.{is_empty}
use scope_guard.ChangeOrders.Tables.{
  ChangeOrderStatus, ChangeOrder, ProposalRevision, ClientCapability, RequestStatus, RequestRecord,
  Actor, Verdict, Office, order_id, capability_id, record_id,
}
use scope_guard.ChangeOrders.Sessions.{is_review, session_scope, revoke_capabilities}
use scope_guard.ChangeOrders.Office.{
  Desk, on_work, on_access, fresh, find_order, find_project, current_revision, move_order,
  close_request, edit_capability, add_approval, enqueue, audit_change_order, client_name,
}
use scope_guard.ChangeOrders.Approvals.{awaits_freelancer, approval_row}
use scope_guard.ChangeOrders.Acceptance.{in_flight}

-- `action_key LIKE 'change-order-send:{order}:%'`
abbrev pub is_send_key : ActionKey → ℕ → Bool
is_send_key (ActionKey.change_order_send o r) order = o == order
is_send_key _ order = false

unfoldable pub is_send_for : ChangeOrder → ExternalAction → Bool
is_send_for order a = is_send_key a.action_key order.id && a.tenant_id == order.tenant_id

-- `ORDER BY created_at DESC`, the first row
unfoldable pub later_action : ExternalAction → Option ExternalAction → Option ExternalAction
later_action a none = some a
later_action a (some b) = if ltb a.created_at b.created_at then some b else some a

unfoldable pub newest_action : List ExternalAction → Option ExternalAction
newest_action [] = none
newest_action (a ∷ rest) = later_action a (newest_action rest)

unfoldable pub send_of : ChangeOrder → Office → Option ExternalAction
send_of order s = newest_action (filter (is_send_for order) s.ledger.db.actions)

-- `state in {"READY", "RETRY_WAIT"}`
abbrev pub is_unsent : ActionState → Bool
is_unsent ActionState.ready = true
is_unsent ActionState.retry_wait = true
is_unsent _ = false

unfoldable pub cancel_unsent : ℕ → Option ExternalAction → Exec Office (Unit {0})
cancel_unsent now none = pure tt
cancel_unsent now (some a) =
    if is_unsent a.state then on_work (cancel_action a.id now) >> pure tt else pure tt

-- `_cancel_pending_send`
unfoldable pub cancel_pending_send : ℕ → ChangeOrder → Exec Office (Unit {0})
cancel_pending_send now order = gets (send_of order) >>= λ a. cancel_unsent now a

abbrev pub is_given : Option String → Bool
is_given none = false
is_given (some s) = not (is_empty s)

abbrev pub freelancer_verdict : String → Option Verdict
freelancer_verdict s =
    if str_eq s "REJECTED"
    then some Verdict.rejected
    else (if str_eq s "WAIVED" then some Verdict.waived else none)

abbrev pub is_rejected : Verdict → Bool
is_rejected Verdict.rejected = true
is_rejected _ = false

abbrev pub client_verdict : String → Option Verdict
client_verdict s =
    if str_eq s "REQUEST_CHANGES"
    then some Verdict.request_changes
    else (if str_eq s "REJECTED" then some Verdict.rejected else none)

abbrev pub is_closed : ChangeOrderStatus → Bool
is_closed ChangeOrderStatus.client_approved = true
is_closed ChangeOrderStatus.withdrawn = true
is_closed ChangeOrderStatus.expired = true
is_closed ChangeOrderStatus.rejected_by_client = true
is_closed ChangeOrderStatus.rejected_by_freelancer = true
is_closed _ = false

abbrev pub awaits_decision : ChangeOrderStatus → Bool
awaits_decision ChangeOrderStatus.awaiting_client_approval = true
awaits_decision _ = false

abbrev pub is_open_offer : ChangeOrder → ClientCapability → ProposalRevision → ℕ → ℕ → ℕ → Bool
is_open_offer order c r i revision_id content_hash =
    (is_review c.purpose && not (is_some c.consumed_at))
    && (order.id == i && (r.id == revision_id && r.canonical_artifact_hash == content_hash))

unfoldable pub consumed_now : ℕ → ClientCapability → ClientCapability
consumed_now now c = record c { consumed_at = some now }

module _ (desk : Desk) (now : ℕ) where
  module _ (context : TrustedContext) where
    abbrev pub freelancer_target : Bool → ChangeOrderStatus
    freelancer_target rejected =
        if rejected then ChangeOrderStatus.rejected_by_freelancer else ChangeOrderStatus.withdrawn

    unfoldable pub freelancer_decide : ℕ → String → Option String → Exec Office ChangeOrder
    freelancer_decide i decision comment = do
      verdict ← ask (λ _. freelancer_verdict decision) Error.validation
      let rejected = is_rejected verdict
      order ← ask (find_order context.tenant_id i) Error.not_found
      raise_if (not (awaits_freelancer order.status)) Error.conflict
      r ← current_revision order
      id ← fresh
      add_approval (
          approval_row order order.tenant_id r.id Actor.freelancer context.subject
            r.canonical_artifact_hash verdict none comment now id)
      move_order order.id (freelancer_target rejected)
      close_request order.request_id
          (if rejected then RequestStatus.declined else RequestStatus.waived) comment
      on_access (revoke_capabilities order.id now)
      audit_change_order desk order context.subject
          (if rejected then "freelancer_rejected" else "freelancer_waived")
          (freelancer_target rejected) context.correlation_id
          (field "comment_present" (bool (is_given comment)) end) now
      ask (λ s. get order.id s.access.orders) Error.not_found

    unfoldable pub withdraw_change_order : ℕ → Option String → Exec Office ChangeOrder
    withdraw_change_order i reason = do
      order ← ask (find_order context.tenant_id i) Error.not_found
      raise_if (is_closed order.status) Error.conflict
      action ← gets (send_of order)
      raise_if (in_flight action) Error.conflict
      move_order order.id ChangeOrderStatus.withdrawn
      close_request order.request_id RequestStatus.declined reason
      cancel_pending_send now order
      on_access (revoke_capabilities order.id now)
      audit_change_order desk order context.subject "withdraw" ChangeOrderStatus.withdrawn
          context.correlation_id (field "reason_present" (bool (is_given reason)) end) now
      ask (λ s. get order.id s.access.orders) Error.not_found

  -- the freelancer's review of a request for changes, where the request is there
  unfoldable pub ask_review :
      Bool
      → Option RequestRecord
      → ClientCapability
      → ChangeOrder
      → ProposalRevision
      → ℕ
      → Exec Office (Unit {0})
  ask_review true (some q) c order r correlation = do
    enqueue c.tenant_id order.project_id "change_order.freelancer_review"
        (obj (field "change_order_id" (num order.id) (field "revision_id" (num r.id) end)))
        correlation now
    pure tt
  ask_review _ _ c order r correlation = pure tt

  abbrev pub client_target : Bool → ChangeOrderStatus
  client_target rejected =
      if rejected
      then ChangeOrderStatus.rejected_by_client
      else ChangeOrderStatus.revision_requested

  -- what a decision of the client writes; the correlations are those that `uuid4` draws
  unfoldable pub record_client_decision :
      ClientCapability
      → ProposalRevision
      → ChangeOrder
      → Verdict
      → ℕ
      → Option String
      → ℕ
      → ℕ
      → Exec Office ChangeOrder
  record_client_decision c r order verdict content_hash comment job_correlation correlation = do
    let rejected = is_rejected verdict
    edit_capability c.id (consumed_now now)
    id ← fresh
    add_approval (
        approval_row order c.tenant_id r.id Actor.client (client_name desk c.client_id) content_hash
          verdict none comment now id)
    move_order order.id (client_target rejected)
    request ← gets (λ s. get order.request_id s.requests)
    close_request order.request_id
        (if rejected then RequestStatus.declined else RequestStatus.proposal_open) comment
    ask_review (not rejected) request c order r job_correlation
    on_access (revoke_capabilities order.id now)
    audit_change_order desk order (client_name desk c.client_id)
        (if rejected then "client_reject" else "client_request_changes") (client_target rejected)
        correlation (field "comment_present" (bool (is_given comment)) end) now
    ask (λ s. get order.id s.access.orders) Error.not_found

  unfoldable pub client_decide :
      String → String → ℕ → ℕ → ℕ → ℕ → String → Option String → ℕ → ℕ → Exec Office ChangeOrder
  client_decide client_session client_csrf i expected_row_version revision_id content_hash decision
        comment job_correlation correlation =
      ask (λ _. client_verdict decision) Error.validation >>= λ verdict.
      on_access (session_scope desk.hash client_session (some client_csrf) now) >>= λ scope.
      let (row, c, r, order) = scope in
      raise_if (not (is_open_offer order c r i revision_id content_hash)) Error.conflict >>= λ _.
      ask (find_project c.tenant_id order.project_id) Error.conflict >>= λ project.
      ask (find_order c.tenant_id order.id) Error.conflict >>= λ locked.
      raise_if (not (locked.row_version == expected_row_version)) Error.conflict >>= λ _.
      raise_if (not (awaits_decision locked.status)) Error.conflict >>= λ _.
      record_client_decision c r locked verdict content_hash comment job_correlation correlation
