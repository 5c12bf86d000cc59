-- ===== src/ChangeOrders/Scenarios.antt =====
-- The change orders' operations at a concrete order.
use scope_guard.Payments.Texts.{is_space, lower, lower_char, strip, strip_left, strip_right, truthy}
use scope_guard.Workers.Jobs.{enqueue_job, insert_job, new_job, wakeup}
use scope_guard.Workers.Faults.{trip}
use scope_guard.Workers.Actions.{
  allowed, cancel_action, get_action, save_action, transition_action, has_key, new_action,
  prepare_external_action, reuse_or_insert, same_key, close_attempt, last_attempt, write_back,
}
use scope_guard.Payments.Links.{on_db}
use scope_guard.ChangeOrders.Office.{
  audit_change_order, audit_row, close_request, find_order, move_order, moved_order, moved_request,
  on_access, on_ledger, on_work, add_approval, current_revision, edit_capability, enqueue,
  find_project, find_request, fresh, is_revision_of, revision_of, add_capability, edit_revision,
  edit_action,
}
use scope_guard.Base.{
  ◌∷◌, [], num, ◌≡◌, refl, sym, get, none, some, Result, ok, err, obj, str, num, arr, nil, cons,
  Fields, field, end, ask, edit, filter, put, ◌>>=◌, any, find?, get_field,
}
use scope_guard.Workers.Tables.{ActionState, ActionKey, ExternalAction}
use scope_guard.ChangeOrders.Tables.{
  ChangeOrderStatus, ChangeOrder, ProposalRevision, Office, order_id, revision_id,
}
use scope_guard.ChangeOrders.Sessions.{revoke, revoke_capabilities, revoke_each}
use scope_guard.ChangeOrders.Proposals.{
  new_revision, add_revision, point_order, preference_of, previous_of, review_row, revision_row,
  revoke_all, revoke_reviews, revoke_spent, supersede, superseded, with_revision,
}
use scope_guard.ChangeOrders.Payload.{
  text_of, artifact, build, is_missing, list_of, proposal_payload, tax_in, texts_of, total_in,
}
use scope_guard.ChangeOrders.Approvals.{
  approve_freelancer, activated, approval_row, cites_stale, is_cited, is_stale_approval,
  is_stale_source, opens_revision, parsed_ids, record_approval, send_action, send_payload,
}
use scope_guard.ChangeOrders.Acceptance.{accept_client}
use scope_guard.ChangeOrders.Decisions.{
  withdraw_change_order, cancel_pending_send, cancel_unsent, is_send_for, later_action,
  newest_action, send_of,
}
use scope_guard.ChangeOrders.Sent.{IsSent, record_gmail_send_success-IsSent}
use scope_guard.ChangeOrders.Sends.{
  record_gmail_send_success, arrive, await_client, is_approved_content, settle_send, settle_unknown,
}
use scope_guard.ChangeOrders.Exact.{IsApproved, approve_freelancer-IsApproved}
use scope_guard.ChangeOrders.Issued.{IsIssued, new_revision-IsIssued}
use scope_guard.ChangeOrders.Lifecycle.Table.{Course, lifecycle_table}
use scope_guard.ChangeOrders.Lifecycle.Changes.{Walk}
use scope_guard.ChangeOrders.Lifecycle.Run.{Call, Run, Run-Walk, final_kept}
use scope_guard.ChangeOrders.Samples.{
  a_ledger, an_order, a_revision, a_token, a_desk, a_project, a_request, an_office, a_context,
  offered, withdrawn,
}

-- an order that is offered to its client is withdrawn
abbrev after_withdrawal : ChangeOrder
after_withdrawal = record an_order { status = ChangeOrderStatus.withdrawn; row_version = 4 }

withdraws : get 1 withdrawn.access.orders ≡ some after_withdrawal
unfolding get ask edit filter put ◌>>=◌ cancel_pending_send cancel_unsent is_send_for later_action
    newest_action send_of audit_change_order audit_row close_request find_order move_order
    moved_order moved_request on_access on_ledger on_work revoke revoke_capabilities revoke_each
    on_db allowed cancel_action get_action save_action transition_action withdraw_change_order
withdraws = refl

Run-Walk_example : (p : ChangeOrder) × (get 1 withdrawn.access.orders ≡ some p) × Walk an_order p
unfolding get
Run-Walk_example =
    Run-Walk a_desk offered withdrawn 1 an_order (tt, tt)
      (Run.next Run.here (Call.withdraw 50 1 a_context none offered)) refl

lifecycle_table_example :
    (p : ChangeOrder) × (get 1 withdrawn.access.orders ≡ some p) × Course an_order p
unfolding get
lifecycle_table_example =
    lifecycle_table a_desk offered withdrawn 1 an_order (tt, tt)
      (Run.next Run.here (Call.withdraw 50 1 a_context none offered)) refl

-- what is withdrawn cannot be accepted
abbrev reached_again : Office
reached_again =
    (accept_client a_desk a_token "abc" "de" 16 60 "abc" "de" 1 3 4 9 "key"
      (an_office ChangeOrderStatus.withdrawn)).1

final_kept_example :
    get 1 reached_again.access.orders
    ≡ some (record an_order { status = ChangeOrderStatus.withdrawn })
unfolding get
final_kept_example =
    final_kept a_desk (an_office ChangeOrderStatus.withdrawn) reached_again 1
      (record an_order { status = ChangeOrderStatus.withdrawn }) (tt, tt)
      (Run.next Run.here (
        Call.accept a_token "abc" "de" "abc" "de" "key" 16 60 1 3 4 9
          (an_office ChangeOrderStatus.withdrawn)))
      refl refl

abbrev value_or : {A : Type 0} → A → Result A → A
value_or a (ok x) = x
value_or a (err e) = a

-- an order that awaits its freelancer is approved
abbrev awaiting : Office
awaiting = an_office ChangeOrderStatus.awaiting_freelancer_approval

abbrev an_action : ExternalAction
an_action = record {
  id = 100;
  tenant_id = 1;
  project_id = some 3;
  action_key = ActionKey.change_order_send 1 4;
  provider = "gmail";
  operation = "send";
  state = ActionState.ready;
  approved_payload = obj end;
  payload_digest = 7;
  idempotency_key = 7;
  receipt_ref = none;
  uncertainty_reason = none;
  created_at = 50;
  updated_at = 50;
}

abbrev approved : Result (ChangeOrder × ExternalAction) × Office
approved = approve_freelancer a_desk a_context 50 1 3 4 9 awaiting

abbrev sent : ChangeOrder × ExternalAction
sent = value_or (an_order, an_action) approved.0

approves : approved ≡ (ok sent, approved.1)
unfolding approve_freelancer ask edit filter find_order get move_order moved_order on_db on_ledger
    on_work any find? activated approval_row cites_stale is_cited is_stale_approval is_stale_source
    opens_revision parsed_ids record_approval send_action send_payload add_approval current_revision
    edit_capability enqueue find_project find_request fresh is_revision_of revision_of text_of
    has_key new_action prepare_external_action reuse_or_insert same_key trip enqueue_job insert_job
    new_job wakeup ◌>>=◌
approves = refl

approve_freelancer-IsApproved_example : IsApproved a_desk 1 1 3 4 9 50 awaiting sent.1
approve_freelancer-IsApproved_example =
    approve_freelancer-IsApproved a_desk a_context 50 1 3 4 9 awaiting approved.1 sent.0 sent.1
      approves

abbrev a_draft : Fields
a_draft = field "title" (str "Gallery") (
    field "requested_change" (str "a gallery page") (
      field "deliverables" (arr (cons (str "page") nil)) (
        field "client_explanation" (str "not in scope") (
          field "subject" (str "Gallery") (
            field "plain_text_body" (str "please review") (
              field "html_body" (str "<p>please review</p>") (
                field "recipient_email" (str "C@example.com") (
                  field "evidence_reference_ids" (arr (cons (str "15") nil)) (
                    field "terms"
                      (obj (
                        field "total_minor" (num 50000) (
                          field "tax_minor" (num 900)
                            (field "preference_version_id" (str "12") end))))
                      end)))))))))

abbrev revised : Result ProposalRevision × Office
revised = new_revision a_desk a_token 50 an_order a_project a_request 13 a_draft awaiting

abbrev issued : ProposalRevision
issued = value_or a_revision revised.0

revises : revised ≡ (ok issued, revised.1)
unfolding any ask current_revision edit fresh get is_revision_of new_revision revision_of get_field
    add_capability edit_revision add_revision artifact build is_missing list_of point_order
    preference_of previous_of proposal_payload review_row revision_row revoke_all revoke_reviews
    revoke_spent supersede superseded tax_in texts_of total_in with_revision is_space lower
    lower_char strip strip_left strip_right truthy text_of ◌>>=◌
revises = refl

new_revision-IsIssued_example : IsIssued a_desk a_token issued revised.1
new_revision-IsIssued_example =
    new_revision-IsIssued a_desk a_token 50 13 an_order a_project a_request a_draft awaiting
      revised.1 issued (λ k c e. sym e) revises

-- the send is in doubt, and then found to have arrived
abbrev doubted : Office
doubted = record (an_office ChangeOrderStatus.send_pending) {
  ledger = record a_ledger {
    db = record (a_ledger.db) {
      actions =
          record an_action {
            state = ActionState.unknown_outcome;
            approved_payload = obj (
                field "change_order_id" (num 1) (
                  field "recipient" (str "c@example.com") (
                    field "plain_text_body" (str "please review")
                      (field "content_hash" (num 9) end))));
          }
          ∷ [];
    };
  };
}

abbrev arrived : Result ExternalAction × Office
arrived = record_gmail_send_success 60 100 "m1" "c@example.com" "please review" 9 doubted

abbrev sent_action : ExternalAction
sent_action = value_or an_action arrived.0

arrives : arrived ≡ (ok sent_action, arrived.1)
unfolding ask edit edit_action find_order get get_field move_order on_db on_ledger on_work
    record_gmail_send_success arrive await_client is_approved_content settle_send settle_unknown
    close_attempt last_attempt write_back ◌>>=◌
arrives = refl

record_gmail_send_success-IsSent_example : IsSent 100 "c@example.com" "please review" 9 doubted
record_gmail_send_success-IsSent_example =
    record_gmail_send_success-IsSent 60 100 9 "m1" "c@example.com" "please review" doubted arrived.1
      sent_action arrives
