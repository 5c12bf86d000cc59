-- ===== src/ChangeOrders/Acceptances.antt =====
-- An acceptance of a concrete offer.
use scope_guard.Payments.Status.{same_status}
use scope_guard.Payments.Observe.{save_request}
use scope_guard.Payments.Texts.{is_space, lower, lower_char, strip, strip_left, strip_right}
use scope_guard.Workers.Jobs.{enqueue_job, insert_job, new_job, wakeup}
use scope_guard.Workers.Faults.{trip}
use scope_guard.Workers.Actions.{
  has_key, new_action, prepare_external_action, reuse_or_insert, same_key,
}
use scope_guard.Payments.Links.{
  on_db, find_payment, is_payment, prepare_payment_link, active_action, active_link, add_link,
  create_job, dated, find_recipient, is_active, is_numbered, is_of, is_recipient, latest_link,
  link_action, link_fields, new_link, payment_reference, prepare_next, reuse_active,
  newest as newest_link,
}
use scope_guard.ChangeOrders.Office.{
  find_order, move_order, moved_order, moved_request, on_access, on_ledger, on_work, add_approval,
  edit_capability, find_project, fresh, add_capability, move_request, client_name, edit_action,
}
use scope_guard.Base.{
  All, ◌≡◌, refl, get, none, some, Result, ok, ask, edit, filter, put, ◌>>=◌, find?,
}
use scope_guard.ChangeOrders.Tables.{
  ChangeOrderStatus, ProposalRevision, Purpose, Office, order_id, revision_id,
}
use scope_guard.ChangeOrders.Sessions.{has_session, session_scope, newer, newest, open_session}
use scope_guard.ChangeOrders.Approvals.{approval_row}
use scope_guard.ChangeOrders.Acceptance.{
  AcceptanceResult, accept_client, accept_first, accept_new, accept_open, confirm_send, add_payment,
  add_revenue, client_context, payment_row, request_payment, accept_again, accept_consumed,
  confirmed, consumed, is_prior, is_send_of, with_receipt,
}
use scope_guard.ChangeOrders.Receipts.{
  is_payment_for, is_receipt_of, receipt_credentials, receipt_credentials_for_existing, receipt_row,
  reopen_receipt,
}
use scope_guard.ChangeOrders.Amendments.{
  add_amendment, add_scope, amend_scope, copy_items, point_project, is_item_of, last_version,
  scope_row, with_scope,
}
use scope_guard.ChangeOrders.Single.{IsSingle, accept_client-IsSingle}
use scope_guard.ChangeOrders.Accepted.{IsAccepted, accept_client-IsAccepted}
use scope_guard.ChangeOrders.Priced.{accept_client-Priced}
use scope_guard.ChangeOrders.Price.{Priced, IsPrice, accept_client-IsPrice}
use scope_guard.ChangeOrders.Samples.{a_payment, an_order, a_capability, a_token, a_desk, offered}

-- the offer is accepted by its client
abbrev accepted : Result AcceptanceResult × Office
accepted = accept_client a_desk a_token "abc" "de" 16 50 "abc" "de" 1 3 4 9 "key" offered

abbrev an_acceptance : AcceptanceResult
an_acceptance = record {
  change_order = record an_order { status = ChangeOrderStatus.client_approved; row_version = 4 };
  payment_request = a_payment;
  receipt = record {
    capability = record a_capability {
      id = 25;
      purpose = Purpose.receipt;
      activated_at = some 50;
      expires_at = some 2592000000050;
      created_at = 50;
    };
    token = a_token;
    session = record {
      id = 26;
      capability_id = 25;
      session_hash = 3;
      csrf_hash = 2;
      purpose = Purpose.receipt;
      expires_at = 86400000050;
      revoked_at = none;
    };
    session_token = "abc";
    csrf_token = "de";
  };
}

accepts : accepted ≡ (ok an_acceptance, accepted.1)
unfolding accept_client add_approval ask edit_capability find? find_order find_project fresh get
    on_access accept_first accept_new accept_open confirm_send has_session session_scope ◌>>=◌
    filter move_order on_ledger add_amendment add_payment add_revenue add_scope amend_scope
    client_context copy_items payment_row point_project request_payment move_request find_payment
    is_payment prepare_payment_link add_capability approval_row edit enqueue_job has_key insert_job
    is_space lower lower_char moved_order moved_request new_action new_job on_db on_work
    prepare_external_action put reuse_or_insert same_key accept_again accept_consumed confirmed
    consumed is_item_of is_payment_for is_prior is_receipt_of is_send_of last_version
    receipt_credentials receipt_credentials_for_existing receipt_row reopen_receipt scope_row
    with_receipt with_scope client_name edit_action newer newest newest_link open_session
    active_action active_link add_link create_job dated find_recipient is_active is_numbered is_of
    is_recipient latest_link link_action link_fields new_link payment_reference prepare_next
    reuse_active save_request same_status strip strip_left strip_right trip wakeup
accepts = refl

accept_client-IsPrice_example :
    (r : ProposalRevision) × (get 4 offered.access.revisions ≡ some r)
    × (r.canonical_artifact_hash ≡ 9)
    × IsPrice r a_payment
accept_client-IsPrice_example =
    accept_client-IsPrice a_desk a_token "abc" "de" 16 50 "abc" "de" "key" 1 3 4 9 offered
      accepted.1 an_acceptance tt accepts

accept_client-IsSingle_example : IsSingle accepted.1.ledger.requests
accept_client-IsSingle_example =
    accept_client-IsSingle a_desk a_token "abc" "de" 16 50 "abc" "de" "key" 1 3 4 9 offered
      accepted.1 an_acceptance ((λ n. 0), tt) accepts

accept_client-Priced_example : All (Priced accepted.1.access.revisions) accepted.1.ledger.requests
accept_client-Priced_example =
    accept_client-Priced a_desk a_token "abc" "de" 16 50 "abc" "de" "key" 1 3 4 9 offered accepted.1
      an_acceptance tt accepts

accept_client-IsAccepted_example : IsAccepted a_desk "abc" "de" "key" 50 1 3 4 9 offered
accept_client-IsAccepted_example =
    accept_client-IsAccepted a_desk a_token "abc" "de" 16 50 "abc" "de" "key" 1 3 4 9 offered
      accepted.1 an_acceptance accepts
