-- ===== src/Handlers/Tests.antt =====
-- The theorem on payment jobs at a concrete job.
use scope_guard.Base.{
  arith, ◌≡◌, refl, none, some, [], ◌∷◌, Error, ok, err, num, null, obj, field, end, get_field,
}
use scope_guard.Workers.Tables.{JobState, Job, ActionState, ActionKey, ExternalAction}
use scope_guard.Payments.Tables.{Ledger}
use scope_guard.Payments.Dispatch.{answered}
use scope_guard.Handlers.{Clients, run_payload_job, id_of_entry}
use scope_guard.Handlers.Create.{payment_create_fails}

abbrev clients : Clients
clients = record {
  host = record {
    repr = λ j. "?";
    canonical_sha256 = λ j. 7;
    canonical_hex = λ j. "c";
    payload_hex = λ j. "p";
    reference_hex = λ r n. "0123";
  };
  links = record {
    account_id = "acc";
    environment = "test";
    create_payment_link = λ j. answered null;
  };
  lookup = record {
    account_id = "acc";
    environment = "test";
    fetch_payment_link = λ l. ok end;
    list_payment_links = none;
  };
  send_gmail = λ i s. (ok tt, s);
  send_ses = λ i s. (ok tt, s);
  run_gmail = λ j s. (ok tt, s);
}

abbrev a_job : Job
a_job = record {
  id = 0;
  tenant_id = 1;
  project_id = none;
  kind = "payment.create";
  payload_ref = obj (field "action_id" (num 5) end);
  correlation_id = 9;
  causation_id = none;
  state = JobState.running;
  available_at = 0;
  lease_until = some 90;
  lease_owner = some 4;
  fencing_generation = 1;
  attempt_count = 1;
  max_attempts = 3;
  deadline_at = none;
  last_error = none;
  created_at = 0;
  updated_at = 0;
}

abbrev an_action : ExternalAction
an_action = record {
  id = 5;
  tenant_id = 1;
  project_id = none;
  action_key = ActionKey.payment_link_create 1 1;
  provider = "razorpay";
  operation = "payment_links.create";
  state = ActionState.ready;
  approved_payload = null;
  payload_digest = 7;
  idempotency_key = 6;
  receipt_ref = none;
  uncertainty_reason = none;
  created_at = 0;
  updated_at = 0;
}

-- the change order's own action, sent by mail before the payment is asked for
abbrev a_sending : ExternalAction
a_sending = record an_action {
  id = 4;
  action_key = ActionKey.change_order_send 2 4;
  provider = "gmail";
  operation = "send";
  state = ActionState.succeeded;
}

abbrev a_ledger : Ledger
a_ledger = record {
  db = record {
    jobs = a_job ∷ [];
    outbox = [];
    receipts = [];
    actions = a_sending ∷ an_action ∷ [];
    attempts = [];
    audits = [];
    next_id = 10;
  };
  requests = [];
  links = [];
  payments = [];
  observations = [];
  ingress = [];
  recipients = [];
}

payment_create_fails_example :
    run_payload_job clients 20 a_job a_ledger ≡ (err Error.value_error, a_ledger)
unfolding get_field id_of_entry
payment_create_fails_example =
    payment_create_fails clients 20 a_job a_ledger 5 refl
      ((λ e. absurd (omega (arith, e))), ((λ e. refl), tt)) refl
