-- ===== src/ChangeOrders/Samples.antt =====
-- A concrete order with its tables.
use Prim.Native.String.{count as length}
use scope_guard.Base.{String, true, none, some, [], ◌∷◌, ok, cons, nil, str, num, end}
use scope_guard.ChangeOrders.Tables.{
  Actor, Verdict, ChangeOrderStatus, ChangeOrder, Purpose, ClientCapability, ClientSession, Access,
  capability_id, RevisionStatus, ProposalRevision, Project, RequestStatus, RequestRecord, Office,
  order_id,
}
use scope_guard.Domain.Auth.{TrustedContext}
use scope_guard.Payments.Tables.{PaymentStatus, PaymentRequest, Ledger}
use scope_guard.Payments.Texts.{Host}
use scope_guard.ChangeOrders.Office.{Desk}
use scope_guard.ChangeOrders.Decisions.{withdraw_change_order}

abbrev pub an_order : ChangeOrder
an_order = record {
  id = 1;
  tenant_id = 1;
  project_id = 3;
  request_id = 2;
  number = 1;
  current_revision_id = some 4;
  status = ChangeOrderStatus.awaiting_client_approval;
  row_version = 3;
}

abbrev pub a_capability : ClientCapability
a_capability = record {
  id = 6;
  tenant_id = 1;
  project_id = 3;
  change_order_id = 1;
  revision_id = 4;
  client_id = 8;
  token_hash = 43;
  content_hash = 9;
  purpose = Purpose.review;
  activated_at = some 10;
  expires_at = some 900;
  consumed_at = none;
  revoked_at = none;
  created_at = 5;
}

abbrev pub a_revision : ProposalRevision
a_revision = record {
  id = 4;
  tenant_id = 1;
  project_id = 3;
  change_order_id = 1;
  revision_number = 1;
  baseline_version_id = 11;
  request_version = 1;
  preference_version_id = 12;
  total_minor = 50000;
  tax_minor = 900;
  currency = "INR";
  title = "Gallery";
  requested_change = "a gallery page";
  deliverables = cons (str "page") nil;
  exclusions = nil;
  assumptions = nil;
  client_explanation = "not in scope";
  recipient_contact_id = 13;
  recipient_email = "c@example.com";
  subject = "Gallery";
  plain_text_body = "please review";
  html_body = "<p>please review</p>";
  attachment_hashes = nil;
  terms_json = end;
  evidence_digest = 14;
  evidence_reference_ids = cons (num 15) nil;
  canonical_artifact_hash = 9;
  approval_url = "/c";
  token_ciphertext = "xyz";
  status = RevisionStatus.current;
  created_at = 5;
}

abbrev pub an_access : Access
an_access = record {
  orders = an_order ∷ [];
  revisions = a_revision ∷ [];
  capabilities = a_capability ∷ [];
  sessions = [];
  next_id = 20;
}

abbrev pub a_token : String
a_token = "0123456789012345678901234567890123456789012"

abbrev pub a_session : ClientSession
a_session = record {
  id = 20;
  capability_id = 6;
  session_hash = 3;
  csrf_hash = 2;
  purpose = Purpose.review;
  expires_at = 86400000020;
  revoked_at = none;
}

abbrev pub a_host : Host
a_host = record {
  repr = λ v. "";
  canonical_sha256 = λ v. 7;
  canonical_hex = λ v. "7";
  payload_hex = λ v. "7";
  reference_hex = λ a b. "7";
}

abbrev pub a_desk : Desk
a_desk = record {
  host = a_host;
  settings = record { account_id = "acc"; environment = "test" };
  hash = length;
  protect = λ t. ok t;
  unprotect = λ c. ok c;
  uuid_of = λ t. some 15;
  uuid_text = λ i. "id";
  iterated = λ v. none;
  review_base_url = "https://review";
}

abbrev pub a_ledger : Ledger
a_ledger = record {
  db = record {
    jobs = [];
    outbox = [];
    receipts = [];
    actions = [];
    attempts = [];
    audits = [];
    next_id = 100;
  };
  requests = [];
  links = [];
  payments = [];
  observations = [];
  ingress = [];
  recipients = (1, 4, "c@example.com") ∷ [];
}

abbrev pub a_project : Project
a_project = record { id = 3; tenant_id = 1; client_id = 8; current_scope_version_id = some 11 }

abbrev pub a_request : RequestRecord
a_request = record {
  id = 2;
  tenant_id = 1;
  project_id = 3;
  status = RequestStatus.proposal_open;
  request_version = 1;
  rejection_reason = none;
  row_version = 1;
}

abbrev pub an_office : ChangeOrderStatus → Office
an_office status = record {
  ledger = a_ledger;
  access = record an_access {
    orders = record an_order { status = status } ∷ [];
    sessions = record a_session { session_hash = 3; expires_at = 900 } ∷ [];
  };
  projects = a_project ∷ [];
  requests = a_request ∷ [];
  contacts = [];
  decisions = [];
  drafts = [];
  references = [];
  bundles = [];
  approvals = [];
  scopes =
      record {
        id = 11;
        tenant_id = 1;
        project_id = 3;
        version = 1;
        parent_version_id = none;
        source_revision_id = none;
        confirmation_actor = "client";
        content_hash = 5;
      }
      ∷ [];
  scope_items = [];
  amendments = [];
  revenue = [];
  notifications = [];
}

abbrev pub a_context : TrustedContext
a_context = record {
  tenant_id = 1;
  subject = "owner";
  email = "f@example.com";
  email_verified = true;
  correlation_id = 16;
}

-- an offer to its client is withdrawn, and then reached for again
abbrev pub offered : Office
offered = an_office ChangeOrderStatus.awaiting_client_approval

abbrev pub withdrawn : Office
withdrawn = (withdraw_change_order a_desk 50 a_context 1 none offered).1

-- what an acceptance of the offer asks to be paid
abbrev pub a_payment : PaymentRequest
a_payment = record {
  id = 23;
  tenant_id = 1;
  project_id = 3;
  accepted_revision_id = 4;
  total_minor = 50000;
  tax_minor = 900;
  currency = "INR";
  status = PaymentStatus.creation_pending;
  due_at = some 604800000050;
  expire_at = some 1209600000050;
  paid_at = none;
  row_version = 1;
  created_at = 50;
  updated_at = 50;
}

-- after the acceptance
abbrev pub settled : Office
settled = record (an_office ChangeOrderStatus.client_approved) {
  access = record an_access {
    orders = record an_order { status = ChangeOrderStatus.client_approved } ∷ [];
    capabilities = record a_capability { consumed_at = some 45 } ∷ [];
    sessions = record a_session { session_hash = 3; expires_at = 900 } ∷ [];
  };
  ledger = record a_ledger { requests = a_payment ∷ [] };
  approvals =
      record {
        id = 19;
        tenant_id = 1;
        project_id = 3;
        change_order_id = 1;
        revision_id = 4;
        actor_type = Actor.client;
        actor_identifier = "client:id";
        content_hash = 9;
        decision = Verdict.approved;
        idempotency_key = some "key";
        comment = none;
        created_at = 45;
      }
      ∷ [];
}
