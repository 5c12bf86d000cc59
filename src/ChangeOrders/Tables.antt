-- ===== src/ChangeOrders/Tables.antt =====
-- services/domain/models.py: the rows of change orders. Hashes are numbers that are only compared.
use scope_guard.Base.{ℕ, String, Option, List, HasId, Items, Fields}
use scope_guard.Payments.Tables.{Ledger}

pub data ChangeOrderStatus : Type 0 where
  draft awaiting_freelancer_approval send_pending awaiting_client_approval : ChangeOrderStatus
  revision_requested client_approved rejected_by_freelancer rejected_by_client : ChangeOrderStatus
  withdrawn expired : ChangeOrderStatus

pub record ChangeOrder : Type 0 where
  pub id : ℕ
  pub tenant_id : ℕ
  pub project_id : ℕ
  pub request_id : ℕ
  pub number : ℕ
  pub current_revision_id : Option ℕ
  pub status : ChangeOrderStatus
  pub row_version : ℕ

pub data RevisionStatus : Type 0 where
  current superseded revoked : RevisionStatus

pub record ProposalRevision : Type 0 where
  pub id : ℕ
  pub tenant_id : ℕ
  pub project_id : ℕ
  pub change_order_id : ℕ
  pub revision_number : ℕ
  pub baseline_version_id : ℕ
  pub request_version : ℕ
  pub preference_version_id : ℕ
  pub total_minor : ℕ
  pub tax_minor : ℕ
  pub currency : String
  pub title : String
  pub requested_change : String
  pub deliverables : Items
  pub exclusions : Items
  pub assumptions : Items
  pub client_explanation : String
  pub recipient_contact_id : ℕ
  pub recipient_email : String
  pub subject : String
  pub plain_text_body : String
  pub html_body : String
  pub attachment_hashes : Items
  pub terms_json : Fields
  pub evidence_digest : ℕ
  pub evidence_reference_ids : Items
  pub canonical_artifact_hash : ℕ
  pub approval_url : String
  pub token_ciphertext : String
  pub status : RevisionStatus
  pub created_at : ℕ

pub data Purpose : Type 0 where
  review receipt : Purpose

pub record ClientCapability : Type 0 where
  pub id : ℕ
  pub tenant_id : ℕ
  pub project_id : ℕ
  pub change_order_id : ℕ
  pub revision_id : ℕ
  pub client_id : ℕ
  pub token_hash : ℕ
  pub content_hash : ℕ
  pub purpose : Purpose
  pub activated_at : Option ℕ
  pub expires_at : Option ℕ
  pub consumed_at : Option ℕ
  pub revoked_at : Option ℕ
  pub created_at : ℕ

pub record ClientSession : Type 0 where
  pub id : ℕ
  pub capability_id : ℕ
  pub session_hash : ℕ
  pub csrf_hash : ℕ
  pub purpose : Purpose
  pub expires_at : ℕ
  pub revoked_at : Option ℕ

pub record Access : Type 0 where
  pub orders : List ChangeOrder
  pub revisions : List ProposalRevision
  pub capabilities : List ClientCapability
  pub sessions : List ClientSession
  pub next_id : ℕ

instance abbrev pub order_id : HasId ChangeOrder
order_id = record { id_of = λ r. r.id }

instance abbrev pub revision_id : HasId ProposalRevision
revision_id = record { id_of = λ r. r.id }

instance abbrev pub capability_id : HasId ClientCapability
capability_id = record { id_of = λ r. r.id }

instance abbrev pub session_id : HasId ClientSession
session_id = record { id_of = λ r. r.id }

pub record Project : Type 0 where
  pub id : ℕ
  pub tenant_id : ℕ
  pub client_id : ℕ
  pub current_scope_version_id : Option ℕ

-- OPEN is `opened` here.
pub data RequestStatus : Type 0 where
  opened clarification_required covered proposal_open waived declined merged resolved :
      RequestStatus

pub record RequestRecord : Type 0 where
  pub id : ℕ
  pub tenant_id : ℕ
  pub project_id : ℕ
  pub status : RequestStatus
  pub request_version : ℕ
  pub rejection_reason : Option String
  pub row_version : ℕ

pub record ClientContact : Type 0 where
  pub id : ℕ
  pub tenant_id : ℕ
  pub client_id : ℕ
  pub normalized_email : String

pub data DecisionStatus : Type 0 where
  opened resolved dismissed stale : DecisionStatus

pub record AnalysisDecision : Type 0 where
  pub id : ℕ
  pub tenant_id : ℕ
  pub project_id : ℕ
  pub request_id : Option ℕ
  pub kind : String
  pub status : DecisionStatus
  pub row_version : ℕ

pub record AnalysisDraftRevision : Type 0 where
  pub id : ℕ
  pub decision_id : ℕ
  pub payload : Fields
  pub status : RevisionStatus

pub record EvidenceReference : Type 0 where
  pub id : ℕ
  pub tenant_id : ℕ
  pub project_id : ℕ
  pub bundle_id : ℕ

pub record EvidenceBundle : Type 0 where
  pub id : ℕ
  pub stale_at : Option ℕ

pub data Actor : Type 0 where
  freelancer client : Actor

pub data Verdict : Type 0 where
  approved rejected request_changes waived : Verdict

pub record Approval : Type 0 where
  pub id : ℕ
  pub tenant_id : ℕ
  pub project_id : ℕ
  pub change_order_id : ℕ
  pub revision_id : ℕ
  pub actor_type : Actor
  pub actor_identifier : String
  pub content_hash : ℕ
  pub decision : Verdict
  pub idempotency_key : Option String
  pub comment : Option String
  pub created_at : ℕ

pub record ScopeVersion : Type 0 where
  pub id : ℕ
  pub tenant_id : ℕ
  pub project_id : ℕ
  pub version : ℕ
  pub parent_version_id : Option ℕ
  pub source_revision_id : Option ℕ
  pub confirmation_actor : String
  pub content_hash : ℕ

pub record ScopeVersionItem : Type 0 where
  pub id : ℕ
  pub tenant_id : ℕ
  pub project_id : ℕ
  pub scope_version_id : ℕ
  pub scope_item_id : ℕ

pub record ScopeAmendment : Type 0 where
  pub id : ℕ
  pub tenant_id : ℕ
  pub project_id : ℕ
  pub accepted_revision_id : ℕ
  pub previous_scope_version_id : ℕ
  pub resulting_scope_version_id : ℕ

pub record ApprovedRevenueFact : Type 0 where
  pub id : ℕ
  pub tenant_id : ℕ
  pub project_id : ℕ
  pub change_order_id : ℕ
  pub revision_id : ℕ
  pub amount_minor : ℕ
  pub tax_minor : ℕ
  pub currency : String

pub data NotificationState : Type 0 where
  pending sent unknown_outcome failed cancelled : NotificationState

pub record Notification : Type 0 where
  pub id : ℕ
  pub tenant_id : ℕ
  pub change_order_id : Option ℕ
  pub revision_id : Option ℕ
  pub verified_recipient : String
  pub state : NotificationState
  pub action_id : Option ℕ

-- The tables of the change orders beside those of the payments and the workers. New rows of these
-- tables take their identities from the supply of `access`.
pub record Office : Type 0 where
  pub ledger : Ledger
  pub access : Access
  pub projects : List Project
  pub requests : List RequestRecord
  pub contacts : List ClientContact
  pub decisions : List AnalysisDecision
  pub drafts : List AnalysisDraftRevision
  pub references : List EvidenceReference
  pub bundles : List EvidenceBundle
  pub approvals : List Approval
  pub scopes : List ScopeVersion
  pub scope_items : List ScopeVersionItem
  pub amendments : List ScopeAmendment
  pub revenue : List ApprovedRevenueFact
  pub notifications : List Notification

instance abbrev pub project_id : HasId Project
project_id = record { id_of = λ r. r.id }

instance abbrev pub record_id : HasId RequestRecord
record_id = record { id_of = λ r. r.id }

instance abbrev pub contact_id : HasId ClientContact
contact_id = record { id_of = λ r. r.id }

instance abbrev pub decision_id : HasId AnalysisDecision
decision_id = record { id_of = λ r. r.id }

instance abbrev pub scope_id : HasId ScopeVersion
scope_id = record { id_of = λ r. r.id }

instance abbrev pub notification_id : HasId Notification
notification_id = record { id_of = λ r. r.id }
