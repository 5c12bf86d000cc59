-- ===== src/Payments/Tables.antt =====
-- services/domain/models.py: the rows that the payment service keeps. Texts from the provider are
-- String; column lengths are not modelled.
use scope_guard.Base.{ℕ, String, Bool, Option, List, HasId, Json}
use scope_guard.Workers.Tables.{Db}

pub data PaymentStatus : Type 0 where
  not_requested creation_pending pending review_required paid expired cancelled reversed :
      PaymentStatus

pub record PaymentRequest : Type 0 where
  pub id : ℕ
  pub tenant_id : ℕ
  pub project_id : ℕ
  pub accepted_revision_id : ℕ
  pub total_minor : ℕ
  pub tax_minor : ℕ
  pub currency : String
  pub status : PaymentStatus
  pub due_at : Option ℕ
  pub expire_at : Option ℕ
  pub paid_at : Option ℕ
  pub row_version : ℕ
  pub created_at : ℕ
  pub updated_at : ℕ

pub data LinkStatus : Type 0 where
  ready created unknown_outcome review_required expired cancelled : LinkStatus

pub record PaymentLinkAttempt : Type 0 where
  pub id : ℕ
  pub tenant_id : ℕ
  pub project_id : ℕ
  pub payment_request_id : ℕ
  pub attempt_number : ℕ
  pub provider_account_id : String
  pub provider_environment : String
  pub reference_id : String
  pub amount_minor : ℕ
  pub currency : String
  pub status : LinkStatus
  pub provider_link_id : Option String
  pub provider_order_id : Option String
  pub short_url : Option String
  pub provider_status : Option String
  pub action_id : Option ℕ
  pub provider_payload : Option Json

pub record PaymentAttempt : Type 0 where
  pub id : ℕ
  pub tenant_id : Option ℕ
  pub project_id : Option ℕ
  pub link_attempt_id : Option ℕ
  pub provider_payment_id : String
  pub provider_order_id : Option String
  pub amount_minor : ℕ
  pub currency : String
  pub status : String
  pub captured : Bool
  pub provider_payload : Option Json

pub data NormalizationState : Type 0 where
  pending normalized review_required : NormalizationState

-- `failed`: whether `last_error` holds the class name of an exception.
pub record PaymentWebhookIngress : Type 0 where
  pub id : ℕ
  pub provider_account_id : String
  pub provider_environment : String
  pub provider_event_id : String
  pub event_type : String
  pub signature_verified : Bool
  pub raw_payload : Json
  pub normalization_state : NormalizationState
  pub observation_id : Option ℕ
  pub normalized_at : Option ℕ
  pub failed : Bool
  pub received_at : ℕ

pub data AssociationState : Type 0 where
  associated unmatched manual_review : AssociationState

pub record PaymentObservation : Type 0 where
  pub id : ℕ
  pub tenant_id : Option ℕ
  pub project_id : Option ℕ
  pub payment_request_id : Option ℕ
  pub link_attempt_id : Option ℕ
  pub payment_attempt_id : Option ℕ
  pub provider_account_id : String
  pub provider_environment : String
  pub provider_event_id : String
  pub event_type : String
  pub provider_link_id : Option String
  pub provider_payment_id : Option String
  pub provider_order_id : Option String
  pub reference_id : Option String
  pub amount_minor : Option ℕ
  pub currency : Option String
  pub observed_status : String
  pub signature_verified : Bool
  pub raw_payload : Json
  pub observed_at : ℕ
  pub created_at : ℕ
  pub association_state : AssociationState
  pub next_retry_at : Option ℕ
  pub associated_at : Option ℕ

-- The payment tables beside those of the workers, whose supply of identities they share, and the
-- recipients of the accepted proposal revisions by tenant and revision.
pub record Ledger : Type 0 where
  pub db : Db
  pub requests : List PaymentRequest
  pub links : List PaymentLinkAttempt
  pub payments : List PaymentAttempt
  pub observations : List PaymentObservation
  pub ingress : List PaymentWebhookIngress
  pub recipients : List (ℕ × ℕ × String)

instance abbrev pub request_id : HasId PaymentRequest
request_id = record { id_of = λ r. r.id }

instance abbrev pub link_id : HasId PaymentLinkAttempt
link_id = record { id_of = λ r. r.id }

instance abbrev pub payment_id : HasId PaymentAttempt
payment_id = record { id_of = λ r. r.id }

instance abbrev pub observation_id : HasId PaymentObservation
observation_id = record { id_of = λ r. r.id }

instance abbrev pub ingress_id : HasId PaymentWebhookIngress
ingress_id = record { id_of = λ r. r.id }
