-- ===== src/Workers/Tables.antt =====
-- services/domain/models.py: the rows that the workers keep, and the database state that holds them.
-- Identities, tenants and worker names are only compared, so they are numbers; times count
-- microseconds; `uuid4()` is the next number of a supply kept beside the tables.
use scope_guard.Base.{ℕ, ◌*◌, String, Option, List, HasId, Json}

abbrev pub seconds : ℕ → ℕ
seconds n = n * 1000000

pub data JobState : Type 0 where
  queued running retry_wait succeeded failed_requires_review cancelled : JobState

pub record Job : Type 0 where
  pub id : ℕ
  pub tenant_id : ℕ
  pub project_id : Option ℕ
  pub kind : String
  pub payload_ref : Json
  pub correlation_id : ℕ
  pub causation_id : Option ℕ
  pub state : JobState
  pub available_at : ℕ
  pub lease_until : Option ℕ
  pub lease_owner : Option ℕ
  pub fencing_generation : ℕ
  pub attempt_count : ℕ
  pub max_attempts : ℕ
  pub deadline_at : Option ℕ
  pub last_error : Option String
  pub created_at : ℕ
  pub updated_at : ℕ

pub record OutboxEvent : Type 0 where
  pub id : ℕ
  pub tenant_id : ℕ
  pub aggregate_type : String
  pub aggregate_id : ℕ
  pub event_type : String
  pub payload : Json
  pub correlation_id : ℕ
  pub causation_id : Option ℕ
  pub published_at : Option ℕ
  pub publish_attempts : ℕ
  pub last_error : Option String
  pub created_at : ℕ

pub record ConsumerReceipt : Type 0 where
  pub consumer_name : String
  pub event_id : ℕ
  pub result_ref : Json
  pub received_at : ℕ

pub data ActionState : Type 0 where
  ready dispatching retry_wait succeeded receipt_confirmed unknown_outcome : ActionState
  review_required cancelled : ActionState

-- The formats of `action_key`: each is a fixed word and the identities behind it.
pub data ActionKey : Type 0 where
  change_order_notification change_order_send : ℕ → ℕ → ActionKey
  payment_link_create : ℕ → ℕ → ActionKey

pub record ExternalAction : Type 0 where
  pub id : ℕ
  pub tenant_id : ℕ
  pub project_id : Option ℕ
  pub action_key : ActionKey
  pub provider : String
  pub operation : String
  pub state : ActionState
  pub approved_payload : Json
  pub payload_digest : ℕ
  pub idempotency_key : ℕ
  pub receipt_ref : Option Json
  pub uncertainty_reason : Option String
  pub created_at : ℕ
  pub updated_at : ℕ

pub record ActionAttempt : Type 0 where
  pub id : ℕ
  pub action_id : ℕ
  pub attempt_number : ℕ
  pub state : ActionState
  pub provider_request_id : Option String
  pub dispatched_at : ℕ
  pub completed_at : Option ℕ
  pub outcome_ref : Option Json
  pub error_code : Option String
  pub error_message : Option String

pub record AuditEvent : Type 0 where
  pub id : ℕ
  pub tenant_id : ℕ
  pub project_id : Option ℕ
  pub actor : String
  pub action : String
  pub resource_type : String
  pub resource_id : String
  pub resource_revision : Option ℕ
  pub correlation_id : ℕ
  pub causation_id : Option ℕ
  pub before_state : Json
  pub after_state : Json
  pub content_digest : ℕ
  pub safe_metadata : Json
  pub created_at : ℕ

-- The tables in the order in which rows were added, and the supply of identities.
pub record Db : Type 0 where
  pub jobs : List Job
  pub outbox : List OutboxEvent
  pub receipts : List ConsumerReceipt
  pub actions : List ExternalAction
  pub attempts : List ActionAttempt
  pub audits : List AuditEvent
  pub next_id : ℕ

instance abbrev pub job_id : HasId Job
job_id = record { id_of = λ r. r.id }

instance abbrev pub outbox_id : HasId OutboxEvent
outbox_id = record { id_of = λ r. r.id }

instance abbrev pub action_id : HasId ExternalAction
action_id = record { id_of = λ r. r.id }

instance abbrev pub attempt_id : HasId ActionAttempt
attempt_id = record { id_of = λ r. r.id }
