-- ===== src/Workers/Actions.antt =====
-- services/workers/durable.py: external actions. An action holds the content that a human approved,
-- is dispatched at most three times, and moves between states along one table.
pub mod Follows
pub mod Dispatch
use Prim.Native.String.{String as Text}
use scope_guard.Base.{
  ℕ, zero, suc, ◌+◌, String, Bool, true, false, not, ◌||◌, ◌&&◌, Option, none, some, List, [], ◌∷◌,
  ◌++◌, ltb, ◌==◌, if◌then◌else◌, get, put, find?, Error, Result, ok, err, Exec, pure, raise, gets,
  or_raise, raise_if, ◌>>=◌, ◌>>◌, Json,
}
use scope_guard.Workers.Faults.{CrashPoint, CrashInjector, trip}
use scope_guard.Workers.Tables.{
  ActionState, ActionKey, ExternalAction, ActionAttempt, Db, action_id, attempt_id,
}
use scope_guard.Workers.Jobs.{default_max_attempts}

-- `ACTION_TRANSITIONS`: the states that may follow a state
unfoldable pub allowed : ActionState → ActionState → Bool
allowed ActionState.ready ActionState.dispatching = true
allowed ActionState.ready ActionState.cancelled = true
allowed ActionState.dispatching ActionState.succeeded = true
allowed ActionState.dispatching ActionState.retry_wait = true
allowed ActionState.dispatching ActionState.unknown_outcome = true
allowed ActionState.dispatching ActionState.review_required = true
allowed ActionState.retry_wait ActionState.dispatching = true
allowed ActionState.retry_wait ActionState.cancelled = true
allowed ActionState.succeeded ActionState.receipt_confirmed = true
allowed ActionState.unknown_outcome ActionState.receipt_confirmed = true
allowed ActionState.unknown_outcome ActionState.review_required = true
allowed ActionState.unknown_outcome ActionState.retry_wait = true
allowed ActionState.review_required ActionState.receipt_confirmed = true
allowed ActionState.review_required ActionState.retry_wait = true
allowed ActionState.review_required ActionState.cancelled = true
allowed _ _ = false

-- `text[:n]`
unfoldable pub clip : ℕ → String → String
clip zero s = ""
clip (suc n) Text.[] = ""
clip (suc n) (Text.◌∷◌ c s) = Text.◌∷◌ c (clip n s)

unfoldable pub same_key : ActionKey → ActionKey → Bool
same_key (ActionKey.change_order_notification a b) (ActionKey.change_order_notification c d) =
    a == c && b == d
same_key (ActionKey.change_order_send a b) (ActionKey.change_order_send c d) = a == c && b == d
same_key (ActionKey.payment_link_create a b) (ActionKey.payment_link_create c d) = a == c && b == d
same_key _ _ = false

-- What an action is prepared with.
pub record ActionRequest : Type 0 where
  pub tenant_id : ℕ
  pub action_key : ActionKey
  pub provider : String
  pub operation : String
  pub approved_payload : Json
  pub project_id : Option ℕ

-- `canonical_sha256`, a hash of the standard library, is a parameter; a digest is only compared.
module _ (canonical_sha256 : Json → ℕ) where
  unfoldable pub new_action : ActionRequest → ℕ → ℕ → ExternalAction
  new_action r id now = record {
    id = id;
    tenant_id = r.tenant_id;
    project_id = r.project_id;
    action_key = r.action_key;
    provider = r.provider;
    operation = r.operation;
    state = ActionState.ready;
    approved_payload = r.approved_payload;
    payload_digest = canonical_sha256 r.approved_payload;
    idempotency_key = id + 1;
    receipt_ref = none;
    uncertainty_reason = none;
    created_at = now;
    updated_at = now;
  }

  unfoldable pub has_key : ActionRequest → ExternalAction → Bool
  has_key r a = a.tenant_id == r.tenant_id && same_key a.action_key r.action_key

  -- The action under this key, if its approved content is the same; a new one if there is none.
  unfoldable pub reuse_or_insert :
      ActionRequest → ℕ → Option ExternalAction → Exec Db ExternalAction
  reuse_or_insert r now none db =
      let a = new_action r db.next_id now in
      (ok a, record db { actions = db.actions ++ a ∷ []; next_id = db.next_id + 2 })
  reuse_or_insert r now (some existing) db =
      if existing.payload_digest == canonical_sha256 r.approved_payload
      then (ok existing, db)
      else (err Error.durable, db)

  unfoldable pub prepare_external_action : ActionRequest → ℕ → Exec Db ExternalAction
  prepare_external_action r now db = reuse_or_insert r now (find? (has_key r) db.actions) db

-- `session.get(ExternalAction, action_id)`
unfoldable pub get_action : ℕ → Exec Db ExternalAction
get_action i db = or_raise (get i db.actions) Error.durable db

-- the flush of a changed action; the column `updated_at` takes the time of the write
unfoldable pub save_action : ℕ → ExternalAction → Exec Db ExternalAction
save_action now a db =
    let a' = record a { updated_at = now } in (ok a', record db { actions = put a' db.actions })

-- `_transition_action`
unfoldable pub transition_action : ℕ → ActionState → ExternalAction → Exec Db ExternalAction
transition_action now target a =
    if allowed a.state target
    then save_action now (record a { state = target })
    else raise Error.durable

-- the later attempt of two
unfoldable pub later : ActionAttempt → Option ActionAttempt → Option ActionAttempt
later a none = some a
later a (some b) = if ltb a.attempt_number b.attempt_number then some b else some a

-- `ORDER BY attempt_number DESC LIMIT 1` among the attempts of an action
unfoldable pub last_attempt : ℕ → List ActionAttempt → Option ActionAttempt
last_attempt i [] = none
last_attempt i (a ∷ rest) =
    let found = last_attempt i rest in if a.action_id == i then later a found else found

abbrev pub number_of : Option ActionAttempt → ℕ
number_of none = 0
number_of (some a) = a.attempt_number

unfoldable pub new_attempt : ℕ → ℕ → ℕ → ℕ → ActionAttempt
new_attempt id action number now = record {
  id = id;
  action_id = action;
  attempt_number = number;
  state = ActionState.dispatching;
  provider_request_id = none;
  dispatched_at = now;
  completed_at = none;
  outcome_ref = none;
  error_code = none;
  error_message = none;
}

-- the next attempt of an action, within the budget
unfoldable pub add_attempt : ℕ → ℕ → Exec Db ActionAttempt
add_attempt i now db =
    let number = number_of (last_attempt i db.attempts) + 1 in
    let a = new_attempt db.next_id i number now in
    if ltb default_max_attempts number
    then (err Error.durable, db)
    else (ok a, record db { attempts = db.attempts ++ a ∷ []; next_id = db.next_id + 1 })

unfoldable pub begin_action_dispatch : CrashInjector → ℕ → ℕ → Exec Db ActionAttempt
begin_action_dispatch injector i now = do
  action ← get_action i
  dispatched ← transition_action now ActionState.dispatching action
  attempt ← add_attempt i now
  trip injector CrashPoint.action_dispatch_persisted
  pure attempt

-- the flush of a change to the last attempt, if there is one
unfoldable pub write_back : (ActionAttempt → ActionAttempt) → Option ActionAttempt → Db → Db
write_back edit none db = db
write_back edit (some a) db = record db { attempts = put (edit a) db.attempts }

unfoldable pub close_attempt : ℕ → (ActionAttempt → ActionAttempt) → Exec Db (Unit {0})
close_attempt i edit db = (ok tt, write_back edit (last_attempt i db.attempts) db)

unfoldable pub require_attempt : ℕ → Exec Db ActionAttempt
require_attempt i db = or_raise (last_attempt i db.attempts) Error.durable db

unfoldable pub complete_action :
    CrashInjector → ℕ → Json → Option String → ℕ → Exec Db ExternalAction
complete_action injector i outcome request_id now = do
  action ← get_action i
  trip injector CrashPoint.action_provider_succeeded
  done ← transition_action now ActionState.succeeded action
  attempt ← require_attempt i
  close_attempt i (λ a. record a {
    state = ActionState.succeeded;
    provider_request_id = request_id;
    completed_at = some now;
    outcome_ref = some outcome;
  })
  trip injector CrashPoint.action_result_saved
  pure done

unfoldable pub mark_action_review_required : ℕ → String → ℕ → Exec Db ExternalAction
mark_action_review_required i reason now = do
  action ← get_action i
  moved ← transition_action now ActionState.review_required action
  noted ← save_action now (record moved { uncertainty_reason = some (clip 500 reason) })
  close_attempt i (λ a. record a {
    state = ActionState.review_required;
    completed_at = some now;
    error_code = some "PROVIDER_REJECTED";
    error_message = some (clip 500 reason);
  })
  pure noted

unfoldable pub mark_action_unknown : ℕ → String → ℕ → Exec Db ExternalAction
mark_action_unknown i reason now = do
  action ← get_action i
  moved ← transition_action now ActionState.unknown_outcome action
  noted ← save_action now (record moved { uncertainty_reason = some (clip 500 reason) })
  close_attempt i (λ a. record a {
    state = ActionState.unknown_outcome;
    completed_at = some now;
    error_code = some "UNKNOWN_OUTCOME";
  })
  pure noted

unfoldable pub mark_action_retry : ℕ → String → ℕ → Exec Db ExternalAction
mark_action_retry i code now = do
  action ← get_action i
  moved ← transition_action now ActionState.retry_wait action
  close_attempt i (λ a. record a {
    state = ActionState.retry_wait;
    completed_at = some now;
    error_code = some (clip 120 code);
  })
  pure moved

abbrev pub is_uncertain : ActionState → Bool
is_uncertain ActionState.unknown_outcome = true
is_uncertain ActionState.review_required = true
is_uncertain _ = false

unfoldable pub retry_action : ℕ → Bool → ℕ → Exec Db ExternalAction
retry_action i allow_duplicate_risk now = do
  action ← get_action i
  raise_if (not (is_uncertain action.state)) Error.durable
  raise_if (is_uncertain action.state && not allow_duplicate_risk) Error.durable
  transition_action now ActionState.retry_wait action

unfoldable pub confirm_action_receipt : ℕ → Json → ℕ → Exec Db ExternalAction
confirm_action_receipt i receipt now = do
  action ← get_action i
  moved ← transition_action now ActionState.receipt_confirmed action
  save_action now (record moved { receipt_ref = some receipt })

unfoldable pub cancel_action : ℕ → ℕ → Exec Db ExternalAction
cancel_action i now = do action ← get_action i; transition_action now ActionState.cancelled action
