-- ===== src/Payments/Status.antt =====
-- services/payments/service.py `_transition`, and services/domain/enums.py `PAYMENT_TRANSITIONS`.
use scope_guard.Base.{
  ℕ, ◌+◌, ◌≡◌, ◌⊎◌, Bool, true, false, Option, none, some, List, [], ◌∷◌, Error, Result, ok, err,
  if◌then◌else◌,
}
use scope_guard.Payments.Tables.{PaymentStatus, PaymentRequest}

unfoldable pub same_status : PaymentStatus → PaymentStatus → Bool
same_status PaymentStatus.not_requested PaymentStatus.not_requested = true
same_status PaymentStatus.creation_pending PaymentStatus.creation_pending = true
same_status PaymentStatus.pending PaymentStatus.pending = true
same_status PaymentStatus.review_required PaymentStatus.review_required = true
same_status PaymentStatus.paid PaymentStatus.paid = true
same_status PaymentStatus.expired PaymentStatus.expired = true
same_status PaymentStatus.cancelled PaymentStatus.cancelled = true
same_status PaymentStatus.reversed PaymentStatus.reversed = true
same_status _ _ = false

-- What `_transition` does with the current and the target status: nothing, a change, or a conflict.
pub data Move : Type 0 where
  stays changes refused : Move

-- the set `transitions`, and the sources from which a review may be entered
unfoldable pub allowed_move : PaymentStatus → PaymentStatus → Bool
allowed_move PaymentStatus.creation_pending PaymentStatus.review_required = true
allowed_move PaymentStatus.pending PaymentStatus.review_required = true
allowed_move PaymentStatus.review_required PaymentStatus.review_required = true
allowed_move PaymentStatus.creation_pending PaymentStatus.pending = true
allowed_move PaymentStatus.pending PaymentStatus.paid = true
allowed_move PaymentStatus.review_required PaymentStatus.paid = true
allowed_move PaymentStatus.pending PaymentStatus.expired = true
allowed_move PaymentStatus.pending PaymentStatus.cancelled = true
allowed_move PaymentStatus.expired PaymentStatus.pending = true
allowed_move PaymentStatus.cancelled PaymentStatus.pending = true
allowed_move PaymentStatus.expired PaymentStatus.paid = true
allowed_move PaymentStatus.paid PaymentStatus.reversed = true
allowed_move _ _ = false

unfoldable pub is_final_for : PaymentStatus → PaymentStatus → Bool
is_final_for PaymentStatus.reversed target = true
is_final_for PaymentStatus.paid PaymentStatus.reversed = false
is_final_for PaymentStatus.paid target = true
is_final_for current target = same_status current target

unfoldable pub move : PaymentStatus → PaymentStatus → Move
move current target =
    if is_final_for current target
    then stays
    else if allowed_move current target
    then changes
    else refused

-- `payment.paid_at or utc_now()` when the target is PAID
unfoldable pub paid_time : PaymentStatus → Option ℕ → ℕ → Option ℕ
paid_time PaymentStatus.paid none now = some now
paid_time PaymentStatus.paid (some t) now = some t
paid_time target paid_at now = paid_at

unfoldable pub moved : PaymentRequest → PaymentStatus → ℕ → PaymentRequest
moved p target now = record p {
  status = target;
  row_version = p.row_version + 1;
  paid_at = paid_time target p.paid_at now;
  updated_at = now;
}

unfoldable pub by_move : Move → PaymentRequest → PaymentStatus → ℕ → Result PaymentRequest
by_move stays p target now = ok p
by_move changes p target now = ok (moved p target now)
by_move refused p target now = err Error.conflict

-- `_transition`
unfoldable pub transition : PaymentRequest → PaymentStatus → ℕ → Result PaymentRequest
transition p target now = by_move (move p.status target) p target now

-- The events of `PAYMENT_TRANSITIONS`.
pub data PaymentEvent : Type 0 where
  client_approved link_verified mismatch full_capture_verified provider_expired : PaymentEvent
  provider_cancelled reversal_confirmed : PaymentEvent

unfoldable pub payment_transitions : PaymentStatus → PaymentEvent → Option PaymentStatus
payment_transitions PaymentStatus.not_requested PaymentEvent.client_approved =
    some PaymentStatus.creation_pending
payment_transitions PaymentStatus.creation_pending PaymentEvent.link_verified =
    some PaymentStatus.pending
payment_transitions PaymentStatus.pending PaymentEvent.mismatch = some PaymentStatus.review_required
payment_transitions PaymentStatus.creation_pending PaymentEvent.mismatch =
    some PaymentStatus.review_required
payment_transitions PaymentStatus.pending PaymentEvent.full_capture_verified =
    some PaymentStatus.paid
payment_transitions PaymentStatus.review_required PaymentEvent.full_capture_verified =
    some PaymentStatus.paid
payment_transitions PaymentStatus.expired PaymentEvent.full_capture_verified =
    some PaymentStatus.paid
payment_transitions PaymentStatus.pending PaymentEvent.provider_expired = some PaymentStatus.expired
payment_transitions PaymentStatus.pending PaymentEvent.provider_cancelled =
    some PaymentStatus.cancelled
payment_transitions PaymentStatus.paid PaymentEvent.reversal_confirmed = some PaymentStatus.reversed
payment_transitions _ _ = none

abbrev pub IsCollected : PaymentStatus → Type 0
IsCollected s = (s ≡ PaymentStatus.paid) ⊎ (s ≡ PaymentStatus.reversed)

-- What any sequence of `_transition`s, each with its target and its time, makes of a request; one
-- that conflicts leaves it.
unfoldable pub transitions : List (PaymentStatus × ℕ) → PaymentRequest → PaymentRequest
transitions [] p = p
transitions ((target, now) ∷ rest) p = elim (transition p target now) [
  | ok q ↦ transitions rest q
  | err e ↦ transitions rest p
]
