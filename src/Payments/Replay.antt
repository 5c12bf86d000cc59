-- ===== src/Payments/Replay.antt =====
-- services/payments/service.py `replay_unmatched_payment_observations`: orphan observations find their
-- link later, or end in a manual review.
use scope_guard.Base.{
  ℕ, ◌+◌, String, Bool, true, false, not, ◌&&◌, ◌||◌, Option, none, some, List, [], ◌∷◌, ltb, leb,
  ◌==◌, is_some, if◌then◌else◌, filter, take, sort_by, put, Error, ok, err, Exec, pure, gets, ◌>>=◌,
  ◌>>◌,
}
use scope_guard.Payments.Tables.{
  PaymentStatus, PaymentRequest, LinkStatus, PaymentLinkAttempt, PaymentAttempt, AssociationState,
  PaymentObservation, Ledger, payment_id, observation_id,
}
use scope_guard.Payments.Texts.{opt_eq, opt_ℕ_eq}
use scope_guard.Payments.Facts.{is_paid_event, is_captured}
use scope_guard.Payments.Observe.{
  payment_for, request_for, save_link, move_request, under_review, add_payment, matched_pair,
}
use scope_guard.Payments.Webhooks.{find_target}

abbrev pub is_unmatched : AssociationState → Bool
is_unmatched AssociationState.unmatched = true
is_unmatched _ = false

unfoldable pub by_observation : PaymentObservation → PaymentObservation → Bool
by_observation a b =
    ltb a.observed_at b.observed_at || a.observed_at == b.observed_at && ltb a.id b.id

unfoldable pub unmatched :
    (PaymentObservation → Bool) → ℕ → List PaymentObservation → List PaymentObservation
unmatched locked limit os =
    take limit
      (sort_by by_observation (filter (λ o. is_unmatched o.association_state && not (locked o)) os))

unfoldable pub save_observation : PaymentObservation → Exec Ledger (Unit {0})
save_observation o s = (ok tt, record s { observations = put o s.observations })

-- `exact`, once both rows are found
unfoldable pub is_exact : PaymentObservation → PaymentLinkAttempt → Bool
is_exact o a =
    opt_eq o.reference_id a.reference_id
    && (opt_ℕ_eq o.amount_minor a.amount_minor && opt_eq o.currency a.currency)

unfoldable pub exact_pair :
    PaymentObservation
    → Option (PaymentRequest × PaymentLinkAttempt)
    → Option (PaymentRequest × PaymentLinkAttempt)
exact_pair o none = none
exact_pair o (some (r, a)) = if is_exact o a then some (r, a) else none

unfoldable pub replayed_payment :
    ℕ
    → PaymentRequest
    → PaymentLinkAttempt
    → PaymentObservation
    → String
    → ℕ
    → String
    → PaymentAttempt
replayed_payment id r a o payment amount currency = record {
  id = id;
  tenant_id = some r.tenant_id;
  project_id = some r.project_id;
  link_attempt_id = some a.id;
  provider_payment_id = payment;
  provider_order_id = o.provider_order_id;
  amount_minor = amount;
  currency = currency;
  status = o.observed_status;
  captured = is_captured o.observed_status;
  provider_payload = some o.raw_payload;
}

-- a payment that is new; an amount out of the table's bounds is refused on its flush, as in `add_payment`
unfoldable pub insert_payment :
    PaymentRequest
    → PaymentLinkAttempt
    → PaymentObservation
    → String
    → Option ℕ
    → Option String
    → Exec Ledger (Option PaymentAttempt)
insert_payment r a o payment (some amount) (some currency) s =
    if ltb 0 amount && leb amount 100000000
    then add_payment (replayed_payment s.db.next_id r a o payment amount currency) s
    else (err Error.integrity, s)
insert_payment r a o payment _ _ s = (ok none, s)

unfoldable pub find_or_insert :
    Option PaymentAttempt
    → PaymentRequest
    → PaymentLinkAttempt
    → PaymentObservation
    → String
    → Exec Ledger (Option PaymentAttempt)
find_or_insert (some p) r a o payment s = (ok (some p), s)
find_or_insert none r a o payment s = insert_payment r a o payment o.amount_minor o.currency s

-- `payment_attempt.link_attempt_id = attempt.id`, and the identity that the observation takes
unfoldable pub adopt_payment :
    PaymentLinkAttempt → Option ℕ → Option PaymentAttempt → Exec Ledger (Option ℕ)
adopt_payment a kept none s = (ok kept, s)
adopt_payment a kept (some p) s = (
  ok (some p.id),
  record s { payments = put (record p { link_attempt_id = some a.id }) s.payments },
)

unfoldable pub associate_payment :
    PaymentRequest
    → PaymentLinkAttempt
    → PaymentObservation
    → Option String
    → Exec Ledger (Option ℕ)
associate_payment r a o none s = (ok o.payment_attempt_id, s)
associate_payment r a o (some payment) s =
    (do
      found ← find_or_insert (payment_for (some payment) s.payments) r a o payment
      adopt_payment a o.payment_attempt_id found)
      s

unfoldable pub with_known_order : PaymentLinkAttempt → Option String → PaymentLinkAttempt
with_known_order a order = elim a.provider_order_id [
  | none ↦ record a { provider_order_id = order }
  | some x ↦ a
]

-- `observation.provider_order_id and attempt.provider_order_id == observation.provider_order_id`
unfoldable pub order_agrees : PaymentLinkAttempt → Option String → Bool
order_agrees a none = false
order_agrees a (some order) = opt_eq a.provider_order_id order

-- a capture of the request's total
unfoldable pub pay_replayed :
    PaymentRequest → PaymentLinkAttempt → PaymentObservation → ℕ → Exec Ledger (Unit {0})
pay_replayed r attempt o current =
    let a = with_known_order attempt o.provider_order_id in
    if order_agrees a o.provider_order_id
    then (save_link (record a { status = LinkStatus.created })
        >> move_request r PaymentStatus.paid current)
    else save_link a

unfoldable pub settle_replayed :
    PaymentRequest → PaymentLinkAttempt → PaymentObservation → Option ℕ → ℕ → Exec Ledger (Unit {0})
settle_replayed r a o payment current =
    if is_paid_event o.event_type
    then (if is_some payment && opt_ℕ_eq o.amount_minor r.total_minor
        then pay_replayed r a o current
        else under_review r a current)
    else pure tt

unfoldable pub associated_to :
    PaymentRequest → PaymentLinkAttempt → Option ℕ → ℕ → PaymentObservation → PaymentObservation
associated_to r a payment current o = record o {
  tenant_id = some r.tenant_id;
  project_id = some r.project_id;
  payment_request_id = some r.id;
  link_attempt_id = some a.id;
  payment_attempt_id = payment;
  association_state = AssociationState.associated;
  associated_at = some current;
  next_retry_at = none;
}

abbrev pub retry_passed : Option ℕ → ℕ → Bool
retry_passed none current = false
retry_passed (some t) current = leb t current

-- one observation; whether it was associated
unfoldable pub replay_one :
    ℕ → PaymentObservation → Option (PaymentRequest × PaymentLinkAttempt) → Exec Ledger Bool
replay_one current o (some (r, a)) = do
  payment ← associate_payment r a o o.provider_payment_id
  save_observation (associated_to r a payment current o)
  settle_replayed r a o payment current
  pure true
replay_one current o none =
    if retry_passed o.next_retry_at current
    then (save_observation
          (record o { association_state = AssociationState.manual_review; next_retry_at = none })
        >> pure false)
    else pure false

unfoldable pub target_of :
    PaymentObservation → Ledger → Option (PaymentRequest × PaymentLinkAttempt)
target_of o s =
    let attempt =
      find_target o.provider_account_id o.provider_environment o.provider_link_id o.reference_id
        s.links in
    exact_pair o (matched_pair (request_for attempt s.requests) attempt)

abbrev pub add_one : Bool → ℕ → ℕ
add_one true n = n + 1
add_one false n = n

unfoldable pub replay_each : ℕ → List PaymentObservation → ℕ → Exec Ledger ℕ
replay_each current [] n = pure n
replay_each current (o ∷ rest) n = gets (target_of o) >>= λ pair.
    replay_one current o pair >>= λ done. replay_each current rest (add_one done n)

unfoldable pub replay_unmatched_payment_observations :
    (PaymentObservation → Bool) → ℕ → ℕ → Exec Ledger ℕ
replay_unmatched_payment_observations locked limit current = do
  observations ← gets (λ s. unmatched locked limit s.observations)
  replay_each current observations 0
