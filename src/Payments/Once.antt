-- ===== src/Payments/Once.antt =====
-- A provider event is observed once.
use scope_guard.Base.{
  ℕ, ◌≡◌, refl, sym, ap, subst, ◌∙◌, String, Bool, true, false, not, ◌&&◌, Option, none, some, List,
  arith, eq_iff, find?, put, str_eq, Error, Result, ok, err, Exec, pure, lift, gets, raise_if,
  bind_ok, ◌>>=◌, bind_cases, find?-last,
}
use scope_guard.Base.Does.{Does, Anything, Does-pure, Does-raise, Does-if, Does-bind, Does-then}
use scope_guard.Payments.Tables.{
  PaymentStatus, PaymentRequest, LinkStatus, PaymentLinkAttempt, PaymentAttempt, PaymentObservation,
  Ledger, request_id, link_id,
}
use scope_guard.Payments.Texts.{Host}
use scope_guard.Payments.Status.{transition}
use scope_guard.Payments.Facts.{
  Facts, read_facts, mismatch, is_paid_event, is_capture_event, is_expiry_event, is_cancel_event,
}
use scope_guard.Payments.Observe.{
  Event, event_id, is_observation_of, observation_for, attempt_for, request_for, payment_for,
  matched_pair, add_payment, record_payment, find_or_record, new_observation, add_observation,
  save_link, save_request, move_request, move_pending, under_review, captured_payment, close_event,
  settle_event, apply_event, apply_pair, observe_new, observe_once, observe_payment_event,
}

module _ (a : Option PaymentLinkAttempt) (r : Option PaymentRequest) (facts : Facts) where
  record_payment_observations :
      (id : String) (n : Option ℕ) (s : Ledger)
      → (record_payment a r facts id n s).1.observations ≡ s.observations
  unfolding record_payment add_payment ◌>>=◌
  record_payment_observations id none s = refl
  record_payment_observations id (some n) s = ground arith

  find_or_record_observations :
      (known : Option PaymentAttempt) (id : Option String) (s : Ledger)
      → (find_or_record known a r facts id s).1.observations ≡ s.observations
  unfolding find_or_record
  find_or_record_observations (some p) id s = refl
  find_or_record_observations none none s = refl
  find_or_record_observations none (some id) s = record_payment_observations id facts.amount s

-- What holds whatever is written to the links and the requests holds after the effects of an event.
module _ (P : Ledger → Type 0)
    (links : (s : Ledger) (l : List PaymentLinkAttempt) → P s → P (record s { links = l }))
    (requests : (s : Ledger) (l : List PaymentRequest) → P s → P (record s { requests = l })) where
  save_link-Does : (a : PaymentLinkAttempt) → Does P Anything (save_link a)
  unfolding save_link
  save_link-Does a = record { keeps = λ s p. links s (put a s.links) p; gives = λ s p. tt }

  save_request-Does : (r : PaymentRequest) → Does P Anything (save_request r)
  unfolding save_request
  save_request-Does r = record { keeps = λ s p. requests s (put r s.requests) p; gives = λ s p. tt }

  lift-Does : (x : Result PaymentRequest) → Does P Anything (lift x)
  lift-Does (ok q) = Does-pure q tt
  lift-Does (err e) = Does-raise e

  module _ (r : PaymentRequest) (now : ℕ) where
    move_request-Does : (target : PaymentStatus) → Does P Anything (move_request r target now)
    unfolding move_request
    move_request-Does target =
        Does-bind _ _ (lift-Does (transition r target now)) (λ q _. save_request-Does q)

    move_pending-Does : (target : PaymentStatus) → Does P Anything (move_pending r target now)
    unfolding move_pending
    move_pending-Does target = Does-if _ _ _ (λ _. move_request-Does target) (λ _. Does-pure tt tt)

    under_review-Does : (a : PaymentLinkAttempt) → Does P Anything (under_review r a now)
    unfolding under_review
    under_review-Does a =
        Does-then _ _ (save_link-Does _) (move_request-Does PaymentStatus.review_required)

    close_event-Does :
        (a : PaymentLinkAttempt) (e : Event) → Does P Anything (close_event r a e now)
    unfolding close_event
    close_event-Does a e =
        Does-if (is_expiry_event e.event_type) _ _
          (λ _.
            Does-then _ _ (save_link-Does (record a { status = LinkStatus.expired }))
              (move_pending-Does PaymentStatus.expired))
          (λ _.
            Does-if (is_cancel_event e.event_type) _ _
              (λ _.
                Does-then _ _ (save_link-Does (record a { status = LinkStatus.cancelled }))
                  (move_pending-Does PaymentStatus.cancelled))
              (λ _. save_link-Does a))

    settle_event-Does :
        (a : PaymentLinkAttempt) (p : Option PaymentAttempt) (e : Event)
        → Does P Anything (settle_event r a p e now)
    unfolding settle_event
    settle_event-Does a p e =
        Does-if (is_capture_event e.event_type && not (captured_payment p)) _ _
          (λ _. under_review-Does a)
          (λ _.
            Does-if (is_paid_event e.event_type) _ _
              (λ _. Does-then _ _ (save_link-Does a) (move_request-Does PaymentStatus.paid))
              (λ _. close_event-Does a e))

  pub apply_pair-Does :
      (o : Option (PaymentRequest × PaymentLinkAttempt)) (p : Option PaymentAttempt) (facts : Facts)
      (e : Event) (now : ℕ)
      → Does P Anything (apply_pair o p facts e now)
  unfolding apply_pair apply_event
  apply_pair-Does none p facts e now = Does-pure tt tt
  apply_pair-Does (some (r, a)) p facts e now =
      Does-if (mismatch a facts e.provider_account_id e.provider_environment e.event_type) _ _
        (λ _. under_review-Does r now a) (λ _. settle_event-Does r now _ p e)

apply_pair_observations :
    (o : Option (PaymentRequest × PaymentLinkAttempt)) (p : Option PaymentAttempt) (facts : Facts)
    (e : Event) (now : ℕ) (s : Ledger)
    → (apply_pair o p facts e now s).1.observations ≡ s.observations
apply_pair_observations o p facts e now s =
    (apply_pair-Does (λ x. x.observations ≡ s.observations) (λ _ _ h. h) (λ _ _ h. h) o p facts e
        now).keeps
      s refl

module _ (host : Host) (e : Event) where
  -- What was returned is what the table holds for the event.
  abbrev IsStored : Result PaymentObservation × Ledger → Type 0
  IsStored (ok o, t) = observation_for host e t.observations ≡ some o
  IsStored (err f, t) = Unit

  new_observation_matches :
      (facts : Facts) (r : Option PaymentRequest) (a : Option PaymentLinkAttempt)
      (p : Option PaymentAttempt) (id now : ℕ)
      → is_observation_of e.provider_account_id e.provider_environment
          (event_id host e)
          (new_observation host e facts r a p id now)
        ≡ true
  unfolding is_observation_of new_observation
  new_observation_matches facts r a p id now =
      rw ((eq_iff e.provider_account_id e.provider_account_id).1 refl) (
        rw ((eq_iff e.provider_environment e.provider_environment).1 refl)
          ((eq_iff (event_id host e) (event_id host e)).1 refl))

  -- from the flush of the payment on
  store-Stored :
      (facts : Facts) (request : Option PaymentRequest) (attempt : Option PaymentLinkAttempt)
      (payment : Option PaymentAttempt) (now id : ℕ) (t : Ledger)
      → observation_for host e t.observations ≡ none
      → IsStored (
          (add_observation (new_observation host e facts request attempt payment id now) >>= λ _.
          apply_pair (matched_pair request attempt) payment facts e now >>= λ _.
          pure (new_observation host e facts request attempt payment id now))
            t)
  unfolding observation_for add_observation
  store-Stored facts request attempt payment now id t n =
      let o = new_observation host e facts request attempt payment id now in
      let t' : Ledger = (add_observation o t).1 in
      bind_ok IsStored (add_observation o) _ t tt t' refl (
        bind_cases IsStored (apply_pair (matched_pair request attempt) payment facts e now) _ t'
          (λ _ u done.
            let kept : u.observations ≡ t'.observations =
              sym (ap (λ x. x.1.observations) done)
              ∙ apply_pair_observations (matched_pair request attempt) payment facts e now t' in
            ap
              (find?
                (is_observation_of e.provider_account_id e.provider_environment (event_id host e)))
              kept
            ∙ find?-last _ t.observations o n
                (new_observation_matches facts request attempt payment id now))
          (λ _ _ _. tt))

  observe_new-Stored :
      (now : ℕ) (s : Ledger)
      → observation_for host e s.observations ≡ none
      → IsStored (observe_new host e now s)
  unfolding observe_new
  observe_new-Stored now s n =
      let facts = read_facts host e.payload e.event_type in
      let attempt = attempt_for facts.link_id s.links in
      let request = request_for attempt s.requests in
      let known = payment_for facts.payment_id s.payments in
      bind_ok IsStored (gets (λ x. attempt_for facts.link_id x.links)) _ s attempt s refl (
        bind_ok IsStored (gets (λ x. request_for attempt x.requests)) _ s request s refl (
          bind_ok IsStored (gets (λ x. payment_for facts.payment_id x.payments)) _ s known s refl (
            bind_cases IsStored (find_or_record known attempt request facts facts.payment_id) _ s
              (λ payment t here.
                bind_ok IsStored (gets (λ x. x.db.next_id)) _ t t.db.next_id t refl (
                  store-Stored facts request attempt payment now t.db.next_id t (
                    ap (observation_for host e) (
                      sym (ap (λ x. x.1.observations) here)
                      ∙ find_or_record_observations attempt request facts known facts.payment_id s)
                    ∙ n)))
              (λ _ _ _. tt))))

  observe_once-Stored :
      (now : ℕ) (s : Ledger) (o : Option PaymentObservation)
      → observation_for host e s.observations ≡ o
      → IsStored (observe_once host e now o s)
  unfolding observe_once
  observe_once-Stored now s (some o) h = h
  observe_once-Stored now s none h = observe_new-Stored now s h

-- the block behind the two guards
abbrev guarded : Host → Event → ℕ → Bool → Bool → Exec Ledger PaymentObservation
guarded host e now b c = raise_if (not b) Error.validation >>= λ _.
    raise_if (not c) Error.validation >>= λ _.
    gets (λ x. observation_for host e x.observations) >>= observe_once host e now

seen_again :
    (host : Host) (e : Event) (now later : ℕ) (s t : Ledger) (o : PaymentObservation) (b c : Bool)
    → guarded host e now b c s ≡ (ok o, t)
    → guarded host e later b c t ≡ (ok o, t)
unfolding observe_once ◌>>=◌
seen_again host e now later s t o true true q =
    let stored : observation_for host e t.observations ≡ some o =
      subst (IsStored host e) q
        (observe_once-Stored host e now s (observation_for host e s.observations) refl) in
    rw stored refl
seen_again host e now later s t o true false q = absurd cc
seen_again host e now later s t o false c q = absurd cc

-- An event that is observed again, at any later time, gives the observation that was returned for it
-- first and changes nothing.
pub observed_once :
    (host : Host) (e : Event) (now later : ℕ) (s t : Ledger) (o : PaymentObservation)
    → observe_payment_event host e now s ≡ (ok o, t)
    → observe_payment_event host e later t ≡ (ok o, t)
unfolding observe_payment_event ◌>>=◌
observed_once host e now later s t o h =
    seen_again host e now later s t o (str_eq e.provider_environment "test") e.signature_verified h
