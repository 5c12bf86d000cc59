-- ===== src/Payments/Capture.antt =====
-- A request becomes paid only by a verified capture of its exact amount.
use scope_guard.Base.{
  ℕ, ◌≡◌, ◌≢◌, refl, sym, Bool, true, false, not, Option, none, some, All, All-get, All-map, get,
  get-id, str_eq, Error, Exec, raise_if, gets, ◌>>=◌,
}
use scope_guard.Base.Does.{Does, Anything, Does-pure, Does-bind}
use scope_guard.Payments.Tables.{
  PaymentStatus, PaymentRequest, PaymentLinkAttempt, PaymentAttempt, PaymentObservation, Ledger,
  request_id,
}
use scope_guard.Payments.Texts.{Host}
use scope_guard.Payments.Facts.{read_facts}
use scope_guard.Payments.Observe.{
  Event, attempt_for, request_for, payment_for, matched_pair, new_observation, add_observation,
  apply_pair, observe_new, observe_once, observe_payment_event, observation_for,
}
use scope_guard.Payments.Sources.{
  AreBacked, IsBacked, IsSource, IsVerified, Option-some, apply_event-Does, find_or_record-Does,
}

pub found_request :
    (j : ℕ) (E : Type 0) (o : Option PaymentLinkAttempt) (s : Ledger) (r : PaymentRequest)
    → All (IsBacked j E) s.requests
    → request_for o s.requests ≡ some r
    → IsBacked j E r × ((a : PaymentLinkAttempt) × (o ≡ some a) × (a.payment_request_id ≡ r.id))
unfolding request_for
found_request j E none s r h e = absurd cc
found_request j E (some a) s r h e = (
  All-get (IsBacked j E) a.payment_request_id s.requests r e h,
  (a, refl, sym (get-id a.payment_request_id s.requests e)),
)

module _ (host : Host) (e : Event) (now : ℕ) (j : ℕ) (s : Ledger) where
  abbrev Goal : Type 0
  Goal = IsVerified host e s j

  apply_pair-Does :
      (o : Option PaymentLinkAttempt) (request : Option PaymentRequest)
      (payment : Option PaymentAttempt)
      → attempt_for (read_facts host e.payload e.event_type).link_id s.links ≡ o
      → request_for o s.requests ≡ request
      → All (IsBacked j Goal) s.requests
      → ((p : PaymentAttempt)
          → payment ≡ some p
          → IsSource
              (payment_for (read_facts host e.payload e.event_type).payment_id s.payments)
              (read_facts host e.payload e.event_type).observed_status
              p)
      → Does (AreBacked j Goal) Anything (
          apply_pair
            (matched_pair request o)
            payment
            (read_facts host e.payload e.event_type)
            e
            now)
  unfolding apply_pair
  apply_pair-Does none none payment f g h k = Does-pure tt tt
  apply_pair-Does none (some r) payment f g h k = Does-pure tt tt
  apply_pair-Does (some a) none payment f g h k = Does-pure tt tt
  apply_pair-Does (some a) (some r) payment f g h k =
      let (backed, (a', same, own)) = found_request j Goal (some a) s r h g in
      let known : a ≡ a' = cc in
      apply_event-Does j Goal r backed now a payment (read_facts host e.payload e.event_type) e
        (λ exact paid got mine.
          let (p, here) = Option-some payment got in
          record {
            attempt = a;
            payment = p;
            found = f;
            owner = cc;
            exact = exact;
            source = k p here;
            captured = cc;
            event = paid;
          })

  add_observation-Does :
      (o : PaymentObservation) → Does (AreBacked j Goal) Anything (add_observation o)
  unfolding add_observation
  add_observation-Does o = record { keeps = λ s p. p; gives = λ s p. tt }

  next_id-Does : Does (AreBacked j Goal) Anything (gets (λ (x : Ledger). x.db.next_id))
  next_id-Does = record { keeps = λ s p. p; gives = λ s p. tt }

  observe_new-Backed :
      All (IsBacked j Goal) s.requests → AreBacked j Goal (observe_new host e now s).1
  unfolding observe_new ◌>>=◌
  observe_new-Backed h =
      let facts = read_facts host e.payload e.event_type in
      let attempt = attempt_for facts.link_id s.links in
      let request = request_for attempt s.requests in
      (Does-bind {T = Anything} _ _
          (find_or_record-Does j Goal (payment_for facts.payment_id s.payments) attempt request
            facts facts.payment_id)
          (λ payment k. Does-bind {T = Anything} _ _ next_id-Does (λ id _.
            Does-bind {T = Anything} _ _
              (add_observation-Does (new_observation host e facts request attempt payment id now))
              (λ _ _.
                Does-bind {T = Anything} _ _ (apply_pair-Does attempt request payment refl refl h k)
                  (λ _ _.
                    Does-pure (new_observation host e facts request attempt payment id now)
                      tt))))).keeps
        s h

  observe_once-Backed :
      (o : Option PaymentObservation)
      → All (IsBacked j Goal) s.requests
      → AreBacked j Goal (observe_once host e now o s).1
  unfolding observe_once
  observe_once-Backed (some o) h = h
  observe_once-Backed none h = observe_new-Backed h

-- the guards of `observe_payment_event`
abbrev pub IsAuthentic : Event → Type 0
IsAuthentic e = (str_eq e.provider_environment "test" ≡ true) × (e.signature_verified ≡ true)

behind_guards :
    (P : Ledger → Type 0) (b c : Bool) (m : Exec Ledger PaymentObservation) (s : Ledger)
    → P s
    → (b ≡ true → c ≡ true → P (m s).1)
    → P
        ((raise_if (not b) Error.validation >>= λ _. raise_if (not c) Error.validation >>= λ _. m)
          s).1
unfolding ◌>>=◌
behind_guards P true true m s p k = k refl refl
behind_guards P true false m s p k = p
behind_guards P false c m s p k = p

pub observe-Backed :
    (host : Host) (e : Event) (now j : ℕ) (s : Ledger)
    → All (λ x. x.id ≡ j → x.status ≢ PaymentStatus.paid) s.requests
    → AreBacked j (IsAuthentic e × IsVerified host e s j) (observe_payment_event host e now s).1
unfolding observe_payment_event ◌>>=◌
observe-Backed host e now j s h =
    behind_guards (AreBacked j (IsAuthentic e × IsVerified host e s j))
      (str_eq e.provider_environment "test") e.signature_verified
      (gets (λ x. observation_for host e x.observations) >>= observe_once host e now) s
      (All-map _ _ (λ x f i p. absurd (f i p)) s.requests h)
      (λ env sig.
        All-map _ _ (λ x f i p. ((env, sig), f i p)) _
          (observe_once-Backed host e now j s (observation_for host e s.observations)
            (All-map _ _ (λ x f i p. absurd (f i p)) s.requests h)))

-- When observing a provider event turns a request that was not paid into a paid one, then, whether the
-- call returns or raises: the event came from the test environment with a verified signature, it is
-- `payment_link.paid` or `payment.captured`, the link it names is an attempt of this request whose account,
-- environment, reference, amount, currency and order agree with the event, and its payment is
-- captured, in the row that was stored for the payment before or, where there was none, by the
-- event's own status.
pub paid_needs_capture :
    (host : Host) (e : Event) (now j : ℕ) (s : Ledger) (q : PaymentRequest)
    → All (λ x. x.id ≡ j → x.status ≢ PaymentStatus.paid) s.requests
    → get j (observe_payment_event host e now s).1.requests ≡ some q
    → q.status ≡ PaymentStatus.paid
    → IsAuthentic e × IsVerified host e s j
paid_needs_capture host e now j s q h g p =
    let t = (observe_payment_event host e now s).1 in
    All-get (IsBacked j (IsAuthentic e × IsVerified host e s j)) j t.requests q g
      (observe-Backed host e now j s h) (get-id j t.requests g) p
