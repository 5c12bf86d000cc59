-- ===== src/Payments/Sources.antt =====
-- Where the payment of an observed event comes from, and what its record keeps.
use scope_guard.Base.{
  ℕ, ◌≡◌, refl, ap, subst, ◌⊎◌, inl, inr, String, Bool, true, false, not, ◌&&◌, Option, none, some,
  arith, All, All-put, Result, ok, err, lift, ◌>>=◌,
}
use scope_guard.Base.Does.{Does, Post, Anything, Does-pure, Does-if, Does-bind, Does-then}
use scope_guard.Payments.Tables.{
  PaymentStatus, PaymentRequest, LinkStatus, PaymentLinkAttempt, PaymentAttempt, Ledger, request_id,
}
use scope_guard.Payments.Texts.{Host}
use scope_guard.Payments.Status.{Move, stays, changes, refused, move, by_move, moved, transition}
use scope_guard.Payments.Facts.{
  Facts, read_facts, mismatch, is_paid_event, is_capture_event, is_expiry_event, is_cancel_event,
  is_captured,
}
use scope_guard.Payments.Observe.{
  Event, attempt_for, payment_for, new_payment, add_payment, record_payment, find_or_record,
  save_link, save_request, move_request, move_pending, under_review, captured_payment, close_event,
  settle_event, apply_event,
}

-- Where the payment of an event comes from: the row that is stored for it, or a new row that is
-- captured when the event says so.
abbrev pub IsSource : Option PaymentAttempt → String → PaymentAttempt → Type 0
IsSource known observed p =
    (known ≡ some p) ⊎ ((known ≡ none) × (p.captured ≡ is_captured observed))

-- The evidence of a collected payment in an event for the request `j`.
pub record IsVerified (host : Host) (e : Event) (s : Ledger) (j : ℕ) : Type 0 where
  pub attempt : PaymentLinkAttempt
  pub payment : PaymentAttempt
  pub found : attempt_for (read_facts host e.payload e.event_type).link_id s.links ≡ some attempt
  pub owner : attempt.payment_request_id ≡ j
  pub exact :
      mismatch attempt
        (read_facts host e.payload e.event_type)
        e.provider_account_id
        e.provider_environment
        e.event_type
      ≡ false
  pub source :
      IsSource
        (payment_for (read_facts host e.payload e.event_type).payment_id s.payments)
        (read_facts host e.payload e.event_type).observed_status
        payment
  pub captured : payment.captured ≡ true
  pub event : is_paid_event e.event_type ≡ true

seen_captured :
    (event : String) (c : Bool)
    → (is_capture_event event && not c) ≡ false
    → is_paid_event event ≡ true
    → c ≡ true
unfolding is_capture_event
seen_captured event c h p = ground arith

pub Option-some :
    (o : Option PaymentAttempt) → captured_payment o ≡ true → (p : PaymentAttempt) × (o ≡ some p)
Option-some none h = absurd cc
Option-some (some p) h = (p, refl)

module _ (a : Option PaymentLinkAttempt) (r : Option PaymentRequest) (facts : Facts)
    (id : String) where
  record_payment_requests :
      (n : Option ℕ) (s : Ledger) → (record_payment a r facts id n s).1.requests ≡ s.requests
  unfolding record_payment add_payment ◌>>=◌
  record_payment_requests none s = refl
  record_payment_requests (some n) s = ground arith

  record_payment_captured :
      (n : Option ℕ) (s : Ledger) (p : PaymentAttempt)
      → (record_payment a r facts id n s).0 ≡ ok (some p)
      → p.captured ≡ is_captured facts.observed_status
  unfolding record_payment add_payment new_payment ◌>>=◌
  record_payment_captured none s p e = absurd cc
  record_payment_captured (some n) s p e = ground arith

Post-of :
    {A : Type 0} {P : A → Type 0} (x : Result (Option A))
    → ((p : A) → x ≡ ok (some p) → P p)
    → Post (λ o. (p : A) → o ≡ some p → P p) x
Post-of (ok o) h = λ p e. h p (ap ok e)
Post-of (err f) h = tt

module _ (j : ℕ) (E : Type 0) where
  -- a row of `j` that is paid has the evidence
  abbrev pub IsBacked : PaymentRequest → Type 0
  IsBacked x = x.id ≡ j → x.status ≡ PaymentStatus.paid → E

  abbrev pub AreBacked : Ledger → Type 0
  AreBacked s = All IsBacked s.requests

  by_move-Backed :
      (m : Move) (r q : PaymentRequest) (target : PaymentStatus) (now : ℕ)
      → IsBacked r
      → (r.id ≡ j → target ≡ PaymentStatus.paid → E)
      → by_move m r target now ≡ ok q
      → IsBacked q
  unfolding by_move moved
  by_move-Backed stays r q target now h k e = let same : r ≡ q = cc in subst IsBacked same h
  by_move-Backed changes r q target now h k e =
      let same : moved r target now ≡ q = cc in subst IsBacked same k
  by_move-Backed refused r q target now h k e = absurd cc

  save_request-Does : (q : PaymentRequest) → IsBacked q → Does AreBacked Anything (save_request q)
  unfolding save_request
  save_request-Does q h = record {
    keeps = λ s p. All-put IsBacked q s.requests h p;
    gives = λ s p. tt;
  }

  lift-Does : (x : Result PaymentRequest) → Does AreBacked (λ q. x ≡ ok q) (lift x)
  lift-Does (ok q) = record { keeps = λ s p. p; gives = λ s p. refl }
  lift-Does (err e) = record { keeps = λ s p. p; gives = λ s p. tt }

  pub save_link-Does : (a : PaymentLinkAttempt) → Does AreBacked Anything (save_link a)
  unfolding save_link
  save_link-Does a = record { keeps = λ s p. p; gives = λ s p. tt }

  module _ (r : PaymentRequest) (h : IsBacked r) (now : ℕ) where
    pub move_request-Does :
        (target : PaymentStatus)
        → (r.id ≡ j → target ≡ PaymentStatus.paid → E)
        → Does AreBacked Anything (move_request r target now)
    unfolding move_request transition
    move_request-Does target k =
        Does-bind _ _ (lift-Does (by_move (move r.status target) r target now))
          (λ q e. save_request-Does q (by_move-Backed (move r.status target) r q target now h k e))

    move_pending-Does :
        (target : PaymentStatus)
        → (r.id ≡ j → target ≡ PaymentStatus.paid → E)
        → Does AreBacked Anything (move_pending r target now)
    unfolding move_pending
    move_pending-Does target k =
        Does-if _ _ _ (λ _. move_request-Does target k) (λ _. Does-pure tt tt)

    under_review-Does : (a : PaymentLinkAttempt) → Does AreBacked Anything (under_review r a now)
    unfolding under_review
    under_review-Does a =
        Does-bind _ _ (save_link-Does _)
          (λ _ _. move_request-Does PaymentStatus.review_required (λ _ c. absurd cc))

    close_event-Does :
        (a : PaymentLinkAttempt) (e : Event) → Does AreBacked Anything (close_event r a e now)
    unfolding close_event
    close_event-Does a e =
        Does-if (is_expiry_event e.event_type) _ _
          (λ _.
            Does-then (save_link (record a { status = LinkStatus.expired })) _ (save_link-Does _)
              (move_pending-Does PaymentStatus.expired (λ _ x. absurd cc)))
          (λ _.
            Does-if (is_cancel_event e.event_type) _ _
              (λ _.
                Does-then (save_link (record a { status = LinkStatus.cancelled })) _
                  (save_link-Does _) (move_pending-Does PaymentStatus.cancelled (λ _ x. absurd cc)))
              (λ _. save_link-Does a))

    settle_event-Does :
        (a : PaymentLinkAttempt) (payment : Option PaymentAttempt) (e : Event)
        → (is_paid_event e.event_type ≡ true → captured_payment payment ≡ true → r.id ≡ j → E)
        → Does AreBacked Anything (settle_event r a payment e now)
    unfolding settle_event
    settle_event-Does a payment e k =
        Does-if (is_capture_event e.event_type && not (captured_payment payment)) _ _
          (λ _. under_review-Does a)
          (λ seen.
            Does-if (is_paid_event e.event_type) _ _
              (λ paid. Does-then (save_link a) _ (save_link-Does a) (
                move_request-Does PaymentStatus.paid (λ own _.
                  k paid (seen_captured e.event_type (captured_payment payment) seen paid) own)))
              (λ _. close_event-Does a e))

    pub apply_event-Does :
        (a : PaymentLinkAttempt) (payment : Option PaymentAttempt) (facts : Facts) (e : Event)
        → (mismatch a facts e.provider_account_id e.provider_environment e.event_type ≡ false
            → is_paid_event e.event_type ≡ true
            → captured_payment payment ≡ true
            → r.id ≡ j
            → E)
        → Does AreBacked Anything (apply_event r a payment facts e now)
    unfolding apply_event
    apply_event-Does a payment facts e k =
        Does-if (mismatch a facts e.provider_account_id e.provider_environment e.event_type) _ _
          (λ _. under_review-Does a) (λ exact. settle_event-Does _ payment e (k exact))

  pub find_or_record-Does :
      (known : Option PaymentAttempt) (a : Option PaymentLinkAttempt) (r : Option PaymentRequest)
      (facts : Facts) (id : Option String)
      → Does AreBacked
          (λ o. (p : PaymentAttempt) → o ≡ some p → IsSource known facts.observed_status p)
          (find_or_record known a r facts id)
  unfolding find_or_record
  find_or_record-Does (some p) a r facts id = record { keeps = λ s h. h; gives = λ s h q e. inl e }
  find_or_record-Does none a r facts none = record {
    keeps = λ s h. h;
    gives = λ s h q e. absurd cc;
  }
  find_or_record-Does none a r facts (some id) = record {
    keeps = λ s h. rw (record_payment_requests a r facts id facts.amount s) h;
    gives = λ s h.
        Post-of (record_payment a r facts id facts.amount s).0
          (λ p e. inr (refl, record_payment_captured a r facts id facts.amount s p e));
  }
