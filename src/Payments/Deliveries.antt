-- ===== src/Payments/Deliveries.antt =====
-- A delivery of the provider is stored and queued once.
use scope_guard.Base.{
  ℕ, ◌≡◌, refl, sym, ap, subst, ◌∙◌, String, Bool, true, false, not, ◌||◌, Option, none, some,
  eq_iff, find?, find?-last, str_eq, Error, Result, ok, err, Exec, pure, gets, raise_if, ◌>>=◌,
  bind_ok, bind_cases, get_field,
}
use scope_guard.Workers.Tables.{Job}
use scope_guard.Payments.Tables.{PaymentLinkAttempt, PaymentWebhookIngress, Ledger}
use scope_guard.Payments.Texts.{Host, strip, text_or, is_empty}
use scope_guard.Payments.Facts.{entity, clean}
use scope_guard.Payments.Observe.{Event}
use scope_guard.Payments.Links.{on_db}
use scope_guard.Payments.Webhooks.{
  is_delivery, find_target, enqueue_normalize, new_ingress, add_ingress, accept_new, accept_once,
  accept_payment_webhook,
}

module _ (host : Host) (e : Event) (account event : String) where
  abbrev stored_for : Ledger → Option PaymentWebhookIngress
  stored_for s = find? (is_delivery account e.provider_environment event) s.ingress

  -- What was returned is what the table holds for the delivery.
  abbrev IsStored : Result (PaymentWebhookIngress × Option Job) × Ledger → Type 0
  IsStored (ok (i, job), t) = stored_for t ≡ some i
  IsStored (err f, t) = Unit

  new_ingress_matches :
      (now id : ℕ) (kind : String)
      → is_delivery account e.provider_environment event
          (new_ingress host e now account kind event id)
        ≡ true
  unfolding is_delivery new_ingress
  new_ingress_matches now id kind = rw ((eq_iff account account).1 refl) (
      rw ((eq_iff e.provider_environment e.provider_environment).1 refl)
        ((eq_iff event event).1 refl))

  -- the queueing does not touch the stored deliveries
  queue-Stored :
      (i : PaymentWebhookIngress) (target : Option PaymentLinkAttempt) (id now : ℕ) (t : Ledger)
      → stored_for t ≡ some i
      → IsStored ((on_db (enqueue_normalize target id now) >>= λ job. pure (i, job)) t)
  unfolding on_db
  queue-Stored i target id now t h =
      bind_cases IsStored (on_db (enqueue_normalize target id now)) _ t
        (λ job u done.
          ap (find? (is_delivery account e.provider_environment event))
            (sym (ap (λ x. x.1.ingress) done))
          ∙ h)
        (λ _ _ _. tt)

  accept_new-Stored :
      (now : ℕ) (kind : String) (s : Ledger)
      → stored_for s ≡ none
      → IsStored (accept_new host e now account kind event s)
  unfolding accept_new add_ingress
  accept_new-Stored now kind s n =
      let i = new_ingress host e now account kind event s.db.next_id in
      let t : Ledger = (add_ingress host e now i s).1 in
      let link = entity e.payload "payment_link" in
      let target =
        find_target account e.provider_environment (clean host (get_field "id" link))
          (clean host (get_field "reference_id" link)) t.links in
      bind_ok IsStored (gets (λ x. x.db.next_id)) _ s s.db.next_id s refl (
        bind_ok IsStored (add_ingress host e now i) _ s tt t refl (
          bind_ok IsStored
            (gets (λ x.
              find_target account e.provider_environment (clean host (get_field "id" link))
                (clean host (get_field "reference_id" link)) x.links))
            _ t target t refl
            (queue-Stored i target s.db.next_id now t
              (find?-last _ s.ingress i n (new_ingress_matches now s.db.next_id kind)))))

  accept_once-Stored :
      (now : ℕ) (kind : String) (s : Ledger) (o : Option PaymentWebhookIngress)
      → stored_for s ≡ o
      → IsStored (accept_once host e now account kind event o s)
  unfolding accept_once
  accept_once-Stored now kind s (some i) h = h
  accept_once-Stored now kind s none h = accept_new-Stored now kind s h

-- the block behind the three guards
abbrev behind_guards :
    Host → Event → ℕ → Bool → Bool → Bool → Exec Ledger (PaymentWebhookIngress × Option Job)
behind_guards host e now a b c = raise_if a Error.validation >>= λ _.
    raise_if b Error.validation >>= λ _. raise_if c Error.validation >>= λ _.
    gets (λ s.
      find?
        (is_delivery (strip e.provider_account_id) e.provider_environment
          (text_or (strip e.provider_event_id) (host.canonical_hex e.payload)))
        s.ingress)
    >>= accept_once host e now (strip e.provider_account_id) (strip e.event_type)
        (text_or (strip e.provider_event_id) (host.canonical_hex e.payload))

accepted_again :
    (host : Host) (e : Event) (now later : ℕ) (s t : Ledger) (i : PaymentWebhookIngress)
    (job : Option Job) (a b c : Bool)
    → behind_guards host e now a b c s ≡ (ok (i, job), t)
    → behind_guards host e later a b c t ≡ (ok (i, none), t)
unfolding accept_once ◌>>=◌
accepted_again host e now later s t i job false false false q =
    let account = strip e.provider_account_id in
    let event = text_or (strip e.provider_event_id) (host.canonical_hex e.payload) in
    let stored : stored_for host e account event t ≡ some i =
      subst (IsStored host e account event) q (
        accept_once-Stored host e account event now (strip e.event_type) s
          (stored_for host e account event s) refl) in
    rw stored refl
accepted_again host e now later s t i job true b c q = absurd cc
accepted_again host e now later s t i job false true c q = absurd cc
accepted_again host e now later s t i job false false true q = absurd cc

-- A webhook delivery that was accepted is, when the provider delivers it again at any time, answered with
-- the ingress that was stored for it, queues no further job and changes nothing.
pub accepted_once :
    (host : Host) (e : Event) (now later : ℕ) (s t : Ledger) (i : PaymentWebhookIngress)
    (job : Option Job)
    → accept_payment_webhook host e now s ≡ (ok (i, job), t)
    → accept_payment_webhook host e later t ≡ (ok (i, none), t)
unfolding accept_payment_webhook ◌>>=◌
accepted_once host e now later s t i job h =
    accepted_again host e now later s t i job (not (str_eq e.provider_environment "test"))
      (not e.signature_verified)
      (is_empty (strip e.provider_account_id) || is_empty (strip e.event_type)) h
