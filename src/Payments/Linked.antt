-- ===== src/Payments/Linked.antt =====
-- Preparing a payment link keeps what the dates of a request do not change.
use scope_guard.Base.{ℕ, Option, none, some, All, All-put, find?-All, Error, Exec, gets}
use scope_guard.Base.Does.{
  Does, Anything, Post-Anything, Does-pure, Does-raise_if, Does-lookup, Does-bind,
}
use scope_guard.Domain.Auth.{TrustedContext}
use scope_guard.Workers.Tables.{Db, ExternalAction}
use scope_guard.Payments.Tables.{PaymentRequest, PaymentLinkAttempt, Ledger, request_id}
use scope_guard.Payments.Texts.{Host}
use scope_guard.Payments.Observe.{save_request}
use scope_guard.Payments.Links.{
  Settings, dated, on_db, is_payment, find_payment, find_recipient, add_link, prepare_next,
  reuse_active, prepare_payment_link,
}

module _ (G : PaymentRequest → Type 0) where
  gets-G : {A : Type 0} (f : Ledger → A) → Does (λ s. All G s.requests) Anything (gets f)
  gets-G f = record { keeps = λ s p. p; gives = λ s p. tt }

  on_db-G : {A : Type 0} (m : Exec Db A) → Does (λ s. All G s.requests) Anything (on_db m)
  unfolding on_db
  on_db-G m = record { keeps = λ s p. p; gives = λ s p. Post-Anything (m s.db).0 }

  recipient-G : (p : PaymentRequest) → Does (λ s. All G s.requests) Anything (find_recipient p)
  unfolding find_recipient
  recipient-G p = Does-lookup _ Error.conflict (λ _ _ _ _. tt)

  payment-G : (c : TrustedContext) (i : ℕ) → Does (λ s. All G s.requests) G (find_payment c i)
  unfolding find_payment
  payment-G c i =
      Does-lookup _ Error.not_found (λ s p h e. (find?-All G (is_payment c i) s.requests p h e).0)

  save-G : (p : PaymentRequest) → G p → Does (λ s. All G s.requests) Anything (save_request p)
  unfolding save_request
  save-G p g = record { keeps = λ s h. All-put G p s.requests g h; gives = λ s h. tt }

  add_link-G :
      (k : Option PaymentLinkAttempt) (p : PaymentRequest) (n : ℕ) (r a : _) (i : ℕ)
      → Does (λ s. All G s.requests) Anything (add_link k p n r a i)
  unfolding add_link
  add_link-G none p n r a i = record { keeps = λ s h. h; gives = λ s h. tt }
  add_link-G (some x) p n r a i = record { keeps = λ s h. h; gives = λ s h. tt }

  module _ (host : Host) (settings : Settings) (context : TrustedContext) (now : ℕ)
      (keep : (p : PaymentRequest) → G p → G (dated p now)) where
    next-G :
        (p : PaymentRequest)
        → G p
        → Does (λ s. All G s.requests) Anything (prepare_next host settings context now p)
    unfolding prepare_next
    next-G p g = Does-bind _ _ (gets-G _) (λ number _.
        Does-bind _ _ (Does-raise_if _ Error.conflict) (λ _ _.
          Does-bind _ _ (recipient-G p) (λ email _.
            Does-bind _ _ (Does-raise_if _ Error.conflict) (λ _ _.
              Does-bind _ _ (save-G (dated p now) (keep p g)) (λ _ _.
                Does-bind _ _ (on_db-G _) (λ action _. Does-bind _ _ (gets-G _) (λ known _.
                  Does-bind _ _ (add_link-G known _ _ _ _ _)
                    (λ _ _. Does-bind _ _ (on_db-G _) (λ job _. Does-pure _ tt)))))))))

    reuse-G :
        (p : PaymentRequest) (o : Option ExternalAction)
        → G p
        → Does (λ s. All G s.requests) Anything (reuse_active host settings context now p o)
    unfolding reuse_active
    reuse-G p (some a) g = record { keeps = λ s h. h; gives = λ s h. tt }
    reuse-G p none g = next-G p g

    pub prepare_payment_link-All :
        (i : ℕ)
        → Does (λ s. All G s.requests) Anything (prepare_payment_link host settings context now i)
    unfolding prepare_payment_link
    prepare_payment_link-All i = Does-bind _ _ (payment-G context i) (λ p g.
        Does-bind _ _ (Does-raise_if _ Error.conflict)
          (λ _ _. Does-bind _ _ (gets-G _) (λ existing _. reuse-G p existing g)))
