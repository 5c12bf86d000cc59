-- ===== src/Payments/Flat.antt =====
-- What reconciliation sees of a provider that answers with the payment link itself.
use scope_guard.Base.{
  ℕ, ◌≡◌, ◌≢◌, ◌∙◌, refl, ap, subst, inl, inr, find?, String, Option, none, some, List, [], ◌∷◌,
  arith, All, All-map, Bool-cases, Error, Result, ok, err, Fields, end, get_field,
}
use scope_guard.Base.Does.{
  Does, Anything, Post-Anything, Does-raise, Does-raise_if, Does-lookup, Does-bind,
}
use scope_guard.Domain.Auth.{TrustedContext}
use scope_guard.Payments.Tables.{
  PaymentStatus, PaymentRequest, PaymentLinkAttempt, PaymentObservation, Ledger, request_id,
}
use scope_guard.Payments.Texts.{Host, fields_of, strip, strip_left, strip_right, text_in, truthy}
use scope_guard.Payments.Facts.{read_facts, facts_of, entity, clean}
use scope_guard.Payments.Observe.{observe_payment_event, attempt_for}
use scope_guard.Payments.Capture.{observe-Backed}
use scope_guard.Payments.Sources.{
  AreBacked, IsVerified, save_link-Does, move_request-Does, IsBacked,
}
use scope_guard.Payments.Links.{find_payment, latest_link, is_payment}
use scope_guard.Payments.Reconcile.{
  LookupProvider, found_link, payload_entity, reconcile_event, observe_link, observe_found,
  adopt_match, search_or_observe, reconcile_payment_request,
}

-- A provider whose answers are flat: no object stands under their key `entity`.
abbrev pub IsFlat : LookupProvider → Type 0
IsFlat provider =
    (link : String) (r : Fields)
    → provider.fetch_payment_link link ≡ ok r
    → fields_of (get_field "entity" r) ≡ end

reconcile_entity :
    (host : Host) (a : PaymentLinkAttempt) (link : String) (r : Fields) (total : ℕ)
    → entity (reconcile_event host a link r total).payload "payment_link"
      ≡ fields_of (get_field "entity" r)
unfolding entity reconcile_event payload_entity get_field
reconcile_entity host a link r total = refl

no_link_id : (host : Host) → clean host (get_field "id" end) ≡ none
unfolding clean get_field text_in truthy strip strip_left strip_right
no_link_id host = refl

no_target :
    (host : Host) (a : PaymentLinkAttempt) (link : String) (r : Fields) (total : ℕ)
    → fields_of (get_field "entity" r) ≡ end
    → let e = reconcile_event host a link r total in
      (read_facts host e.payload e.event_type).link_id ≡ none
unfolding read_facts facts_of
no_target host a link r total h =
    let e = reconcile_event host a link r total in
    ap (λ (fs : Fields). clean host (get_field "id" fs)) (reconcile_entity host a link r total ∙ h)
    ∙ no_link_id host

unverified :
    (host : Host) (a : PaymentLinkAttempt) (link : String) (r : Fields) (total j : ℕ) (s : Ledger)
    → fields_of (get_field "entity" r) ≡ end
    → ¬ (IsVerified host (reconcile_event host a link r total) s j)
unfolding attempt_for
unverified host a link r total j s h v =
    let missing : attempt_for none s.links ≡ some v.attempt =
      subst (λ o. attempt_for o s.links ≡ some v.attempt) (no_target host a link r total h)
        v.found in
    absurd cc

module _ (host : Host) (provider : LookupProvider) (now j : ℕ) (flat : IsFlat provider) where
  -- no row of the request is paid
  abbrev Open : Ledger → Type 0
  Open = AreBacked j ⊥

  answer-Open :
      (p : PaymentRequest) (a : PaymentLinkAttempt) (link : String) (x : Result Fields)
      → provider.fetch_payment_link link ≡ x
      → Does {A = PaymentObservation} Open Anything (λ s. elim x [
        | err e ↦ (err e, s)
        | ok r ↦ observe_payment_event host (reconcile_event host a link r p.total_minor) now s
      ])
  answer-Open p a link (err e) f = Does-raise e
  answer-Open p a link (ok r) f = record {
    keeps = λ s h.
        All-map _ _
          (λ x k i paid. unverified host a link r p.total_minor j s (flat link r f) (k i paid).1) _
          (observe-Backed host (reconcile_event host a link r p.total_minor) now j s h);
    gives = λ s h.
        Post-Anything
          (observe_payment_event host (reconcile_event host a link r p.total_minor) now s).0;
  }

  observe_link-Open :
      (p : PaymentRequest) (a : PaymentLinkAttempt) (link : String)
      → Does Open Anything (observe_link host provider now p a link)
  unfolding observe_link
  observe_link-Open p a link = answer-Open p a link (provider.fetch_payment_link link) refl

  observe_found-Open :
      (p : PaymentRequest) (a : PaymentLinkAttempt) (o : Option String)
      → Does Open Anything (observe_found host provider now p a o)
  unfolding observe_found
  observe_found-Open p a none = Does-raise Error.conflict
  observe_found-Open p a (some link) = observe_link-Open p a link

  adopt_match-Open :
      (p : PaymentRequest)
      → IsBacked j ⊥ p
      → (a : PaymentLinkAttempt) (o : Option Fields)
      → Does Open Anything (adopt_match host provider now p a o)
  unfolding adopt_match
  adopt_match-Open p h a none = Does-bind {T = Anything} _ _ (save_link-Does j ⊥ _) (λ _ _.
      Does-bind {T = Anything} _ _
        (move_request-Does j ⊥ p h now PaymentStatus.review_required (λ _ x. absurd cc))
        (λ _ _. Does-raise Error.conflict))
  adopt_match-Open p h a (some r) =
      Does-bind {T = Anything} _ _ (save_link-Does j ⊥ (found_link host r a))
        (λ _ _. observe_found-Open p (found_link host r a) (found_link host r a).provider_link_id)

  search_or_observe-Open :
      (p : PaymentRequest)
      → IsBacked j ⊥ p
      → (a : PaymentLinkAttempt) (o : Option String)
      → Does Open Anything (search_or_observe host provider now p a o)
  unfolding search_or_observe
  search_or_observe-Open p h a none = adopt_match-Open p h a _
  search_or_observe-Open p h a (some link) = observe_link-Open p a link

  found-Backed :
      (context : TrustedContext) (i : ℕ) (rs : List PaymentRequest) (p : PaymentRequest)
      → All (IsBacked j ⊥) rs
      → find? (is_payment context i) rs ≡ some p
      → IsBacked j ⊥ p
  unfolding find?
  found-Backed context i [] p h e = absurd cc
  found-Backed context i (x ∷ xs) p h e = elim (Bool-cases (is_payment context i x)) [
    | inl hit ↦ let same : x ≡ p = ground (arith, hit, e) in subst (IsBacked j ⊥) same h.0
    | inr miss ↦ found-Backed context i xs p h.1 (ground (arith, miss, e))
  ]

  find_payment-Open :
      (context : TrustedContext) (i : ℕ) → Does Open (IsBacked j ⊥) (find_payment context i)
  unfolding find_payment
  find_payment-Open context i =
      Does-lookup _ Error.not_found (λ s p h e. found-Backed context i s.requests p h e)

-- With a provider whose answers are flat, as those of the payment-link interface are, reconciling a
-- request never turns it into a paid one, whatever the answer says of its payments.
pub reconcile_never_pays :
    (host : Host) (provider : LookupProvider) (context : TrustedContext) (now i j : ℕ) (s : Ledger)
    → IsFlat provider
    → All (λ x. x.id ≡ j → x.status ≢ PaymentStatus.paid) s.requests
    → All
        (λ x. x.id ≡ j → x.status ≢ PaymentStatus.paid)
        (reconcile_payment_request host provider now context i s).1.requests
unfolding reconcile_payment_request
reconcile_never_pays host provider context now i j s flat h =
    (Does-bind {P = AreBacked j ⊥} {T = Anything} _ _
        (find_payment-Open host provider now j flat context i)
        (λ p backed. Does-bind {T = Anything} _ _ (Does-raise_if _ Error.conflict) (λ _ _.
          Does-bind {T = Anything} _ _
            (Does-lookup {R = Anything} (λ x. latest_link p.id x.links) Error.conflict
              (λ _ _ _ _. tt))
            (λ a _. Does-bind {T = Anything} _ _ (Does-raise_if _ Error.conflict) (λ _ _.
              search_or_observe-Open host provider now j flat p backed a
                a.provider_link_id))))).keeps
      s h
