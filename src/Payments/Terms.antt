-- ===== src/Payments/Terms.antt =====
-- A payment link is recorded only for an answer that repeats the frozen terms.
use scope_guard.Base.{
  ℕ, ◌≡◌, refl, subst, ◌∙◌, ◌⊎◌, inl, inr, String, Bool, true, false, not, ◌&&◌, ◌||◌, Option, none,
  some, arith, eq_iff, Bool-cases, str_eq, find?, get, Error, Result, ok, raise_if, bind_inv,
  looked_up, null, bool, num, other, str, arr, obj, Fields, get_field,
}
use scope_guard.Workers.Tables.{ExternalAction, action_id}
use scope_guard.Payments.Tables.{PaymentRequest, PaymentLinkAttempt, Ledger, request_id}
use scope_guard.Payments.Texts.{Host, strip, upper, text_in, is_empty}
use scope_guard.Payments.Links.{awaits_link}
use scope_guard.Payments.Dispatch.{
  Response, answered, retryable, rejected, crashed, Provider, is_number, LinkResponse, Validated,
  accepted, refused, validate_link_response, link_action_of, has_action, find_link, made_link,
  uncertain_link, rejected_link, created_link, check_link, on_response, dispatch_new,
  dispatch_or_reuse, dispatch_payment_link,
}

-- An answer that names a link and repeats the amount, the currency and the reference of the attempt.
pub record HasTerms (host : Host) (attempt : PaymentLinkAttempt) (response : Fields) (link : String)
    : Type 0 where
  pub identity : strip (text_in host (get_field "id" response)) ≡ link
  pub named : is_empty link ≡ false
  pub amount : is_number (get_field "amount" response) attempt.amount_minor ≡ true
  pub currency : upper (strip (text_in host (get_field "currency" response))) ≡ attempt.currency
  pub reference : strip (text_in host (get_field "reference_id" response)) ≡ attempt.reference_id

-- What stands behind a link that a dispatch returned.
pub record IsDispatched (host : Host) (provider : Provider) (i : ℕ) (s : Ledger) (link : String)
    : Type 0 where
  pub action : ExternalAction
  pub attempt : PaymentLinkAttempt
  pub request : PaymentRequest
  pub response : Fields
  pub approved : link_action_of (get i s.db.actions) ≡ some action
  pub own : find? (has_action action.id) s.links ≡ some attempt
  pub found : get attempt.payment_request_id s.requests ≡ some request
  pub awaited : awaits_link request.status ≡ true
  pub account :
      (str_eq provider.environment "test" && str_eq provider.account_id attempt.provider_account_id)
      ≡ true
  pub asked : provider.create_payment_link action.approved_payload ≡ answered (obj response)
  pub terms : HasTerms host attempt response link

-- A link that an action made before.
pub record IsMade (i : ℕ) (s : Ledger) (link : String) : Type 0 where
  pub action : ExternalAction
  pub attempt : PaymentLinkAttempt
  pub approved : link_action_of (get i s.db.actions) ≡ some action
  pub own : find? (has_action action.id) s.links ≡ some attempt
  pub done : made_link action.state attempt.provider_link_id ≡ some link

accepted_terms :
    (host : Host) (a : PaymentLinkAttempt) (response : Fields) (r : LinkResponse)
    → validate_link_response host a response ≡ accepted r
    → HasTerms host a response r.provider_id
unfolding validate_link_response
accepted_terms host a response r e =
    let id = strip (text_in host (get_field "id" response)) in
    let url = strip (text_in host (get_field "short_url" response)) in
    let currency = upper (strip (text_in host (get_field "currency" response))) in
    let reference = strip (text_in host (get_field "reference_id" response)) in
    let bad_terms =
      not (is_number (get_field "amount" response) a.amount_minor)
      || (not (str_eq currency a.currency) || not (str_eq reference a.reference_id)) in
    elim (Bool-cases (is_empty id || is_empty url)) [
      | inl missing ↦ absurd (ground (arith, missing, e))
      | inr there ↦ elim (Bool-cases bad_terms) [
        | inl bad ↦ absurd (ground (arith, there, bad, e))
        | inr good ↦
            let same : id ≡ r.provider_id = ground (arith, there, good, e) in
            record {
              identity = same;
              named = subst (λ x. is_empty x ≡ false) same (ground (arith, there));
              amount = ground (arith, good);
              currency = (eq_iff currency a.currency).0 (ground (arith, good));
              reference = (eq_iff reference a.reference_id).0 (ground (arith, good));
            }
      ]
    ]

module _ (host : Host) (now : ℕ) (action : ℕ) (attempt : PaymentLinkAttempt)
    (payment : PaymentRequest) where
  uncertain_raises :
      (reason : String) (e : Error) (s t : Ledger) (link : String)
      → ¬ (uncertain_link host now action attempt payment reason e s ≡ (ok link, t))
  unfolding uncertain_link
  uncertain_raises reason e s t link h =
      let (_, _, _, h₁) = bind_inv _ _ s t link h in
      let (_, _, _, h₂) = bind_inv _ _ _ t link h₁ in
      let (_, _, _, h₃) = bind_inv _ _ _ t link h₂ in cc

  rejected_raises :
      (reason : String) (s t : Ledger) (link : String)
      → ¬ (rejected_link host now action attempt payment reason s ≡ (ok link, t))
  unfolding rejected_link
  rejected_raises reason s t link h =
      let (_, _, _, h₁) = bind_inv _ _ s t link h in
      let (_, _, _, h₂) = bind_inv _ _ _ t link h₁ in
      let (_, _, _, h₃) = bind_inv _ _ _ t link h₂ in cc

  created_gives :
      (response : Fields) (r : LinkResponse) (s t : Ledger) (link : String)
      → created_link host now action attempt payment response r s ≡ (ok link, t)
      → r.provider_id ≡ link
  unfolding created_link
  created_gives response r s t link h =
      let (_, _, _, h₁) = bind_inv _ _ s t link h in
      let (_, _, _, h₂) = bind_inv _ _ _ t link h₁ in
      let (_, _, _, h₃) = bind_inv _ _ _ t link h₂ in cc

  check_terms :
      (response : Fields) (v : Validated) (s t : Ledger) (link : String)
      → validate_link_response host attempt response ≡ v
      → check_link host now action attempt payment response v s ≡ (ok link, t)
      → HasTerms host attempt response link
  unfolding check_link
  check_terms response (accepted r) s t link v h =
      subst (HasTerms host attempt response) (created_gives response r s t link h)
        (accepted_terms host attempt response r v)
  check_terms response (refused reason) s t link v h = absurd (rejected_raises reason s t link h)

  answered_terms :
      (x : Response) (s t : Ledger) (link : String)
      → on_response host now action attempt payment x s ≡ (ok link, t)
      → (response : Fields) × (x ≡ answered (obj response)) × HasTerms host attempt response link
  unfolding on_response
  answered_terms (answered (obj response)) s t link h = (
    response,
    refl,
    check_terms response (validate_link_response host attempt response) s t link refl h,
  )
  answered_terms (answered null) s t link h =
      absurd (uncertain_raises "AttributeError" Error.provider_other s t link h)
  answered_terms (answered (bool b)) s t link h =
      absurd (uncertain_raises "AttributeError" Error.provider_other s t link h)
  answered_terms (answered (num n)) s t link h =
      absurd (uncertain_raises "AttributeError" Error.provider_other s t link h)
  answered_terms (answered other) s t link h =
      absurd (uncertain_raises "AttributeError" Error.provider_other s t link h)
  answered_terms (answered (str x)) s t link h =
      absurd (uncertain_raises "AttributeError" Error.provider_other s t link h)
  answered_terms (answered (arr x)) s t link h =
      absurd (uncertain_raises "AttributeError" Error.provider_other s t link h)
  answered_terms (retryable reason) s t link h =
      absurd (uncertain_raises reason Error.provider_retryable s t link h)
  answered_terms (rejected reason) s t link h = absurd (rejected_raises reason s t link h)
  answered_terms (crashed name) s t link h =
      absurd (uncertain_raises name Error.provider_other s t link h)

guard_passed :
    (b : Bool) (e : Error) (s u : Ledger) (x : Unit {0})
    → ◌≡◌ {A = Result (Unit {0}) × Ledger} (raise_if (not b) e s) (ok x, u)
    → (b ≡ true) × (u ≡ s)
guard_passed true e s u x h = (refl, cc)
guard_passed false e s u x h = absurd cc

dispatch_new_gives :
    (host : Host) (provider : Provider) (now i : ℕ) (a : ExternalAction) (l : PaymentLinkAttempt)
    (p : PaymentRequest) (s t : Ledger) (link : String)
    → link_action_of (get i s.db.actions) ≡ some a
    → find? (has_action a.id) s.links ≡ some l
    → get l.payment_request_id s.requests ≡ some p
    → dispatch_new host provider now a l p s ≡ (ok link, t)
    → IsDispatched host provider i s link
unfolding dispatch_new
dispatch_new_gives host provider now i a l p s t link fa fl fp h =
    let (x, u, e, h₁) = bind_inv _ _ s t link h in
    let (awaited, _) = guard_passed (awaits_link p.status) Error.conflict s u x e in
    let (x₁, u₁, e₁, h₂) = bind_inv _ _ u t link h₁ in
    let (account, _) =
      guard_passed
        (str_eq provider.environment "test" && str_eq provider.account_id l.provider_account_id)
        Error.conflict u u₁ x₁ e₁ in
    let (_, u₂, _, h₃) = bind_inv _ _ u₁ t link h₂ in
    let (response, asked, terms) =
      answered_terms host now a.id l p (provider.create_payment_link a.approved_payload) u₂ t link
        h₃ in
    record {
      action = a;
      attempt = l;
      request = p;
      response = response;
      approved = fa;
      own = fl;
      found = fp;
      awaited = awaited;
      account = account;
      asked = asked;
      terms = terms;
    }

dispatch_gives :
    (host : Host) (provider : Provider) (now i : ℕ) (a : ExternalAction) (l : PaymentLinkAttempt)
    (p : PaymentRequest) (s t : Ledger) (link : String) (o : Option String)
    → made_link a.state l.provider_link_id ≡ o
    → link_action_of (get i s.db.actions) ≡ some a
    → find? (has_action a.id) s.links ≡ some l
    → get l.payment_request_id s.requests ≡ some p
    → dispatch_or_reuse host provider now a l p o s ≡ (ok link, t)
    → (IsMade i s link × (t ≡ s)) ⊎ IsDispatched host provider i s link
unfolding dispatch_or_reuse
dispatch_gives host provider now i a l p s t link (some made) m fa fl fp h =
    let same : made ≡ link = cc in
    inl (
      record {
        action = a;
        attempt = l;
        approved = fa;
        own = fl;
        done = subst (λ x. made_link a.state l.provider_link_id ≡ some x) same m;
      },
      cc,
    )
dispatch_gives host provider now i a l p s t link none m fa fl fp h =
    inr (dispatch_new_gives host provider now i a l p s t link fa fl fp h)

-- When a dispatch returns a link, then either the action had succeeded with this link before and nothing
-- was changed, or the request was awaiting a link, the provider is the test account that the attempt
-- was frozen for, and it answered the approved payload with an object that names this link and
-- repeats the amount, the currency and the reference of the attempt.
pub IsDispatched-link :
    (host : Host) (provider : Provider) (now i : ℕ) (s t : Ledger) (link : String)
    → dispatch_payment_link host provider now i s ≡ (ok link, t)
    → (IsMade i s link × (t ≡ s)) ⊎ IsDispatched host provider i s link
unfolding dispatch_payment_link find_link
IsDispatched-link host provider now i s t link h =
    let (a, u, e, h₁) = bind_inv _ _ s t link h in
    let (fa, su) = looked_up (link_action_of (get i s.db.actions)) Error.not_found s u a e in
    let (l, v, e₁, h₂) = bind_inv _ _ u t link h₁ in
    let (fl, uv) = looked_up (find? (has_action a.id) u.links) Error.conflict u v l e₁ in
    let (p, w, e₂, h₃) = bind_inv _ _ v t link h₂ in
    let (fp, vw) = looked_up (get l.payment_request_id v.requests) Error.not_found v w p e₂ in
    let sv : v ≡ s = uv ∙ su in
    dispatch_gives host provider now i a l p s t link (made_link a.state l.provider_link_id) refl fa
      (subst (λ (x : Ledger). find? (has_action a.id) x.links ≡ some l) su fl)
      (subst (λ (x : Ledger). get l.payment_request_id x.requests ≡ some p) sv fp)
      (subst
        (λ x.
          dispatch_or_reuse host provider now a l p (made_link a.state l.provider_link_id) x
          ≡ (ok link, t))
        (vw ∙ sv) h₃)
