-- ===== src/Payments/Numbering.antt =====
-- The attempts of a request are numbered without repetition, and there are at most three.
use scope_guard.Base.{
  ℕ, ◌+◌, ◌≡◌, ◌≢◌, ◌≤◌, refl, sym, ap, subst, inl, inr, String, false, Option, none, some, List,
  [], ◌∷◌, ◌++◌, arith, All, All-map, Bool-cases, filter, ltb, ◌==◌, if◌then◌else◌, Error, Exec,
  gets,
}
use scope_guard.Base.Does.{
  Does, Anything, Post-Anything, Leads, Leads-bind, Leads-then, Does-lookup, Does-pure,
  Does-raise_if, Does-bind,
}
use scope_guard.Domain.Auth.{TrustedContext}
use scope_guard.Workers.Tables.{Db, ExternalAction}
use scope_guard.Payments.Tables.{PaymentRequest, PaymentLinkAttempt, Ledger}
use scope_guard.Payments.Texts.{Host}
use scope_guard.Payments.Observe.{save_request}
use scope_guard.Payments.Links.{
  dated, Settings, newer, newest, is_of, latest_link, number_of, new_link, add_link, prepare_next,
  reuse_active, prepare_payment_link, find_payment, find_recipient, on_db,
}

-- two attempts of one request have different numbers
abbrev pub AreDistinct : PaymentLinkAttempt → PaymentLinkAttempt → Type 0
AreDistinct a b = a.payment_request_id ≡ b.payment_request_id → a.attempt_number ≢ b.attempt_number

abbrev pub IsInRange : PaymentLinkAttempt → Type 0
IsInRange a = (1 ≤ a.attempt_number) × (a.attempt_number ≤ 3)

abbrev pub AllDistinct : List PaymentLinkAttempt → Type 0
AllDistinct [] = Unit
AllDistinct (a ∷ rest) = All (AreDistinct a) rest × AllDistinct rest

abbrev pub IsNumbered : List PaymentLinkAttempt → Type 0
IsNumbered links = All IsInRange links × AllDistinct links

All-snoc :
    {A : Type 0} (P : A → Type 0) (xs : List A) (a : A) → All P xs → P a → All P (xs ++ a ∷ [])
All-snoc P [] a h p = (p, tt)
All-snoc P (x ∷ xs) a h p = (h.0, All-snoc P xs a h.1 p)

AllDistinct-snoc :
    (xs : List PaymentLinkAttempt) (a : PaymentLinkAttempt)
    → AllDistinct xs
    → All (λ x. AreDistinct x a) xs
    → AllDistinct (xs ++ a ∷ [])
AllDistinct-snoc [] a d h = (tt, tt)
AllDistinct-snoc (x ∷ xs) a d h =
    (All-snoc (AreDistinct x) xs a d.0 h.0, AllDistinct-snoc xs a d.1 h.1)

newer_self :
    (a : PaymentLinkAttempt) (o : Option PaymentLinkAttempt)
    → a.attempt_number ≤ number_of (newer a o)
unfolding newer
newer_self a none = ground arith
newer_self a (some b) = ground arith

newer_rest :
    (a : PaymentLinkAttempt) (o : Option PaymentLinkAttempt) → number_of o ≤ number_of (newer a o)
unfolding newer
newer_rest a none = ground arith
newer_rest a (some b) = ground arith

-- every attempt of the request is numbered at most as the latest one
latest_bound :
    (r : ℕ) (links : List PaymentLinkAttempt) (m : ℕ)
    → number_of (latest_link r links) ≤ m
    → All (λ a. a.payment_request_id ≡ r → a.attempt_number ≤ m) links
unfolding latest_link filter newest is_of
latest_bound r [] m h = tt
latest_bound r (a ∷ rest) m h = elim (Bool-cases (a.payment_request_id == r)) [
  | inl own ↦
      let h' : number_of (newer a (newest (filter (is_of r) rest))) ≤ m =
        subst
          (λ b.
            number_of (newest (if b then a ∷ filter (is_of r) rest else filter (is_of r) rest)) ≤ m)
          own h in
      (
        (λ _. omega (arith, h', newer_self a (newest (filter (is_of r) rest)))),
        latest_bound r rest m (omega (arith, h', newer_rest a (newest (filter (is_of r) rest)))),
      )
  | inr not_own ↦
      let h' : number_of (newest (filter (is_of r) rest)) ≤ m =
        subst
          (λ b.
            number_of (newest (if b then a ∷ filter (is_of r) rest else filter (is_of r) rest)) ≤ m)
          not_own h in
      ((λ e. absurd (ground (arith, not_own, e))), latest_bound r rest m h')
]

abbrev pub IsNumberedLedger : Ledger → Type 0
IsNumberedLedger s = IsNumbered s.links

module _ (L : List PaymentLinkAttempt) where
  abbrev Links : Ledger → Type 0
  Links s = s.links ≡ L

  gets-Does : {A : Type 0} (f : Ledger → A) → Does Links Anything (gets f)
  gets-Does f = record { keeps = λ s p. p; gives = λ s p. tt }

  on_db-Does : {A : Type 0} (m : Exec Db A) → Does Links Anything (on_db m)
  unfolding on_db
  on_db-Does m = record { keeps = λ s p. p; gives = λ s p. Post-Anything (m s.db).0 }

  find_recipient-Does : (p : PaymentRequest) → Does Links Anything (find_recipient p)
  unfolding find_recipient
  find_recipient-Does p = Does-lookup _ Error.conflict (λ _ _ _ _. tt)

  save_request-Does : (p : PaymentRequest) → Does Links Anything (save_request p)
  unfolding save_request
  save_request-Does p = record { keeps = λ s h. h; gives = λ s h. tt }

on_db-Numbered : {A : Type 0} (m : Exec Db A) → Does IsNumberedLedger Anything (on_db m)
unfolding on_db
on_db-Numbered m = record { keeps = λ s p. p; gives = λ s p. Post-Anything (m s.db).0 }

-- the new attempt, numbered one past the latest
add_link-Numbered :
    (L : List PaymentLinkAttempt) (known : Option PaymentLinkAttempt) (p : PaymentRequest) (n : ℕ)
    (reference account : String) (action : ℕ)
    → IsNumbered L
    → n ≡ number_of (latest_link p.id L) + 1
    → ltb 3 n ≡ false
    → Leads (Links L) IsNumberedLedger (add_link known p n reference account action)
unfolding add_link new_link
add_link-Numbered L (some a) p n reference account action h e b s l = subst IsNumbered (sym l) h
add_link-Numbered L none p n reference account action h e b s l =
    let new = new_link p n reference account action s.db.next_id in
    let older = latest_bound p.id L (number_of (latest_link p.id L)) (omega arith) in
    subst (λ x. IsNumbered (x ++ new ∷ [])) (sym l)
      (
        All-snoc IsInRange L new h.0 (omega (arith, e), ground (arith, b)),
        AllDistinct-snoc L new h.1
            (All-map _ _ (λ a k own same. absurd (omega (arith, e, k own, same))) L older),
      )

module _ (host : Host) (settings : Settings) (context : TrustedContext) (now : ℕ) where
  prepare_next-Numbered :
      (p : PaymentRequest) (L : List PaymentLinkAttempt)
      → IsNumbered L
      → Leads (Links L) IsNumberedLedger (prepare_next host settings context now p)
  unfolding prepare_next dated
  prepare_next-Numbered p L h =
      let w : (x : Ledger) → Links L x → IsNumberedLedger x = λ x l. subst IsNumbered (sym l) h in
      Leads-bind {R = λ n. n ≡ number_of (latest_link p.id L) + 1} _ _
        (record { keeps = λ s l. l; gives = λ s l. ap (λ x. number_of (latest_link p.id x) + 1) l })
        w
        (λ n e. Leads-bind _ _ (Does-raise_if (ltb 3 n) Error.conflict) w (λ _ b.
          Leads-bind _ _ (find_recipient-Does L p) w (λ email _.
            Leads-bind _ _ (Does-raise_if _ Error.conflict) w (λ _ _.
              Leads-bind _ _ (save_request-Does L _) w (λ _ _.
                Leads-bind _ _ (on_db-Does L _) w (λ action _.
                  Leads-bind _ _ (gets-Does L _) w (λ known _.
                    Leads-then _ _ (add_link-Numbered L known _ n _ _ action.id h e b) (λ _.
                      Does-bind _ _ (on_db-Numbered _)
                        (λ job _. Does-pure (action, some job) tt)))))))))

  reuse_active-Numbered :
      (p : PaymentRequest) (o : Option ExternalAction) (L : List PaymentLinkAttempt)
      → IsNumbered L
      → Leads (Links L) IsNumberedLedger (reuse_active host settings context now p o)
  unfolding reuse_active
  reuse_active-Numbered p (some a) L h s l = subst IsNumbered (sym l) h
  reuse_active-Numbered p none L h s l = prepare_next-Numbered p L h s l

  find_payment-Does :
      (L : List PaymentLinkAttempt) (i : ℕ) → Does (Links L) Anything (find_payment context i)
  unfolding find_payment
  find_payment-Does L i = Does-lookup _ Error.not_found (λ _ _ _ _. tt)

-- Preparing a payment link, however it ends, keeps that every attempt is numbered from one to three and
-- that no request has two attempts of one number.
pub prepare_payment_link-IsNumbered :
    (host : Host) (settings : Settings) (context : TrustedContext) (now i : ℕ) (s : Ledger)
    → IsNumbered s.links
    → IsNumbered (prepare_payment_link host settings context now i s).1.links
unfolding prepare_payment_link
prepare_payment_link-IsNumbered host settings context now i s h =
    let w : (x : Ledger) → Links s.links x → IsNumberedLedger x =
      λ x l. subst IsNumbered (sym l) h in
    Leads-bind {P = Links s.links} {Q = IsNumberedLedger} _ _
      (find_payment-Does host settings context now s.links i) w
      (λ p _. Leads-bind _ _ (Does-raise_if _ Error.conflict) w (λ _ _.
        Leads-bind _ _ (gets-Does s.links _) w
          (λ o _. reuse_active-Numbered host settings context now p o s.links h)))
      s refl
