-- ===== src/ChangeOrders/Revoked.antt =====
-- What is revoked stays shut.
use scope_guard.Base.{
  ℕ, ◌≡◌, ◌≢◌, refl, sym, ap, subst, ◌∙◌, inl, inr, String, Bool, true, false, Option, none, some,
  List, [], ◌∷◌, arith, ltb, is_some, if◌then◌else◌, Bool-cases, find?, filter, All, All-map,
  All-filter, All-get, filter_sound, get, Error, Result, ok, bind_inv, looked_up, passed, find?-All,
}
use Prim.Native.String.{count as length}
use scope_guard.ChangeOrders.Tables.{
  ChangeOrder, Purpose, ClientCapability, Access, order_id, revision_id, capability_id, session_id,
}
use scope_guard.ChangeOrders.Sessions.{
  has_expired, CapabilityCredentials, is_receipt_for, newer, newest, approved_order, unexpired,
  Scope, open_session, is_usable, usable, has_token, receipt_of, exchange_receipt, exchange_usable,
  exchange_capability, has_session, live, unrevoked, other_csrf, session_scope, revoke, revoke_each,
  revoke_capabilities,
}

-- every capability of the order is revoked
abbrev pub IsShut : ℕ → List ClientCapability → Type 0
IsShut o cs = All (λ c. c.change_order_id ≡ o → is_some c.revoked_at ≡ true) cs

revoke_each-IsShut : (o now : ℕ) (cs : List ClientCapability) → IsShut o (revoke_each o now cs)
unfolding revoke_each revoke
revoke_each-IsShut o now [] = tt
revoke_each-IsShut o now (c ∷ cs) = ((λ e. ground (arith, e)), revoke_each-IsShut o now cs)

newer-Either :
    (P : ClientCapability → Type 0) (c a : ClientCapability) (o : Option ClientCapability)
    → P c
    → ((b : ClientCapability) → o ≡ some b → P b)
    → newer c o ≡ some a
    → P a
unfolding newer
newer-Either P c a none p k e = let same : c ≡ a = cc in subst P same p
newer-Either P c a (some b) p k e = elim (Bool-cases (ltb c.created_at b.created_at)) [
  | inl later ↦ let same : b ≡ a = ground (arith, later, e) in subst P same (k b refl)
  | inr kept ↦ let same : c ≡ a = ground (arith, kept, e) in subst P same p
]

newest-All :
    (P : ClientCapability → Type 0) (cs : List ClientCapability) (a : ClientCapability)
    → All P cs
    → newest cs ≡ some a
    → P a
unfolding newest
newest-All P [] a h e = absurd cc
newest-All P (c ∷ cs) a h e = newer-Either P c a (newest cs) h.0 (λ b q. newest-All P cs b h.1 q) e

returned :
    {A : Type 0} (a x : A) (s t : Access) → ◌≡◌ {A = Result A × Access} (ok a, s) (ok x, t) → a ≡ x
returned a x s t e = cc

chosen :
    {A : Type 0} (b c : Bool)
    → b ≡ c
    → (m n : Access → A) (s : Access) → (if b then m else n) s ≡ (if c then m else n) s
chosen b c e m n s = ap (λ x. (if x then m else n) s) e

contradicts : {b : Bool} → b ≡ true → b ≡ false → ⊥
contradicts h k = cc

-- a row of another order, or one that is revoked
abbrev IsForeign : ℕ → ClientCapability → Type 0
IsForeign o c = c.change_order_id ≡ o → is_some c.revoked_at ≡ true

unrevoked_row :
    (o : Option ClientCapability) (c : ClientCapability)
    → unrevoked o ≡ some c
    → (o ≡ some c) × (is_some c.revoked_at ≡ false)
unrevoked_row none c e = absurd cc
unrevoked_row (some x) c e = elim (Bool-cases (is_some x.revoked_at)) [
  | inl gone ↦ absurd (ground (arith, gone, e))
  | inr free ↦
      let same : x ≡ c = ground (arith, free, e) in
      (ap some same, subst (λ y. is_some y.revoked_at ≡ false) same free)
]

module _ (hash : String → ℕ) (o : ℕ) where
  scope_open :
      (token : String) (csrf : Option String) (now : ℕ) (s t : Access) (x : Scope)
      → IsShut o s.capabilities
      → session_scope hash token csrf now s ≡ (ok x, t)
      → x.1.change_order_id ≢ o
  unfolding session_scope
  scope_open token csrf now s t x h e mine =
      let (row, s₁, e₁, k₁) = bind_inv _ _ s t x e in
      let (_, q₁) =
        looked_up (live (find? (has_session hash token) s.sessions) now) Error.validation s s₁ row
          e₁ in
      let (_, s₂, e₂, k₂) = bind_inv _ _ s₁ t x k₁ in
      let (_, q₂) = passed (other_csrf hash csrf row) Error.validation s₁ s₂ _ e₂ in
      let (c, s₃, e₃, k₃) = bind_inv _ _ s₂ t x k₂ in
      let (got, q₃) =
        looked_up (unrevoked (get row.capability_id s₂.capabilities)) Error.validation s₂ s₃ c e₃ in
      let (order, s₄, _, k₄) = bind_inv _ _ s₃ t x k₃ in
      let (revision, s₅, _, k₅) = bind_inv _ _ s₄ t x k₄ in
      let same : ◌≡◌ {A = Scope} (row, c, revision, order) x =
        returned (row, c, revision, order) x s₅ t k₅ in
      let (there, free) = unrevoked_row (get row.capability_id s₂.capabilities) c got in
      let shut : IsShut o s₂.capabilities =
        subst (λ (y : Access). IsShut o y.capabilities) (sym (q₂ ∙ q₁)) h in
      let gone : is_some c.revoked_at ≡ true =
        All-get (IsForeign o) row.capability_id s₂.capabilities c there shut
          (ap (λ (y : Scope). y.1.change_order_id) same ∙ mine) in
      contradicts gone free

  usable_row :
      (now : ℕ) (r : Option ClientCapability) (c : ClientCapability)
      → usable r now ≡ some c
      → (r ≡ some c) × (is_some c.revoked_at ≡ false)
  unfolding is_usable
  usable_row now none c e = absurd cc
  usable_row now (some x) c e = elim (Bool-cases (is_usable now x)) [
    | inr bad ↦ absurd (ground (arith, bad, e))
    | inl good ↦
        let same : x ≡ c = ground (arith, good, e) in
        (ap some same, subst (λ y. is_some y.revoked_at ≡ false) same (ground (arith, good)))
  ]

  unexpired_row :
      (now : ℕ) (r : Option ClientCapability) (c : ClientCapability)
      → unexpired r now ≡ some c
      → r ≡ some c
  unexpired_row now none c e = absurd cc
  unexpired_row now (some x) c e = elim (Bool-cases (has_expired x.expires_at now)) [
    | inl old ↦ absurd (ground (arith, old, e))
    | inr fresh ↦ ground (arith, fresh, e)
  ]

  opened :
      (c : ClientCapability) (purpose : Purpose) (a b d : String) (now : ℕ) (s t : Access)
      (x : CapabilityCredentials)
      → open_session hash c purpose a b d now s ≡ (ok x, t)
      → c ≡ x.capability
  unfolding open_session
  opened c purpose a b d now s t x e = ground (arith, e)

  -- a receipt is an unrevoked row of the same order
  receipt_open :
      (c : ClientCapability) (order : ChangeOrder) (now : ℕ) (s : Access) (r : ClientCapability)
      → receipt_of c order now s ≡ some r
      → is_some r.revoked_at ≡ false
  unfolding receipt_of is_receipt_for
  receipt_open c order now s r e =
      newest-All (λ y. is_some y.revoked_at ≡ false)
        (filter (is_receipt_for order c) s.capabilities) r
        (All-map _ _ (λ y h. ground (arith, h)) _
          (filter_sound (is_receipt_for order c) s.capabilities))
        (unexpired_row now (newest (filter (is_receipt_for order c) s.capabilities)) r e)

  receipt-IsForeign :
      (c : ClientCapability) (order : ChangeOrder) (now : ℕ) (s : Access) (r : ClientCapability)
      → IsShut o s.capabilities
      → receipt_of c order now s ≡ some r
      → IsForeign o r
  unfolding receipt_of
  receipt-IsForeign c order now s r h e =
      newest-All (IsForeign o) (filter (is_receipt_for order c) s.capabilities) r
        (All-filter (IsForeign o) (is_receipt_for order c) s.capabilities h)
        (unexpired_row now (newest (filter (is_receipt_for order c) s.capabilities)) r e)

  receipt_shut :
      (session_token csrf_token : String) (now : ℕ) (s t : Access) (x : CapabilityCredentials)
      (c : ClientCapability)
      → IsShut o s.capabilities
      → exchange_receipt hash session_token csrf_token now c s ≡ (ok x, t)
      → x.capability.change_order_id ≢ o
  unfolding exchange_receipt
  receipt_shut session_token csrf_token now s t x c h e mine =
      let (order, s₁, e₁, k₁) = bind_inv _ _ s t x e in
      let (_, q₁) =
        looked_up (approved_order (get c.change_order_id s.orders)) Error.validation s s₁ order
          e₁ in
      let (r, s₂, e₂, k₂) = bind_inv _ _ s₁ t x k₁ in
      let (got, _) = looked_up (receipt_of c order now s₁) Error.validation s₁ s₂ r e₂ in
      let shut : IsShut o s₁.capabilities =
        subst (λ (y : Access). IsShut o y.capabilities) (sym q₁) h in
      let same = opened r Purpose.receipt "" session_token csrf_token now s₂ t x k₂ in
      contradicts
        (receipt-IsForeign c order now s₁ r shut got (ap (λ y. y.change_order_id) same ∙ mine))
        (receipt_open c order now s₁ r got)

  usable_shut :
      (session_token csrf_token token : String) (now : ℕ) (s t : Access) (x : CapabilityCredentials)
      (c : ClientCapability)
      → IsShut o s.capabilities
      → IsForeign o c
      → is_some c.revoked_at ≡ false
      → exchange_usable hash session_token csrf_token now token c s ≡ (ok x, t)
      → x.capability.change_order_id ≢ o
  unfolding exchange_usable
  usable_shut session_token csrf_token token now s t x c h foreign free e mine =
      elim (Bool-cases (is_some c.consumed_at)) [
        | inl used ↦
            receipt_shut session_token csrf_token now s t x c h
              (sym (
                  chosen (is_some c.consumed_at) true used
                    (exchange_receipt hash session_token csrf_token now c)
                    (open_session hash c Purpose.review token session_token csrf_token now) s)
                ∙ e)
              mine
        | inr new ↦
            let same = opened c Purpose.review token session_token csrf_token now s t x (
              sym (
                chosen (is_some c.consumed_at) false new
                  (exchange_receipt hash session_token csrf_token now c)
                  (open_session hash c Purpose.review token session_token csrf_token now) s)
              ∙ e) in
            contradicts (foreign (ap (λ y. y.change_order_id) same ∙ mine)) free
      ]

  exchange_open :
      (session_token csrf_token token : String) (now : ℕ) (s t : Access) (x : CapabilityCredentials)
      → IsShut o s.capabilities
      → exchange_capability hash session_token csrf_token now token s ≡ (ok x, t)
      → x.capability.change_order_id ≢ o
  unfolding exchange_capability
  exchange_open session_token csrf_token token now s t x h e mine =
      let (_, s₁, e₁, k₁) = bind_inv _ _ s t x e in
      let (_, q₁) = passed (ltb (length token) 43) Error.validation s s₁ _ e₁ in
      let (c, s₂, e₂, k₂) = bind_inv _ _ s₁ t x k₁ in
      let (got, q₂) =
        looked_up (usable (find? (has_token hash token) s₁.capabilities) now) Error.validation s₁ s₂
          c e₂ in
      let (there, free) = usable_row now (find? (has_token hash token) s₁.capabilities) c got in
      let shut : IsShut o s₂.capabilities =
        subst (λ (y : Access). IsShut o y.capabilities) (sym (q₂ ∙ q₁)) h in
      usable_shut session_token csrf_token token now s₂ t x c shut
        ((find?-All (IsForeign o) (has_token hash token) s₁.capabilities c
          (subst (λ (y : Access). IsShut o y.capabilities) (sym q₁) h) there).0)
        free k₂ mine

-- After the capabilities of an order have been revoked, no session token opens that order and no
-- capability token is exchanged for access to it, with any token, at any time.
pub revoked_shut :
    (hash : String → ℕ) (o now later : ℕ) (s : Access)
    → let t = (revoke_capabilities o now s).1 in
      ((token : String) (csrf : Option String) (x : Scope) (u : Access)
        → session_scope hash token csrf later t ≡ (ok x, u)
        → x.1.change_order_id ≢ o)
      × ((session_token csrf_token token : String) (x : CapabilityCredentials) (u : Access)
          → exchange_capability hash session_token csrf_token later token t ≡ (ok x, u)
          → x.capability.change_order_id ≢ o)
unfolding revoke_capabilities
revoked_shut hash o now later s =
    let t = (revoke_capabilities o now s).1 in
    let shut : IsShut o t.capabilities = revoke_each-IsShut o now s.capabilities in
    (
      (λ token csrf x u e. scope_open hash o token csrf later t u x shut e),
      (λ session_token csrf_token token x u e.
          exchange_open hash o session_token csrf_token token later t u x shut e),
    )
