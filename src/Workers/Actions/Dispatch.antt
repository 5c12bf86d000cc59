-- ===== src/Workers/Actions/Dispatch.antt =====
-- Dispatch is exclusive and bounded, preparation is idempotent, and an uncertain outcome is retried
-- only with the risk acknowledged.
use scope_guard.Base.{
  ap, ◌⊎◌, ◌>>=◌, ℕ, ◌+◌, ◌≤◌, ◌≡◌, refl, sym, ◌∙◌, inl, inr, Bool, true, false, ◌&&◌, Option, none,
  some, List, [], ◌∷◌, ◌++◌, arith, Bool-cases, Option-cases, get, get-id, get-put_self, put, find?,
  if◌then◌else◌, ok, err, Error, Result, Json, ◌==◌,
}
use scope_guard.Workers.Faults.{CrashInjector, trip}
use scope_guard.Workers.Tables.{
  ActionState, ActionKey, ExternalAction, ActionAttempt, Db, action_id, attempt_id,
}
use scope_guard.Workers.Actions.{
  allowed, ActionRequest, new_action, prepare_external_action, reuse_or_insert, has_key, get_action,
  save_action, transition_action, add_attempt, new_attempt, begin_action_dispatch, is_uncertain,
  retry_action, last_attempt, number_of, same_key,
}

-- What a successful dispatch says of the action as it was.
begin_ok :
    (c : CrashInjector) (i now : ℕ) (db : Db) {at : ActionAttempt}
    → (begin_action_dispatch c i now db).0 ≡ ok at
    → (a : ExternalAction) × (get i db.actions ≡ some a)
      × (allowed a.state ActionState.dispatching ≡ true)
      × ((begin_action_dispatch c i now db).1.actions
          ≡ put (record a { state = ActionState.dispatching; updated_at = now }) db.actions)
      × (at.attempt_number ≡ number_of (last_attempt i db.attempts) + 1)
      × (at.attempt_number ≤ 3)
      × (at.action_id ≡ i)
      × ((begin_action_dispatch c i now db).1.attempts ≡ db.attempts ++ at ∷ [])
unfolding begin_action_dispatch get_action transition_action save_action add_attempt new_attempt
    trip ◌>>=◌
begin_ok c i now db {at} h = elim (Option-cases (get i db.actions)) [
  | inl missing ↦ absurd (ground arith)
  | inr (a, e) ↦
      (a, e, ground arith, ground arith, ground arith, ground arith, ground arith, ground arith)
]

-- A dispatch of an action that is being dispatched raises and changes nothing.
begin_refused :
    (c : CrashInjector) (i now : ℕ) (db : Db) (a : ExternalAction)
    → get i db.actions ≡ some a
    → allowed a.state ActionState.dispatching ≡ false
    → begin_action_dispatch c i now db ≡ (err Error.durable, db)
unfolding begin_action_dispatch get_action transition_action ◌>>=◌
begin_refused c i now db a e no_move = ground arith

dispatching_again : allowed ActionState.dispatching ActionState.dispatching ≡ false
unfolding allowed
dispatching_again = refl

dispatchable :
    (s : ActionState)
    → allowed s ActionState.dispatching ≡ true
    → (s ≡ ActionState.ready) ⊎ (s ≡ ActionState.retry_wait)
unfolding allowed
dispatchable s h = ground arith

-- What a dispatch of the action `i` at the time `t` that returned `at` found and left.
pub record IsBegun (i t : ℕ) (db db' : Db) (at : ActionAttempt) : Type 0 where
  pub action : ExternalAction
  pub found : get i db.actions ≡ some action
  pub waited : (action.state ≡ ActionState.ready) ⊎ (action.state ≡ ActionState.retry_wait)
  pub dispatching :
      get i db'.actions ≡ some (record action { state = ActionState.dispatching; updated_at = t })
  pub numbered : at.attempt_number ≡ number_of (last_attempt i db.attempts) + 1
  pub bounded : at.attempt_number ≤ 3
  pub of_action : at.action_id ≡ i
  pub stored : db'.attempts ≡ db.attempts ++ at ∷ []
  pub exclusive :
      (c : CrashInjector) (t' : ℕ) → begin_action_dispatch c i t' db' ≡ (err Error.durable, db')

-- A dispatch that returned was of a stored action that was ready or waiting for a retry, which it leaves
-- dispatching; its attempt is the action's, has the number after that of its last attempt, at most 3,
-- and is stored behind the others; and a second dispatch of the action that follows at once, at any
-- time, raises and changes nothing.
pub dispatch_exclusive :
    (c : CrashInjector) (i t : ℕ) (db : Db) (at : ActionAttempt)
    → (begin_action_dispatch c i t db).0 ≡ ok at
    → IsBegun i t db (begin_action_dispatch c i t db).1 at
dispatch_exclusive c i t db at h =
    let (a, e, m, w, n, b, own, kept) = begin_ok c i t db {at = at} h in
    let a' : ExternalAction = record a { state = ActionState.dispatching; updated_at = t } in
    let same : a.id ≡ i = get-id i db.actions {r = a} e in
    let there : get a.id (put a' db.actions) ≡ some a' =
      get-put_self a' db.actions {old = a} (ap (λ k. get k db.actions) same ∙ e) in
    let after : get i (begin_action_dispatch c i t db).1.actions ≡ some a' =
      rw w (ap (λ k. get k (put a' db.actions)) (sym same) ∙ there) in
    record {
      action = a;
      found = e;
      waited = dispatchable a.state m;
      dispatching = after;
      numbered = n;
      bounded = b;
      of_action = own;
      stored = kept;
      exclusive = λ c' t'.
          begin_refused c' i t' (begin_action_dispatch c i t db).1 a' after dispatching_again;
    }

module _ (canonical_sha256 : Json → ℕ) where
  same_key_refl : (k : ActionKey) → same_key k k ≡ true
  unfolding same_key
  same_key_refl (ActionKey.change_order_notification a b) = ground arith
  same_key_refl (ActionKey.change_order_send a b) = ground arith
  same_key_refl (ActionKey.payment_link_create a b) = ground arith

  has_key_new :
      (r : ActionRequest) (id now : ℕ)
      → has_key canonical_sha256 r (new_action canonical_sha256 r id now) ≡ true
  unfolding has_key new_action
  has_key_new r id now = ground (arith, same_key_refl r.action_key)

  find?-snoc :
      (p : ExternalAction → Bool) (xs : List ExternalAction) (a : ExternalAction)
      → find? p xs ≡ none
      → p a ≡ true
      → find? p (xs ++ a ∷ []) ≡ some a
  unfolding find?
  find?-snoc p [] a e h = ground arith
  find?-snoc p (x ∷ xs) a e h = ground (arith, find?-snoc p xs a)

  find?-sound :
      (p : ExternalAction → Bool) (xs : List ExternalAction) (a : ExternalAction)
      → find? p xs ≡ some a
      → p a ≡ true
  unfolding find?
  find?-sound p [] a e = cc
  find?-sound p (x ∷ xs) a e = ground (arith, find?-sound p xs a)

  -- the outcome of a preparation, by what the key finds
  digest_new :
      (r : ActionRequest) (id now : ℕ)
      → (new_action canonical_sha256 r id now).payload_digest ≡ canonical_sha256 r.approved_payload
  unfolding new_action
  digest_new r id now = refl

  -- the outcome of a later preparation under the same key, for a stored action `a`
  abbrev pub again : ExternalAction → Json → Db → Result ExternalAction × Db
  again a p db =
      if a.payload_digest == canonical_sha256 p then (ok a, db) else (err Error.durable, db)

  found_again :
      (r : ActionRequest) (p : Json) (t : ℕ) (db : Db) (a : ExternalAction)
      → find? (has_key canonical_sha256 r) db.actions ≡ some a
      → prepare_external_action canonical_sha256 (record r { approved_payload = p }) t db
        ≡ again a p db
  unfolding prepare_external_action reuse_or_insert has_key
  found_again r p t db a e = rw (e, reuse_or_insert) refl

  stored_after :
      (r : ActionRequest) (t : ℕ) (o : Option ExternalAction) (db : Db) (a : ExternalAction)
      → find? (has_key canonical_sha256 r) db.actions ≡ o
      → (reuse_or_insert canonical_sha256 r t o db).0 ≡ ok a
      → (find? (has_key canonical_sha256 r) (reuse_or_insert canonical_sha256 r t o db).1.actions
          ≡ some a)
        × (a.payload_digest ≡ canonical_sha256 r.approved_payload)
  unfolding reuse_or_insert
  stored_after r t none db a e h =
      let n : ExternalAction = new_action canonical_sha256 r db.next_id t in
      let same : n ≡ a = cc in
      (
        find?-snoc (has_key canonical_sha256 r) db.actions n e (has_key_new r db.next_id t)
            ∙ ap some same,
        ap (λ (x : ExternalAction). x.payload_digest) (sym same) ∙ digest_new r db.next_id t,
      )
  stored_after r t (some x) db a e h =
      elim (Bool-cases (x.payload_digest == canonical_sha256 r.approved_payload)) [
        | inl same ↦ (ground arith, ground arith)
        | inr other ↦ absurd (ground arith)
      ]

-- After a preparation that returned an action, preparing again under the same tenant and key writes
-- nothing: it returns the same action if the approved content has the digest of the first, and
-- raises if it has another.
pub prepare_idempotent :
    (canonical_sha256 : Json → ℕ) (r : ActionRequest) (t t' : ℕ) (p : Json) (db : Db)
    (a : ExternalAction)
    → (prepare_external_action canonical_sha256 r t db).0 ≡ ok a
    → let db' = (prepare_external_action canonical_sha256 r t db).1 in
      prepare_external_action canonical_sha256 (record r { approved_payload = p }) t' db' ≡ (
        if canonical_sha256 r.approved_payload == canonical_sha256 p
        then (ok a, db')
        else (err Error.durable, db'))
unfolding prepare_external_action
prepare_idempotent f r t t' p db a h =
    let (found, digest) = stored_after f r t (find? (has_key f r) db.actions) db a refl h in
    let db' = (reuse_or_insert f r t (find? (has_key f r) db.actions) db).1 in
    found_again f r p t' db' a found
    ∙ ap {B = Result ExternalAction × Db}
        (λ (d : ℕ). if d == f p then (ok a, db') else (err Error.durable, db')) digest

-- An action whose outcome is uncertain, or that is held for review, goes back to waiting only if the
-- caller accepts the risk of a duplicate; from any other state the call raises. A call that raises
-- changes nothing.
pub retry_needs_acknowledgement :
    (i t : ℕ) (b : Bool) (db : Db) (a : ExternalAction)
    → get i db.actions ≡ some a
    → retry_action i b t db ≡ (
        if is_uncertain a.state && b
        then (let a' : ExternalAction = record a {
          state = ActionState.retry_wait;
          updated_at = t;
        } in
            (ok a', record db { actions = put a' db.actions }))
        else (err Error.durable, db))
unfolding retry_action get_action transition_action save_action allowed ◌>>=◌
retry_needs_acknowledgement i t b db a e = ground arith
