-- ===== src/Workers/Actions/Follows.antt =====
-- Actions move only along the transition table, and what was approved never changes.
use scope_guard.Base.{
  ap, subst, ℕ, ◌+◌, ◌<◌, ◌≡◌, refl, sym, ◌∙◌, inl, inr, Bool, true, false, Option, none, some,
  List, [], ◌∷◌, String, arith, All, All-append, All-put, All-get, All-map, Bool-cases, get, get-id,
  Exec, Error, Json, ◌>>=◌, ◌==◌, ltb,
}
use scope_guard.Base.Does.{
  Does, Anything, Does-pure, Does-raise, Does-raise_if, Does-if, Does-bind, Does-then, Does-lookup,
}
use scope_guard.Workers.Faults.{CrashPoint, CrashInjector, trip}
use scope_guard.Workers.Tables.{
  ActionState, ExternalAction, ActionAttempt, Db, action_id, attempt_id,
}
use scope_guard.Base.Unique.{Unique, Found-self}
use scope_guard.Workers.Actions.{
  clip, write_back, allowed, ActionRequest, new_action, prepare_external_action, reuse_or_insert,
  get_action, save_action, transition_action, add_attempt, begin_action_dispatch, close_attempt,
  require_attempt, complete_action, mark_action_review_required, mark_action_unknown,
  mark_action_retry, retry_action, confirm_action_receipt, cancel_action, last_attempt, number_of,
}

-- Chains of allowed transitions.
pub data Reaches (s : ActionState) : ActionState → Type 0 where
  here : Reaches s s
  next : {t u : ActionState} → Reaches s t → allowed t u ≡ true → Reaches s u

-- The approved content of an action, with what identifies it.
abbrev pub SameContent : ExternalAction → ExternalAction → Type 0
SameContent a b =
    (b.tenant_id ≡ a.tenant_id)
    × (b.action_key ≡ a.action_key)
    × (b.provider ≡ a.provider)
    × (b.operation ≡ a.operation)
    × (b.approved_payload ≡ a.approved_payload)
    × (b.payload_digest ≡ a.payload_digest)
    × (b.idempotency_key ≡ a.idempotency_key)

-- `x`, if it is the row of `a`, came from `a` along the table with its content unchanged.
abbrev pub Follows : ExternalAction → ExternalAction → Type 0
Follows a x = x.id ≡ a.id → Reaches a.state x.state × SameContent a x

-- One operation of a worker, a reconciler or a human on the stored actions.
pub data ActionOp : Type 0 where
  prepare : ActionRequest → ℕ → ActionOp
  begin : CrashInjector → ℕ → ℕ → ActionOp
  complete : CrashInjector → ℕ → Json → Option String → ℕ → ActionOp
  review unknown mark_retry : ℕ → String → ℕ → ActionOp
  retry : ℕ → Bool → ℕ → ActionOp
  confirm : ℕ → Json → ℕ → ActionOp
  cancel : ℕ → ℕ → ActionOp

module _ (canonical_sha256 : Json → ℕ) where
  abbrev pub after : ActionOp → Db → Db
  after (ActionOp.prepare r now) db = (prepare_external_action canonical_sha256 r now db).1
  after (ActionOp.begin i a now) db = (begin_action_dispatch i a now db).1
  after (ActionOp.complete i a o p now) db = (complete_action i a o p now db).1
  after (ActionOp.review a r now) db = (mark_action_review_required a r now db).1
  after (ActionOp.unknown a r now) db = (mark_action_unknown a r now db).1
  after (ActionOp.mark_retry a c now) db = (mark_action_retry a c now db).1
  after (ActionOp.retry a b now) db = (retry_action a b now db).1
  after (ActionOp.confirm a r now) db = (confirm_action_receipt a r now db).1
  after (ActionOp.cancel a now) db = (cancel_action a now db).1

  unfoldable pub run : List ActionOp → Db → Db
  run [] db = db
  run (op ∷ ops) db = run ops (after op db)

unchanged : (a : ExternalAction) → SameContent a a
unchanged a = (refl, refl, refl, refl, refl, refl, refl)

abbrev Tracked : ExternalAction → Db → Type 0
Tracked a db = All (Follows a) db.actions × (a.id < db.next_id)

module _ (a : ExternalAction) where
  get_action-Tracked : (i : ℕ) → Does (Tracked a) (Follows a) (get_action i)
  unfolding get_action
  get_action-Tracked i =
      Does-lookup (λ s. get i s.actions) Error.durable
        (λ s x p e. All-get (Follows a) i s.actions x e p.0)

  save_action-Tracked :
      (now : ℕ) (x : ExternalAction)
      → Follows a x
      → Does (Tracked a) (Follows a) (save_action now x)
  unfolding save_action
  save_action-Tracked now x f = record {
    keeps = λ s p. (All-put (Follows a) (record x { updated_at = now }) s.actions f p.0, p.1);
    gives = λ s p. f;
  }

  transition-Tracked :
      (now : ℕ) (t : ActionState) (x : ExternalAction)
      → Follows a x
      → Does (Tracked a) (Follows a) (transition_action now t x)
  unfolding transition_action
  transition-Tracked now t x f =
      Does-if (allowed x.state t) _ _
        (λ ok_move.
          save_action-Tracked now (record x { state = t })
            (λ e. (Reaches.next (f e).0 ok_move, (f e).1)))
        (λ bad. Does-raise _)

  trip-Tracked :
      (i : CrashInjector) (c : CrashPoint) → Does (Tracked a) (λ _. i c ≡ false) (trip i c)
  unfolding trip
  trip-Tracked i c = Does-raise_if (i c) _

  require_attempt-Tracked : (i : ℕ) → Does (Tracked a) Anything (require_attempt i)
  unfolding require_attempt
  require_attempt-Tracked i =
      Does-lookup (λ s. last_attempt i s.attempts) Error.durable (λ s x p e. tt)

  write_back-Tracked :
      (f : ActionAttempt → ActionAttempt) (o : Option ActionAttempt) (s : Db)
      → Tracked a s
      → Tracked a (write_back f o s)
  unfolding write_back
  write_back-Tracked f none s p = p
  write_back-Tracked f (some x) s p = p

  close_attempt-Tracked :
      (i : ℕ) (f : ActionAttempt → ActionAttempt) → Does (Tracked a) Anything (close_attempt i f)
  unfolding close_attempt
  close_attempt-Tracked i f = record {
    keeps = λ s p. write_back-Tracked f (last_attempt i s.attempts) s p;
    gives = λ s p. tt;
  }

  add_attempt-Tracked : (i now : ℕ) → Does (Tracked a) Anything (add_attempt i now)
  unfolding add_attempt
  add_attempt-Tracked i now = record {
    keeps = λ s p. elim (Bool-cases (ltb 3 (number_of (last_attempt i s.attempts) + 1))) [
      | inl spent ↦ rw spent p
      | inr left ↦ rw left (p.0, omega arith)
    ];
    gives = λ s p. elim (Bool-cases (ltb 3 (number_of (last_attempt i s.attempts) + 1))) [
      | inl spent ↦ rw spent tt
      | inr left ↦ rw left tt
    ];
  }

  -- a move of the action that was read, with what follows it
  moved :
      {A : Type 0} (i now : ℕ) (t : ActionState) (k : ExternalAction → Exec Db A)
      → ((x : ExternalAction) → Follows a x → Does (Tracked a) Anything (k x))
      → Does (Tracked a) Anything (get_action i >>= λ x. transition_action now t x >>= k)
  moved i now t k d =
      Does-bind (get_action i) _ (get_action-Tracked i)
        (λ x f. Does-bind (transition_action now t x) k (transition-Tracked now t x f) d)

  complete-Tracked :
      (c : CrashInjector) (i : ℕ) (o : Json) (r : Option String) (now : ℕ)
      → Does (Tracked a) Anything (complete_action c i o r now)
  unfolding complete_action
  complete-Tracked c i o r now = Does-bind (get_action i) _ (get_action-Tracked i) (λ x f.
      Does-then _ _ (trip-Tracked c _) (
        Does-bind (transition_action now ActionState.succeeded x) _ (transition-Tracked now _ x f)
          (λ y g. Does-bind (require_attempt i) _ (require_attempt-Tracked i) (λ z _.
            Does-then _ _ (close_attempt-Tracked i _)
              (Does-then _ _ (trip-Tracked c _) (Does-pure y tt))))))

  begin-Tracked :
      (c : CrashInjector) (i now : ℕ) → Does (Tracked a) Anything (begin_action_dispatch c i now)
  unfolding begin_action_dispatch
  begin-Tracked c i now = moved i now ActionState.dispatching _ (λ x f.
      Does-bind (add_attempt i now) _ (add_attempt-Tracked i now)
        (λ y _. Does-then _ _ (trip-Tracked c _) (Does-pure y tt)))

  review-Tracked :
      (i : ℕ) (r : String) (now : ℕ)
      → Does (Tracked a) Anything (mark_action_review_required i r now)
  unfolding mark_action_review_required
  review-Tracked i r now = moved i now ActionState.review_required _ (λ x f.
      Does-bind (save_action now _) _
        (save_action-Tracked now (record x { uncertainty_reason = some (clip 500 r) }) f)
        (λ y g. Does-then _ _ (close_attempt-Tracked i _) (Does-pure y tt)))

  unknown-Tracked :
      (i : ℕ) (r : String) (now : ℕ) → Does (Tracked a) Anything (mark_action_unknown i r now)
  unfolding mark_action_unknown
  unknown-Tracked i r now = moved i now ActionState.unknown_outcome _ (λ x f.
      Does-bind (save_action now _) _
        (save_action-Tracked now (record x { uncertainty_reason = some (clip 500 r) }) f)
        (λ y g. Does-then _ _ (close_attempt-Tracked i _) (Does-pure y tt)))

  mark_retry-Tracked :
      (i : ℕ) (r : String) (now : ℕ) → Does (Tracked a) Anything (mark_action_retry i r now)
  unfolding mark_action_retry
  mark_retry-Tracked i r now =
      moved i now ActionState.retry_wait _
        (λ x f. Does-then _ _ (close_attempt-Tracked i _) (Does-pure x tt))

  confirm-Tracked :
      (i : ℕ) (r : Json) (now : ℕ) → Does (Tracked a) (Follows a) (confirm_action_receipt i r now)
  unfolding confirm_action_receipt
  confirm-Tracked i r now = Does-bind (get_action i) _ (get_action-Tracked i) (λ x f.
      Does-bind (transition_action now ActionState.receipt_confirmed x) _
        (transition-Tracked now _ x f)
        (λ y g. save_action-Tracked now (record y { receipt_ref = some r }) g))

  cancel-Tracked : (i now : ℕ) → Does (Tracked a) (Follows a) (cancel_action i now)
  unfolding cancel_action
  cancel-Tracked i now =
      Does-bind (get_action i) _ (get_action-Tracked i)
        (λ x f. transition-Tracked now ActionState.cancelled x f)

  retry-Tracked : (i : ℕ) (b : Bool) (now : ℕ) → Does (Tracked a) (Follows a) (retry_action i b now)
  unfolding retry_action
  retry-Tracked i b now = Does-bind (get_action i) _ (get_action-Tracked i) (λ x f.
      Does-then _ _ (Does-raise_if _ _)
        (Does-then _ _ (Does-raise_if _ _) (transition-Tracked now ActionState.retry_wait x f)))

module _ (canonical_sha256 : Json → ℕ) (a : ExternalAction) where
  reuse-Tracked :
      (r : ActionRequest) (now : ℕ) (o : Option ExternalAction) (s : Db)
      → Tracked a s
      → Tracked a (reuse_or_insert canonical_sha256 r now o s).1
  unfolding reuse_or_insert new_action
  reuse-Tracked r now none s p = (
    All-append (Follows a) s.actions _ p.0 (λ e. absurd (omega (arith, e, p.1)), tt),
    omega arith,
  )
  reuse-Tracked r now (some x) s p =
      elim (Bool-cases (x.payload_digest == canonical_sha256 r.approved_payload)) [
        | inl same ↦ rw same p
        | inr other ↦ rw other p
      ]

  after-Tracked :
      (op : ActionOp) (db : Db) → Tracked a db → Tracked a (after canonical_sha256 op db)
  unfolding prepare_external_action
  after-Tracked (ActionOp.prepare r now) db p = reuse-Tracked r now _ db p
  after-Tracked (ActionOp.begin c i now) db p = (begin-Tracked a c i now).keeps db p
  after-Tracked (ActionOp.complete c i o r now) db p = (complete-Tracked a c i o r now).keeps db p
  after-Tracked (ActionOp.review i r now) db p = (review-Tracked a i r now).keeps db p
  after-Tracked (ActionOp.unknown i r now) db p = (unknown-Tracked a i r now).keeps db p
  after-Tracked (ActionOp.mark_retry i r now) db p = (mark_retry-Tracked a i r now).keeps db p
  after-Tracked (ActionOp.retry i b now) db p = (retry-Tracked a i b now).keeps db p
  after-Tracked (ActionOp.confirm i r now) db p = (confirm-Tracked a i r now).keeps db p
  after-Tracked (ActionOp.cancel i now) db p = (cancel-Tracked a i now).keeps db p

  run-Tracked :
      (ops : List ActionOp) (db : Db) → Tracked a db → Tracked a (run canonical_sha256 ops db)
  unfolding run
  run-Tracked [] db p = p
  run-Tracked (op ∷ ops) db p =
      run-Tracked ops (after canonical_sha256 op db) (after-Tracked op db p)

-- The identities of the stored actions: different, and below the supply.
pub record IsStored (db : Db) : Type 0 where
  pub unique : Unique db.actions
  pub fresh : All (λ (x : ExternalAction). x.id < db.next_id) db.actions

Tracked-start :
    (a : ExternalAction) (db : Db) → IsStored db → get a.id db.actions ≡ some a → Tracked a db
Tracked-start a db s e = (
  All-map _ _
      (λ x f q.
        let same : some x ≡ some a = sym f ∙ ap (λ i. get i db.actions) q ∙ e in
        let eq : x ≡ a = cc in
        subst (λ y. Reaches a.state y.state × SameContent a y) (sym eq) (Reaches.here, unchanged a))
      db.actions (Found-self db.actions s.unique),
  All-get (λ (x : ExternalAction). x.id < db.next_id) a.id db.actions a e s.fresh,
)

-- Whatever workers, reconcilers and humans do to the stored actions through these operations, an
-- action's state is reached from what it was along `ACTION_TRANSITIONS`, and its tenant, key,
-- provider, operation, approved payload, digest and idempotency key are what they were.
pub run_follows :
    (canonical_sha256 : Json → ℕ) (a a' : ExternalAction) (ops : List ActionOp) (db : Db)
    → IsStored db
    → get a.id db.actions ≡ some a
    → get a.id (run canonical_sha256 ops db).actions ≡ some a'
    → Reaches a.state a'.state × SameContent a a'
run_follows h a a' ops db s e e' =
    All-get (Follows a) a.id (run h ops db).actions a' e'
      (run-Tracked h a ops db (Tracked-start a db s e)).0
      (get-id a.id (run h ops db).actions {r = a'} e')
