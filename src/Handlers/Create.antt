-- ===== src/Handlers/Create.antt =====
-- What becomes of the jobs that `prepare_payment_link` queues.
use scope_guard.Base.{
  ℕ, ◌≡◌, refl, ap, inl, inr, ◌==◌, Bool-cases, false, Option, none, some, List, [], ◌∷◌, arith,
  All, find?, Error, Result, ok, err, or_raise, bind_ok, bind_err, get_field,
}
use scope_guard.Workers.Tables.{Job, ExternalAction}
use scope_guard.Payments.Tables.{Ledger}
use scope_guard.Payments.Texts.{fields_of}
use scope_guard.Handlers.{
  id_of_entry, entry, is_action_of, action_for_job, Clients, run_create, run_payload_job,
}

-- the action `i` was prepared under the name that `prepare_payment_link` uses
abbrev pub IsPrepared : ℕ → ExternalAction → Type 0
IsPrepared i a = a.id ≡ i → a.operation ≡ "payment_links.create"

prepared_differs :
    (job : Job) (i : ℕ) (a : ExternalAction)
    → IsPrepared i a
    → is_action_of job i "razorpay" "create_payment_link" a ≡ false
unfolding is_action_of
prepared_differs job i a h = elim (Bool-cases (a.id == i)) [
  | inl same ↦ rw (same, h (ground (arith, same))) (ground arith)
  | inr other ↦ rw other (ground arith)
]

none_found :
    (job : Job) (i : ℕ) (actions : List ExternalAction)
    → All (IsPrepared i) actions
    → find? (is_action_of job i "razorpay" "create_payment_link") actions ≡ none
unfolding find?
none_found job i [] h = refl
none_found job i (a ∷ rest) h = rw (prepared_differs job i a h.0) (none_found job i rest h.1)

action_fails :
    (job : Job) (i : ℕ) (s : Ledger)
    → All (IsPrepared i) s.db.actions
    → action_for_job job i "razorpay" "create_payment_link" s ≡ (err Error.value_error, s)
unfolding action_for_job
action_fails job i s h =
    bind_err (λ x. x ≡ (err Error.value_error, s))
      (λ t.
        or_raise (find? (is_action_of job i "razorpay" "create_payment_link") t.db.actions)
          Error.value_error t)
      _ s Error.value_error s
      (ap (λ (o : Option ExternalAction). or_raise o Error.value_error s)
        (none_found job i s.db.actions h))
      refl

run_create_fails :
    (clients : Clients) (now : ℕ) (job : Job) (s : Ledger) (i : ℕ)
    → All (IsPrepared i) s.db.actions
    → id_of_entry (get_field "action_id" (fields_of (some job.payload_ref))) ≡ ok i
    → run_create clients now job s ≡ (err Error.value_error, s)
unfolding run_create entry
run_create_fails clients now job s i h e =
    bind_ok (λ x. x ≡ (err Error.value_error, s)) (entry job "action_id") _ s i s
      (ap (λ (r : Result ℕ). (r, s)) e)
      (bind_err (λ x. x ≡ (err Error.value_error, s))
        (action_for_job job i "razorpay" "create_payment_link") _ s Error.value_error s
        (action_fails job i s h) refl)

-- A job of kind `payment.create` raises ValueError and changes nothing when the action that it names was
-- prepared under the operation `payment_links.create`, as `prepare_payment_link` prepares them,
-- whatever other actions there are and whatever the provider would answer.
pub payment_create_fails :
    (clients : Clients) (now : ℕ) (job : Job) (s : Ledger) (i : ℕ)
    → job.kind ≡ "payment.create"
    → All (IsPrepared i) s.db.actions
    → id_of_entry (get_field "action_id" (fields_of (some job.payload_ref))) ≡ ok i
    → run_payload_job clients now job s ≡ (err Error.value_error, s)
unfolding run_payload_job run_create entry action_for_job is_action_of
payment_create_fails clients now job s i kind h e =
    rw kind (run_create_fails clients now job s i h e)
