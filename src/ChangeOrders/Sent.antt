-- ===== src/ChangeOrders/Sent.antt =====
-- What stands behind a Gmail send whose success is recorded.
use scope_guard.Base.{
  ℕ, ◌≡◌, refl, sym, ap, subst, ◌∙◌, String, Bool, true, false, not, Option, some, arith, eq_iff,
  Error, Result, ok, err, Exec, Json, num, str, Fields, get_field,
}
use scope_guard.Base.Does.{Post, Does, Does-raise, Does-raise_if, Does-ask}
use scope_guard.Base.Yields.{Yields, Out, Yields-does, Yields-weaken, Yields-any, Yields-map}
use scope_guard.Workers.Tables.{ActionState, ExternalAction, action_id}
use scope_guard.ChangeOrders.Tables.{Office}
use scope_guard.ChangeOrders.Sends.{
  find_action, payload_of, is_text, is_number, is_approved_content, settle_send,
  record_gmail_send_success,
}

-- a result is taken of a send that is under way, in doubt, or confirmed by its client
abbrev pub is_answerable : ActionState → Bool
is_answerable ActionState.dispatching = true
is_answerable ActionState.unknown_outcome = true
is_answerable ActionState.receipt_confirmed = true
is_answerable _ = false

-- the action that was found, and its approved content
pub record IsSent (i : ℕ) (recipient body : String) (hash : ℕ) (s : Office) : Type 0 where
  pub action : ExternalAction
  pub found : find_action i s ≡ some action
  pub answerable : is_answerable action.state ≡ true
  pub to_recipient : get_field "recipient" (payload_of action) ≡ some (str recipient)
  pub with_body : get_field "plain_text_body" (payload_of action) ≡ some (str body)
  pub with_hash : get_field "content_hash" (payload_of action) ≡ some (num hash)

text_known : (v : Option Json) (t : String) → is_text v t ≡ true → v ≡ some (str t)
text_known (some (str s)) t e = ap (λ x. some (str x)) ((eq_iff s t).0 e)
text_known v t e = absurd (ground arith)

number_known : (v : Option Json) (n : ℕ) → is_number v n ≡ true → v ≡ some (num n)
number_known (some (num m)) n e = ap (λ x. some (num x)) (ground (arith, e))
number_known v n e = absurd (ground arith)

content_known :
    (fs : Fields) (recipient body : String) (hash : ℕ)
    → not (is_approved_content fs recipient body hash) ≡ false
    → (get_field "recipient" fs ≡ some (str recipient))
      × (get_field "plain_text_body" fs ≡ some (str body))
      × (get_field "content_hash" fs ≡ some (num hash))
unfolding is_approved_content
content_known fs recipient body hash e = (
  text_known _ recipient (ground (arith, e)),
  text_known _ body (ground (arith, e)),
  number_known _ hash (ground (arith, e)),
)

-- nothing is said of the state after the write
abbrev Any : Office → Type 0
Any s = Unit {0}

always : {A : Type 0} {T : Type 0} (x : T) (r : Result A) → Post (λ _. T) r
always x (ok a) = x
always x (err e) = tt

given : {A : Type 0} {T : Type 0} (x : T) (m : Exec Office A) → Does Any (λ _. T) m
given x m = record { keeps = λ s p. tt; gives = λ s p. always x (m s).0 }

settle_answers :
    (now : ℕ) (a : ExternalAction) (message : String) (st : ActionState)
    → Does Any (λ _. is_answerable st ≡ true) (settle_send now a message st)
unfolding settle_send
settle_answers now a message ActionState.dispatching = given refl _
settle_answers now a message ActionState.unknown_outcome = given refl _
settle_answers now a message ActionState.receipt_confirmed = given refl _
settle_answers now a message st = Does-raise Error.conflict

module _ (s : Office) where
  abbrev At : Office → Type 0
  At x = x ≡ s

  success-Yields :
      (now i hash : ℕ) (message recipient body : String)
      → Yields At
          (record_gmail_send_success now i message recipient body hash)
          (λ _ _. IsSent i recipient body hash s)
  unfolding record_gmail_send_success
  success-Yields now i hash message recipient body =
      Yields-does {T = λ a. find_action i s ≡ some a} _ _
        (Does-ask _ Error.not_found (λ x a p q. ap (find_action i) (sym p) ∙ q))
        (λ a found. Yields-does _ _ (Does-raise_if _ Error.validation) (λ _ same.
          Yields-weaken _ (λ _ _. tt)
            (Yields-does {P = Any} _ _ (settle_answers now a message a.state) (λ _ answerable.
              let (to, with, content) = content_known (payload_of a) recipient body hash same in
              Yields-map _
                (λ _ _ _. record {
                  action = a;
                  found = found;
                  answerable = answerable;
                  to_recipient = to;
                  with_body = with;
                  with_hash = content;
                })
                (Yields-any _)))))

-- When the success of a Gmail send is recorded, the action was under way, in doubt or confirmed by its
-- client, and the recipient, the text and the hash that the provider reports are those of the payload
-- that its freelancer approved.
pub record_gmail_send_success-IsSent :
    (now i hash : ℕ) (message recipient body : String) (s t : Office) (a : ExternalAction)
    → record_gmail_send_success now i message recipient body hash s ≡ (ok a, t)
    → IsSent i recipient body hash s
record_gmail_send_success-IsSent now i hash message recipient body s t a e =
    subst (Out (λ _ _. IsSent i recipient body hash s)) e
      ((success-Yields s now i hash message recipient body).at s refl)
