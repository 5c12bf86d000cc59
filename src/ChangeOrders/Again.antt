-- ===== src/ChangeOrders/Again.antt =====
-- What an acceptance does that is repeated after its capability was consumed.
use scope_guard.Base.{
  ℕ, ◌≡◌, refl, sym, ap, subst, ◌∙◌, String, Bool, true, Option, none, some, [], Exec, Error,
  Result, ok, err, ◌>>=◌, is_some, if◌then◌else◌,
}
use scope_guard.Base.Frames.{Frame, frame_rules, Frame-bind, Frame-raise, Frame-raise_if, Frame-ask}
use scope_guard.Payments.Tables.{PaymentRequest}
use scope_guard.ChangeOrders.Tables.{
  ChangeOrder, ProposalRevision, ClientCapability, Purpose, Approval, Office,
}
use scope_guard.ChangeOrders.Sessions.{Scope, session_scope, open_session}
use scope_guard.ChangeOrders.Office.{Desk, on_access, fresh, add_capability}
use scope_guard.ChangeOrders.Acceptance.{
  AcceptanceResult, with_receipt, accept_again, accept_consumed, accept_client,
}
use scope_guard.ChangeOrders.Receipts.{
  receipt_credentials, reopen_receipt, receipt_credentials_for_existing,
}
use scope_guard.ChangeOrders.Frames.{scope-Frame}

-- the tables without the capabilities, the sessions and the supply of identities
unfoldable pub settled_part : Office → Office
settled_part s = record s {
  access = record (s.access) { capabilities = []; sessions = []; next_id = 0 };
}

fresh-Settled : Frame settled_part fresh
unfolding fresh settled_part
fresh-Settled = record { at = λ s. refl }

add_capability-Settled : (c : ClientCapability) → Frame settled_part (add_capability c)
unfolding add_capability settled_part
add_capability-Settled c = record { at = λ s. refl }

open_session-Settled :
    (h : String → ℕ) (c : ClientCapability) (p : Purpose) (t u v : String) (n : ℕ)
    → Frame settled_part (on_access (open_session h c p t u v n))
unfolding open_session on_access settled_part
open_session-Settled h c p t u v n = record { at = λ s. refl }

ruleset settled_rules = (frame_rules, fresh-Settled, add_capability-Settled, open_session-Settled)

module _ (d : Desk) (t u v : String) (k n : ℕ) where
  receipt-Settled :
      (c : ClientCapability) (r : ProposalRevision)
      → Frame settled_part (receipt_credentials d t u v n c r)
  unfolding receipt_credentials
  receipt-Settled c r = search settled_rules depth 14

  reopen-Settled :
      (c : ClientCapability) (r : ProposalRevision) (o : Option ClientCapability)
      → Frame settled_part (reopen_receipt d t u v n c r o)
  unfolding reopen_receipt
  reopen-Settled c r none = receipt-Settled c r
  reopen-Settled c r (some x) = search settled_rules

  again-Settled :
      (c : ClientCapability) (r : ProposalRevision) (o : ChangeOrder) (a : Option Approval)
      (p : Option PaymentRequest)
      → Frame settled_part (accept_again d t u v k n c r o a p)
  unfolding accept_again with_receipt receipt_credentials_for_existing
  again-Settled c r o (some a) (some p) = search (settled_rules, reopen-Settled) depth 14
  again-Settled c r o none p = Frame-raise Error.conflict
  again-Settled c r o (some a) none = Frame-raise Error.conflict

  consumed-Settled :
      (c : ClientCapability) (r : ProposalRevision) (o : ChangeOrder) (key : String)
      → Frame settled_part (accept_consumed d t u v k n c r o key)
  unfolding accept_consumed
  consumed-Settled c r o key = search (settled_rules, again-Settled)

  choice-Settled :
      (b : Bool) (m m' : Exec Office AcceptanceResult)
      → b ≡ true
      → Frame settled_part m
      → Frame settled_part (if b then m else m')
  choice-Settled b m m' e h = subst (λ x. Frame settled_part (if x then m else m')) (sym e) h

-- a block whose first part is known to return
after_known :
    {A B : Type 0} (x : Result A × Office) (f : A → Exec Office B) (a : A) (s : Office)
    → x.0 ≡ ok a
    → settled_part x.1 ≡ settled_part s
    → Frame settled_part (f a)
    → settled_part
        (let y : Result B × Office = elim x.0 [ ok b ↦ f b x.1 | err e ↦ (err e, x.1) ] in y).1
      ≡ settled_part s
after_known (ok b, t) f a s e h k =
    let same : a ≡ b = cc in (subst (λ c. Frame settled_part (f c)) same k).at t ∙ h
after_known (err b, t) f a s e h k = absurd cc

known_bind :
    {A B : Type 0} (m : Exec Office A) (f : A → Exec Office B) (a : A) (s : Office)
    → (m s).0 ≡ ok a
    → settled_part (m s).1 ≡ settled_part s
    → Frame settled_part (f a)
    → settled_part ((m >>= f) s).1 ≡ settled_part s
unfolding ◌>>=◌
known_bind m f a s e h k = after_known (m s) f a s e h k

-- A client who accepts again, with a capability that its acceptance has consumed, changes nothing but
-- capabilities and sessions, whether the call returns or raises: not the order, the request, the scope
-- and its amendments, the approvals, the revenue, nor any payment, action or job.
pub accept_client_again :
    (desk : Desk) (token session_token csrf_token : String) (correlation now : ℕ)
    (session csrf key : String) (i version revision hash : ℕ) (s : Office) (scope : Scope)
    → (session_scope desk.hash session (some csrf) now s.access).0 ≡ ok scope
    → is_some scope.1.consumed_at ≡ true
    → settled_part
        (accept_client desk token session_token csrf_token correlation now session csrf i version
          revision hash key s).1
      ≡ settled_part s
unfolding accept_client on_access
accept_client_again d t u v k n session csrf key i version revision hash s scope e consumed =
    known_bind _ _ scope s e
      (ap (λ a. settled_part (record s { access = a }))
        ((scope-Frame (λ a. a) d.hash session (some csrf) n).at s.access))
      (Frame-bind _ _ (Frame-raise_if _ Error.conflict) (λ _.
        Frame-bind _ _ (Frame-raise_if _ Error.validation) (λ _.
          Frame-bind _ _ (Frame-ask _ Error.conflict) (λ locked.
            Frame-bind _ _ (Frame-ask _ Error.conflict) (λ project.
              choice-Settled d t u v k n _ _ _ consumed
                (consumed-Settled d t u v k n _ _ locked key))))))
