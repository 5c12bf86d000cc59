-- ===== src/ChangeOrders/Lifecycle/Frames.antt =====
-- What leaves the table of orders alone.
use scope_guard.Base.{ℕ, refl, String, Option, none, some, List, Exec, Fields}
use scope_guard.ChangeOrders.Frames.{Tables, seen, view_rules}
use scope_guard.ChangeOrders.AcceptanceFrames.{acceptance_rules}
use scope_guard.Base.Frames.{Frame}
use scope_guard.Payments.Tables.{Ledger}
use scope_guard.ChangeOrders.Tables.{
  ChangeOrder, ProposalRevision, ClientCapability, Office, Project,
}
use scope_guard.ChangeOrders.Office.{Desk, on_ledger, edit_revision}
use scope_guard.ChangeOrders.Proposals.{previous_of, supersede, add_revision}
use scope_guard.ChangeOrders.Payload.{proposal_payload}
use scope_guard.ChangeOrders.Acceptance.{request_payment}

abbrev pub orders : Office → List ChangeOrder
orders = seen (λ o r p. o)

pub on_ledger-Frame : {A : Type 0} (m : Exec Ledger A) → Frame orders (on_ledger m)
unfolding on_ledger seen
on_ledger-Frame m = record { at = λ s. refl }

pub edit_revision-Frame :
    (i : ℕ) (f : ProposalRevision → ProposalRevision) → Frame orders (edit_revision i f)
unfolding edit_revision seen
edit_revision-Frame i f = record { at = λ s. refl }

pub add_revision-Frame : (d : Desk) (r : ProposalRevision) → Frame orders (add_revision d r)
unfolding add_revision seen
add_revision-Frame d r = record { at = λ s. refl }

pub ruleset order_rules =
    (view_rules, acceptance_rules, on_ledger-Frame, edit_revision-Frame, add_revision-Frame)

pub supersede-Frame :
    (d : Desk) (o n : ℕ) (r : Option ProposalRevision) → Frame orders (supersede d o n r)
unfolding supersede
supersede-Frame d o n none = search order_rules
supersede-Frame d o n (some r) = search order_rules

pub previous_of-Frame :
    (d : Desk) (o : ChangeOrder) (i : Option ℕ) → Frame orders (previous_of d o i)
unfolding previous_of
previous_of-Frame d o none = search order_rules
previous_of-Frame d o (some i) = search order_rules

pub proposal_payload-Frame :
    (d : Desk) (f : Fields) (a b c : ℕ) → Frame orders (proposal_payload d f a b c)
unfolding proposal_payload
proposal_payload-Frame d f a b c = search order_rules depth 24

module _ (d : Desk) (t u v : String) (k n : ℕ) where
  pub request_payment-Frame :
      (c : ClientCapability) (r : ProposalRevision) (p : Project) (o : ChangeOrder)
      → Frame orders (request_payment d t u v k n c r p o)
  unfolding request_payment
  request_payment-Frame c r p o = search order_rules depth 14
