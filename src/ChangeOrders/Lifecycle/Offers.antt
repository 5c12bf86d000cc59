-- ===== src/ChangeOrders/Lifecycle/Offers.antt =====
-- Revisions, assembly and approval only change orders as they may.
use scope_guard.Base.{
  ℕ, ◌≡◌, refl, String, Bool, true, false, not, Option, none, some, ◌+◌, arith, find?, Error, Exec,
  gets, bind_assoc, ◌>>=◌, Fields,
}
use scope_guard.Base.Unique.{Unique}
use scope_guard.Base.Frames.{Frame, Frame-pure, Frame-bind}
use scope_guard.Domain.Auth.{TrustedContext}
use scope_guard.ChangeOrders.Tables.{
  ChangeOrderStatus, ChangeOrder, ProposalRevision, Project, RequestRecord, Notification, Office,
  order_id,
}
use scope_guard.ChangeOrders.Office.{Desk}
use scope_guard.ChangeOrders.Proposals.{new_revision, create_revision, is_spent}
use scope_guard.ChangeOrders.Assembly.{
  is_live_order, order_row, open_order, resolve_decision, notify, queue_freelancer_notification,
  assemble_change_order,
}
use scope_guard.ChangeOrders.Approvals.{awaits_freelancer, record_approval, approve_freelancer}
use scope_guard.ChangeOrders.Frames.{seen}
use scope_guard.ChangeOrders.Lifecycle.Frames.{
  orders, order_rules, supersede-Frame, previous_of-Frame, proposal_payload-Frame,
}
use scope_guard.ChangeOrders.Lifecycle.Steps.{
  Tracks-bind, From-bind, From-then, From-guard, Tracks-find, find?_row, From-move, From-point,
  Tracks-eq, Tracks-insert, From-pure,
}
use scope_guard.ChangeOrders.Lifecycle.Changes.{is_final, Moved, Tracks, From, Tracks-of_Frame}

module _ (desk : Desk) (token : String) (now : ℕ) where
  pub new_revision-From :
      (o : ChangeOrder) (project : Project) (request : RequestRecord) (contact : ℕ) (draft : Fields)
      → is_final o.status ≡ false
      → From o (new_revision desk token now o project request contact draft)
  unfolding new_revision
  new_revision-From o project request contact draft h =
      From-bind o _ _ (search order_rules) (λ baseline.
        From-bind o _ _ (proposal_payload-Frame desk draft baseline request.request_version contact)
          (λ p. From-bind o _ _ (previous_of-Frame desk o o.current_revision_id) (λ previous.
            From-bind o _ _ (supersede-Frame desk o.id now previous) (λ _.
              From-bind o _ _ (search order_rules) (λ preference.
                From-bind o _ _ (search order_rules) (λ ciphertext.
                  From-bind o _ _ (search order_rules) (λ id.
                    From-bind o _ _ (search order_rules) (λ _.
                      From-then o _ _ (From-point desk o id h)
                        (λ _. Tracks-of_Frame _ (search order_rules))))))))))

  spent_final : (s : ChangeOrderStatus) → is_spent desk token now s ≡ false → is_final s ≡ false
  spent_final s h = ground (arith, h)

  pub create_revision-Tracks :
      (context : TrustedContext) (i : ℕ) (edits : Fields)
      → Tracks (create_revision desk token now context i edits)
  unfolding create_revision
  create_revision-Tracks context i edits = Tracks-find context.tenant_id i Error.not_found _ (λ o.
      From-guard o _ _ _ (λ g. From-bind o _ _ (search order_rules) (λ current.
        From-bind o _ _ (search order_rules) (λ project.
          From-bind o _ _ (search order_rules) (λ request.
            From-bind o _ _ (search order_rules) (λ contact.
              new_revision-From o project request contact.id _ (spent_final o.status g)))))))

-- the order that an assembly goes on with is there, and neither accepted nor withdrawn
module _ {A : Type 0} (t p r : ℕ) (f : ChangeOrder → Exec Office A)
    (h : (o : ChangeOrder) → is_final o.status ≡ false → From o (f o)) where
  new_order-Tracks : Tracks (open_order t p r none >>= f)
  unfolding open_order order_row
  new_order-Tracks = Tracks-eq _ _ (bind_assoc _ _ f) (
      Tracks-bind _ _ (Tracks-of_Frame _ (search order_rules)) (λ last.
        Tracks-eq _ _ (bind_assoc _ _ f) (
          Tracks-bind _ _ (Tracks-of_Frame _ (search order_rules)) (λ id.
            Tracks-eq _ _ (bind_assoc _ _ f)
              (Tracks-insert _ _ (From-pure _ _ f (h (order_row t p r (last + 1) id) refl)))))))

  live_row : (o : ChangeOrder) → is_live_order t p r o ≡ true → is_final o.status ≡ false
  unfolding is_live_order
  live_row o e = ground (arith, e)

  opened :
      (s : Office) (known : Option ChangeOrder)
      → find? (is_live_order t p r) (orders s) ≡ known
      → Unique (orders s)
      → Moved (orders s) (orders ((open_order t p r known >>= f) s).1)
  unfolding open_order ◌>>=◌
  opened s none e u = new_order-Tracks.at s u
  opened s (some o) e u =
      let (at, live) = find?_row (is_live_order t p r) (orders s) o u e in
      (h o (live_row o live)).at s u at

  pub open_order-Tracks : Tracks (
      gets (λ s. find? (is_live_order t p r) s.access.orders) >>= λ known.
      open_order t p r known >>= f)
  unfolding ◌>>=◌ seen
  open_order-Tracks = record {
    at = λ s u. opened s (find? (is_live_order t p r) s.access.orders) refl u;
  }

resolve-Frame : (i : ℕ) → Frame orders (resolve_decision i)
unfolding resolve_decision seen
resolve-Frame i = record { at = λ s. refl }

notify-Frame :
    (o : ChangeOrder) (r : ProposalRevision) (m : String) (a : ℕ) (n : Option Notification)
    → Frame orders (notify o r m a n)
unfolding notify seen
notify-Frame o r m a (some n) = Frame-bind _ _ (record { at = λ s. refl }) (λ _. Frame-pure n.id)
notify-Frame o r m a none =
    Frame-bind _ _ (search order_rules)
      (λ id. Frame-bind _ _ (record { at = λ s. refl }) (λ _. Frame-pure id))

queue-Frame :
    (d : Desk) (c : TrustedContext) (o : ChangeOrder) (r : ProposalRevision) (n : ℕ)
    → Frame orders (queue_freelancer_notification d c o r n)
unfolding queue_freelancer_notification
queue-Frame d c o r n = search (order_rules, notify-Frame) depth 14

module _ (desk : Desk) (now : ℕ) (context : TrustedContext) where
  pub assemble_change_order-Tracks :
      (token : String) (i : ℕ) → Tracks (assemble_change_order desk token now context i)
  unfolding assemble_change_order
  assemble_change_order-Tracks token i =
      Tracks-bind _ _ (Tracks-of_Frame _ (search order_rules)) (λ decision.
        Tracks-bind _ _ (Tracks-of_Frame _ (search order_rules)) (λ _.
          Tracks-bind _ _ (Tracks-of_Frame _ (search order_rules)) (λ draft.
            Tracks-bind _ _ (Tracks-of_Frame _ (search order_rules)) (λ project.
              Tracks-bind _ _ (Tracks-of_Frame _ (search order_rules)) (λ request.
                Tracks-bind _ _ (Tracks-of_Frame _ (search order_rules)) (λ _.
                  Tracks-bind _ _ (Tracks-of_Frame _ (search order_rules)) (λ contact.
                    open_order-Tracks context.tenant_id project.id request.id _ (λ o h.
                      From-then o _ _
                        (new_revision-From desk token now o project request contact.id draft.payload
                          h)
                        (λ _.
                          Tracks-of_Frame _
                            (search (order_rules, resolve-Frame, queue-Frame) depth 14))))))))))

  record_approval-From :
      (o : ChangeOrder) (r : ProposalRevision) (hash : ℕ)
      → awaits_freelancer o.status ≡ true
      → From o (record_approval desk context now o r hash)
  unfolding record_approval
  record_approval-From o r hash h = From-bind o _ _ (search order_rules) (λ id.
      From-bind o _ _ (search order_rules) (λ _. From-bind o _ _ (search order_rules) (λ capability.
        From-bind o _ _ (search order_rules) (λ _.
          From-then o _ _ (From-move o ChangeOrderStatus.send_pending h)
            (λ _. Tracks-of_Frame _ (search order_rules depth 14))))))

  awaits : (b : Bool) → not b ≡ false → b ≡ true
  awaits true e = refl
  awaits false e = cc

  pub approve_freelancer-Tracks :
      (i version revision hash : ℕ)
      → Tracks (approve_freelancer desk context now i version revision hash)
  unfolding approve_freelancer
  approve_freelancer-Tracks i version revision hash =
      Tracks-find context.tenant_id i Error.not_found _ (λ o.
        From-bind o _ _ (search order_rules) (λ project. From-bind o _ _ (search order_rules) (λ _.
          From-bind o _ _ (search order_rules) (λ r. From-bind o _ _ (search order_rules) (λ _.
            From-guard o _ _ _ (λ g. From-bind o _ _ (search order_rules) (λ request.
              From-bind o _ _ (search order_rules) (λ _. From-bind o _ _ (search order_rules) (λ _.
                From-bind o _ _ (search order_rules) (λ stale.
                  From-bind o _ _ (search order_rules)
                    (λ _. record_approval-From o r hash (awaits _ g))))))))))))
