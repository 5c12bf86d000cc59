-- ===== src/ChangeOrders/Lifecycle/Sweeps.antt =====
-- Outcomes of sends and the expiry of offers only change orders as they may.
use scope_guard.Base.{
  ℕ, ◌≡◌, refl, inl, inr, String, Bool, true, false, Option, none, some, List, [], ◌∷◌, arith,
  filter, filter_sound, All-map, All-filter, get, Error, Exec, gets, sum_each, ◌>>=◌,
}
use scope_guard.Base.Unique.{Unique, Unique-filter, Found-self}
use scope_guard.Base.Frames.{Frame, Frame-pure, Frame-raise}
use scope_guard.Workers.Tables.{ActionState, ExternalAction}
use scope_guard.ChangeOrders.Tables.{
  ChangeOrderStatus, ChangeOrder, ClientCapability, Office, order_id,
}
use scope_guard.ChangeOrders.Office.{Desk, find_order}
use scope_guard.ChangeOrders.Sends.{
  Match, is_send_pending, record_late, settle_unknown, complete, await_client, arrive, settle_send,
  record_gmail_send_success, review_send, settle_match, by_matches, reconcile_gmail_unknown,
}
use scope_guard.ChangeOrders.Expiry.{
  is_awaiting, is_pending, expire_offer, expire_due, is_overdue, expire_unsent, expire_overdue,
  expire_stale_offers,
}
use scope_guard.ChangeOrders.Frames.{seen}
use scope_guard.ChangeOrders.Lifecycle.Frames.{orders, order_rules}
use scope_guard.ChangeOrders.Lifecycle.Ends.{cancel_pending-Frame}
use scope_guard.ChangeOrders.Lifecycle.Steps.{
  Moved-bind, Tracks-bind, From-move, From-if, Tracks-gets, find_order_row, move_order-then,
}
use scope_guard.ChangeOrders.Lifecycle.Loops.{Outcome, sum_each-Moved}
use scope_guard.ChangeOrders.Lifecycle.Changes.{
  Moved, Follows-refl, Tracks, From, Tracks-of_Frame, From-of_Tracks, may_become,
}

await_client-From : (o : ChangeOrder) → From o (await_client (some o))
unfolding await_client
await_client-From o =
    From-if o (is_send_pending o.status) _ _
      (λ h. From-move o ChangeOrderStatus.awaiting_client_approval h)
      (λ _. From-of_Tracks o _ (Tracks-of_Frame _ (Frame-pure tt)))

awaited :
    (s : Office) (o : Option ChangeOrder)
    → ((x : ChangeOrder) → o ≡ some x → get x.id (orders s) ≡ some x)
    → Unique (orders s)
    → Moved (orders s) (orders (await_client o s).1)
unfolding await_client
awaited s (some o) h u = (await_client-From o).at s u (h o refl)
awaited s none h u = (u, Follows-refl (orders s))

arrive-Tracks : (a : ExternalAction) → Tracks (arrive a)
unfolding arrive
arrive-Tracks a = Tracks-bind _ _ (Tracks-of_Frame _ (search order_rules)) (λ i.
    Tracks-gets _ _
      (λ s u. awaited s (find_order a.tenant_id i s) (λ x e. find_order_row a.tenant_id i s x e) u))

late-Frame : (n : ℕ) (a : ExternalAction) (m : String) → Frame orders (record_late n a m)
unfolding record_late
late-Frame n a m = search order_rules

unknown-Frame : (n : ℕ) (a : ExternalAction) (m : String) → Frame orders (settle_unknown n a m)
unfolding settle_unknown
unknown-Frame n a m = search order_rules

complete-Frame : (n : ℕ) (a : ExternalAction) (m : String) → Frame orders (complete n a m)
unfolding complete
complete-Frame n a m = search order_rules

settle_send-Tracks :
    (n : ℕ) (a : ExternalAction) (m : String) (x : ActionState) → Tracks (settle_send n a m x)
unfolding settle_send
settle_send-Tracks n a m ActionState.receipt_confirmed = Tracks-of_Frame _ (late-Frame n a m)
settle_send-Tracks n a m ActionState.unknown_outcome =
    Tracks-bind _ _ (Tracks-of_Frame _ (unknown-Frame n a m)) (λ _. arrive-Tracks a)
settle_send-Tracks n a m ActionState.dispatching =
    Tracks-bind _ _ (Tracks-of_Frame _ (complete-Frame n a m)) (λ _. arrive-Tracks a)
settle_send-Tracks n a m _ = Tracks-of_Frame _ (Frame-raise Error.conflict)

pub record_gmail_send_success-Tracks :
    (n i : ℕ) (m recipient body : String) (hash : ℕ)
    → Tracks (record_gmail_send_success n i m recipient body hash)
unfolding record_gmail_send_success
record_gmail_send_success-Tracks n i m recipient body hash =
    Tracks-bind _ _ (Tracks-of_Frame _ (search order_rules)) (λ a.
      Tracks-bind _ _ (Tracks-of_Frame _ (search order_rules)) (λ _.
        Tracks-bind _ _ (settle_send-Tracks n a m a.state)
          (λ _. Tracks-of_Frame _ (search order_rules))))

review_send-Frame : (n : ℕ) (a : ExternalAction) → Frame orders (review_send n a)
unfolding review_send
review_send-Frame n a = search order_rules

settle_match-Tracks : (n : ℕ) (a : ExternalAction) (m : Match) → Tracks (settle_match n a m)
unfolding settle_match
settle_match-Tracks n a m = Tracks-bind _ _ (Tracks-of_Frame _ (search order_rules)) (λ message.
    Tracks-bind _ _ (Tracks-of_Frame _ (search order_rules)) (λ recipient.
      Tracks-bind _ _ (Tracks-of_Frame _ (search order_rules)) (λ body.
        Tracks-bind _ _ (Tracks-of_Frame _ (search order_rules))
          (λ hash. record_gmail_send_success-Tracks n a.id message recipient body hash))))

by_matches-Tracks : (n : ℕ) (a : ExternalAction) (ms : List Match) → Tracks (by_matches n a ms)
unfolding by_matches
by_matches-Tracks n a [] = Tracks-of_Frame _ (Frame-pure a)
by_matches-Tracks n a (m ∷ []) = settle_match-Tracks n a m
by_matches-Tracks n a (m ∷ x ∷ rest) = Tracks-of_Frame _ (review_send-Frame n a)

pub reconcile_gmail_unknown-Tracks :
    (n i : ℕ) (ms : List Match) → Tracks (reconcile_gmail_unknown n i ms)
unfolding reconcile_gmail_unknown
reconcile_gmail_unknown-Tracks n i ms =
    Tracks-bind _ _ (Tracks-of_Frame _ (search order_rules))
      (λ a. Tracks-bind _ _ (Tracks-of_Frame _ (search order_rules)) (λ _. by_matches-Tracks n a _))

module _ (d : Desk) (k n : ℕ) where
  expire_offer-Outcome :
      (o : ChangeOrder) (c : Option ClientCapability) (s : Office)
      → Outcome ChangeOrderStatus.expired o (orders s) (orders (expire_offer d k n o c s).1)
  unfolding expire_offer
  expire_offer-Outcome o none s = inl refl
  expire_offer-Outcome o (some c) s = inr (
      move_order-then o.id ChangeOrderStatus.expired _
        (λ _. search (order_rules, cancel_pending-Frame) depth 14) s)

  expire_due-Outcome :
      (o : ChangeOrder) (s : Office)
      → Outcome ChangeOrderStatus.expired o (orders s) (orders (expire_due d k n o s).1)
  unfolding expire_due ◌>>=◌
  expire_due-Outcome o s = expire_offer-Outcome o _ s

  expire_unsent-Outcome :
      (o : ChangeOrder) (b : Bool) (s : Office)
      → Outcome ChangeOrderStatus.expired o (orders s) (orders (expire_unsent d k n o b s).1)
  unfolding expire_unsent
  expire_unsent-Outcome o false s = inl refl
  expire_unsent-Outcome o true s = inr (
      move_order-then o.id ChangeOrderStatus.expired _
        (λ _. search (order_rules, cancel_pending-Frame) depth 14) s)

  expire_overdue-Outcome :
      (o : ChangeOrder) (s : Office)
      → Outcome ChangeOrderStatus.expired o (orders s) (orders (expire_overdue d k n o s).1)
  unfolding expire_overdue ◌>>=◌
  expire_overdue-Outcome o s = expire_unsent-Outcome o (is_overdue d k n o s) s

  awaiting_may :
      (o : ChangeOrder)
      → is_awaiting o ≡ true
      → may_become ChangeOrderStatus.expired o.status ≡ true
  unfolding is_awaiting
  awaiting_may o h = h

  pending_may :
      (o : ChangeOrder) → is_pending o ≡ true → may_become ChangeOrderStatus.expired o.status ≡ true
  unfolding is_pending
  pending_may o h = ground (arith, h)

  -- one loop of the sweep, over the orders that a query selects
  sweep :
      (body : ChangeOrder → Exec Office ℕ) (p : ChangeOrder → Bool)
      → ((o : ChangeOrder) (s : Office)
          → Outcome ChangeOrderStatus.expired o (orders s) (orders (body o s).1))
      → ((o : ChangeOrder) → p o ≡ true → may_become ChangeOrderStatus.expired o.status ≡ true)
      → (s : Office) → Unique (orders s)
      → Moved (orders s) (orders (sum_each body (filter p (orders s)) s).1)
  sweep body p only may s u =
      sum_each-Moved ChangeOrderStatus.expired body only (filter p (orders s)) s
        (All-map _ _ may (filter p (orders s)) (filter_sound p (orders s)))
        (Unique-filter p (orders s) u) (All-filter _ p (orders s) (Found-self (orders s) u)) u

  sweep-Tracks :
      {A : Type 0} (body : ChangeOrder → Exec Office ℕ) (p : ChangeOrder → Bool)
      (f : ℕ → Exec Office A)
      → ((s : Office)
          → Unique (orders s)
          → Moved (orders s) (orders (sum_each body (filter p (orders s)) s).1))
      → ((m : ℕ) → Tracks (f m))
      → Tracks (gets (λ s. filter p s.access.orders) >>= λ os. sum_each body os >>= f)
  unfolding seen
  sweep-Tracks body p f h k = Tracks-gets _ _ (λ s u. Moved-bind _ f s (h s u) k)

  pub expire_stale_offers-Tracks : Tracks (expire_stale_offers d k n)
  unfolding expire_stale_offers
  expire_stale_offers-Tracks =
      sweep-Tracks _ is_awaiting _ (sweep _ is_awaiting expire_due-Outcome awaiting_may) (λ offers.
        sweep-Tracks _ is_pending _ (sweep _ is_pending expire_overdue-Outcome pending_may)
          (λ unsent. Tracks-of_Frame _ (Frame-pure _)))
