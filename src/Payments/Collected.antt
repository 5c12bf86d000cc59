-- ===== src/Payments/Collected.antt =====
-- What `_transition` never undoes, and how its set of transitions compares with the table of the domain.
use scope_guard.Base.{
  ℕ, ◌∙◌, ◌≡◌, ◌≢◌, ◌+◌, true, false, if◌then◌else◌, refl, ◌⊎◌, inl, inr, some, List, [], ◌∷◌,
  arith, Result, ok, err,
}
use scope_guard.Payments.Tables.{PaymentStatus, PaymentRequest}
use scope_guard.Payments.Status.{
  same_status, Move, stays, changes, refused, allowed_move, is_final_for, move, paid_time, moved,
  by_move, transition, PaymentEvent, payment_transitions, IsCollected, transitions,
}

-- the request after one `_transition`, whether it conflicts or not
abbrev pub after : Result PaymentRequest → PaymentRequest → PaymentRequest
after (ok q) p = q
after (err e) p = p

-- whether the status is another one, as a number
abbrev pub changed : PaymentRequest → PaymentRequest → ℕ
changed p q = if same_status p.status q.status then 0 else 1

-- how many of the `_transition`s leave another status than they found
unfoldable pub status_changes : List (PaymentStatus × ℕ) → PaymentRequest → ℕ
status_changes [] p = 0
status_changes ((target, now) ∷ rest) p =
    changed p (after (transition p target now) p)
    + status_changes rest (after (transition p target now) p)

-- how a request may have changed with `n` changes of its status
pub record IsLater (n : ℕ) (p q : PaymentRequest) : Type 0 where
  pub collected : IsCollected p.status → IsCollected q.status
  pub reversed : p.status ≡ PaymentStatus.reversed → q.status ≡ PaymentStatus.reversed
  pub paid_at : (t : ℕ) → p.paid_at ≡ some t → q.paid_at ≡ some t
  pub counted : q.row_version ≡ p.row_version + n
  pub terms :
      (p.total_minor ≡ q.total_minor)
      × (p.currency ≡ q.currency)
      × (p.accepted_revision_id ≡ q.accepted_revision_id)

IsLater-refl : (p : PaymentRequest) → IsLater 0 p p
IsLater-refl p = record {
  collected = λ h. h;
  reversed = λ h. h;
  paid_at = λ t h. h;
  counted = omega arith;
  terms = (refl, refl, refl);
}

IsLater-trans :
    {m n : ℕ} {p q r : PaymentRequest} → IsLater m p q → IsLater n q r → IsLater (m + n) p r
IsLater-trans {m} {n} {p} {q} {r} a b = record {
  collected = λ h. b.collected (a.collected h);
  reversed = λ h. b.reversed (a.reversed h);
  paid_at = λ t h. b.paid_at t (a.paid_at t h);
  counted = omega (arith, a.counted, b.counted);
  terms = (a.terms.0 ∙ b.terms.0, a.terms.1 ∙ b.terms.1, a.terms.2 ∙ b.terms.2);
}

same_status_refl : (s : PaymentStatus) → same_status s s ≡ true
unfolding same_status
same_status_refl s = ground arith

unchanged : (p : PaymentRequest) → IsLater (changed p p) p p
unchanged p = rw (same_status_refl p.status) (IsLater-refl p)

kept_time : (target : PaymentStatus) (t now : ℕ) → paid_time target (some t) now ≡ some t
unfolding paid_time
kept_time target t now = ground arith

IsCollected-move :
    (s target : PaymentStatus) → move s target ≡ changes → IsCollected s → IsCollected target
unfolding move is_final_for allowed_move same_status
IsCollected-move s target e (inl h) = ground arith
IsCollected-move s target e (inr h) = ground arith

reversed_move : (s target : PaymentStatus) → move s target ≡ changes → s ≢ PaymentStatus.reversed
unfolding move is_final_for allowed_move same_status
reversed_move s target e h = ground arith

differs : (s target : PaymentStatus) → move s target ≡ changes → same_status s target ≡ false
unfolding move is_final_for allowed_move same_status
differs s target e = ground arith

moved-IsLater :
    (p : PaymentRequest) (target : PaymentStatus) (now : ℕ)
    → move p.status target ≡ changes
    → IsLater (changed p (moved p target now)) p (moved p target now)
unfolding moved
moved-IsLater p target now e = record {
  collected = IsCollected-move p.status target e;
  reversed = λ h. absurd (reversed_move p.status target e h);
  paid_at = λ t h. rw h (kept_time target t now);
  counted = rw (differs p.status target e) refl;
  terms = (refl, refl, refl);
}

by_move-IsLater :
    (m : Move) (p : PaymentRequest) (target : PaymentStatus) (now : ℕ)
    → move p.status target ≡ m
    → IsLater (changed p (after (by_move m p target now) p)) p (after (by_move m p target now) p)
unfolding by_move
by_move-IsLater stays p target now e = unchanged p
by_move-IsLater changes p target now e = moved-IsLater p target now e
by_move-IsLater refused p target now e = unchanged p

transition-IsLater :
    (p : PaymentRequest) (target : PaymentStatus) (now : ℕ)
    → IsLater (changed p (after (transition p target now) p)) p (after (transition p target now) p)
unfolding transition
transition-IsLater p target now = by_move-IsLater (move p.status target) p target now refl

step-IsLater :
    (rest : List (PaymentStatus × ℕ)) (p : PaymentRequest) (r : Result PaymentRequest)
    → IsLater (changed p (after r p)) p (after r p)
    → ((q : PaymentRequest) → IsLater (status_changes rest q) q (transitions rest q))
    → IsLater
        (changed p (after r p) + status_changes rest (after r p))
        p
        (elim r [ ok q ↦ transitions rest q | err e ↦ transitions rest p ])
step-IsLater rest p (ok q) h k = IsLater-trans h (k q)
step-IsLater rest p (err e) h k = IsLater-trans h (k p)

-- Through any sequence of `_transition`s, conflicts included: a collected payment stays collected and a
-- reversed one reversed, the time of payment once set stays, the row version rises by exactly the
-- number of transitions that change the status, and the amount, the currency and the accepted
-- revision stay.
pub transitions-IsLater :
    (ops : List (PaymentStatus × ℕ)) (p : PaymentRequest)
    → IsLater (status_changes ops p) p (transitions ops p)
unfolding transitions status_changes
transitions-IsLater [] p = IsLater-refl p
transitions-IsLater ((target, now) ∷ rest) p =
    step-IsLater rest p (transition p target now) (transition-IsLater p target now)
      (transitions-IsLater rest)

-- a link may be issued again
abbrev pub IsReissue : PaymentStatus → PaymentStatus → Type 0
IsReissue s target =
    ((s ≡ PaymentStatus.expired) ⊎ (s ≡ PaymentStatus.cancelled)) × (target ≡ PaymentStatus.pending)

table_covers :
    (s target : PaymentStatus)
    → move s target ≡ changes
    → ((event : PaymentEvent) × (payment_transitions s event ≡ some target)) ⊎ IsReissue s target
unfolding move is_final_for allowed_move same_status payment_transitions
table_covers PaymentStatus.creation_pending PaymentStatus.pending e =
    inl (PaymentEvent.link_verified, refl)
table_covers PaymentStatus.creation_pending PaymentStatus.review_required e =
    inl (PaymentEvent.mismatch, refl)
table_covers PaymentStatus.pending PaymentStatus.review_required e =
    inl (PaymentEvent.mismatch, refl)
table_covers PaymentStatus.pending PaymentStatus.paid e =
    inl (PaymentEvent.full_capture_verified, refl)
table_covers PaymentStatus.pending PaymentStatus.expired e =
    inl (PaymentEvent.provider_expired, refl)
table_covers PaymentStatus.pending PaymentStatus.cancelled e =
    inl (PaymentEvent.provider_cancelled, refl)
table_covers PaymentStatus.review_required PaymentStatus.paid e =
    inl (PaymentEvent.full_capture_verified, refl)
table_covers PaymentStatus.expired PaymentStatus.paid e =
    inl (PaymentEvent.full_capture_verified, refl)
table_covers PaymentStatus.paid PaymentStatus.reversed e =
    inl (PaymentEvent.reversal_confirmed, refl)
table_covers PaymentStatus.expired PaymentStatus.pending e = inr (inl refl, refl)
table_covers PaymentStatus.cancelled PaymentStatus.pending e = inr (inr refl, refl)
table_covers s target e = absurd (ground arith)

table_done :
    (s target : PaymentStatus) (event : PaymentEvent)
    → payment_transitions s event ≡ some target
    → s ≢ PaymentStatus.not_requested
    → move s target ≡ changes
unfolding move is_final_for allowed_move same_status payment_transitions
table_done s target event e n = ground arith

-- `_transition` changes a status exactly where the table of the domain has an event for it, with two
-- differences: it also takes an expired or cancelled request back to pending, and it never leaves
-- NOT_REQUESTED.
pub transition_table :
    (s target : PaymentStatus)
    → (move s target ≡ changes
        → ((event : PaymentEvent) × (payment_transitions s event ≡ some target))
          ⊎ IsReissue s target)
      × (IsReissue s target → move s target ≡ changes)
      × ((event : PaymentEvent)
          → payment_transitions s event ≡ some target
          → s ≢ PaymentStatus.not_requested
          → move s target ≡ changes)
      × (s ≡ PaymentStatus.not_requested → move s target ≢ changes)
unfolding move is_final_for allowed_move same_status
transition_table s target = (
  table_covers s target,
  (λ h. ground arith),
  (λ event e n. table_done s target event e n),
  (λ h. ground arith),
)
