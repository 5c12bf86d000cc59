-- ===== src/Workers/Outbox/AtLeastOnce.antt =====
-- An event is marked published only after the publisher took it, at whatever point a crash comes.
use scope_guard.Base.{
  ℕ, ◌+◌, ◌≤◌, ◌≡◌, refl, ◌∙◌, inl, inr, String, Bool, true, false, not, ◌&&◌, Option, none, some,
  List, [], ◌∷◌, arith, All, All-put, All-take, All-map, filter_sound, Bool-cases, is_none, is_some,
  count, ltb, Result, ok, Error, gets, ◌>>=◌, commit, bind_ok,
}
use scope_guard.Base.Unique.{All-sort_by}
use scope_guard.Base.Does.{Does, Anything, Does-pure, Does-raise_if, Does-bind}
use scope_guard.Workers.Faults.{CrashPoint, CrashInjector, trip, no_injector}
use scope_guard.Workers.Tables.{OutboxEvent, Db, outbox_id}
use scope_guard.Workers.Outbox.{
  Publisher, Events, pending, publish_order, save_event, attempted, outcome, rejected, published,
  settle, publish_one, tally, publish_each, publish_outbox,
}

module _ (publish : Publisher) where
  -- An event that is marked published was taken by the publisher at its last attempt.
  abbrev pub IsHonest : OutboxEvent → Type 0
  IsHonest e = is_some e.published_at ≡ true → publish e.id e.publish_attempts ≡ none

  -- both as the transaction sees the outbox and as it is committed
  abbrev pub IsHonestSession : Events → Type 0
  IsHonestSession s = All IsHonest s.now.outbox × All IsHonest s.saved.outbox

  save_event-Does : (e : OutboxEvent) → IsHonest e → Does IsHonestSession Anything (save_event e)
  unfolding save_event
  save_event-Does e h = record {
    keeps = λ s p. (All-put IsHonest e s.now.outbox h p.0, p.1);
    gives = λ s p. tt;
  }

  commit-Does : Does IsHonestSession Anything (commit {S = Db})
  commit-Does = record { keeps = λ s p. (p.0, p.0); gives = λ s p. tt }

  trip-Does :
      (i : CrashInjector) (c : CrashPoint) → Does IsHonestSession Anything (trip {S = Events} i c)
  unfolding trip
  trip-Does i c = record {
    keeps = λ s p. elim (Bool-cases (i c)) [ inl e ↦ rw e p | inr e ↦ rw e p ];
    gives = λ s p. elim (Bool-cases (i c)) [ inl e ↦ rw e tt | inr e ↦ rw e tt ];
  }

  settle-Does :
      (i : CrashInjector) (t : ℕ) (e : OutboxEvent) (o : Option String)
      → is_none e.published_at ≡ true
      → (o ≡ none → publish e.id e.publish_attempts ≡ none)
      → Does IsHonestSession Anything (settle i t e o)
  unfolding settle rejected published
  settle-Does i t e (some x) n taken =
      Does-bind _ _
        (save_event-Does (record e { last_error = some x }) (λ h. absurd (ground arith)))
        (λ _ _. Does-bind _ _ commit-Does (λ _ _. Does-pure false tt))
  settle-Does i t e none n taken = Does-bind _ _ (trip-Does i CrashPoint.outbox_result_save) (λ _ _.
      Does-bind _ _
        (save_event-Does (record e { published_at = some t; last_error = none }) (λ h. taken refl))
        (λ _ _. Does-bind _ _ commit-Does (λ _ _. Does-pure true tt)))

  outcome_taken :
      (i : CrashInjector) (e : OutboxEvent)
      → outcome i publish e ≡ none
      → publish e.id e.publish_attempts ≡ none
  unfolding outcome
  outcome_taken i e h = ground arith

  publish_one-Does :
      (i : CrashInjector) (t : ℕ) (e : OutboxEvent)
      → is_none e.published_at ≡ true
      → Does IsHonestSession Anything (publish_one i publish t e)
  unfolding publish_one attempted
  publish_one-Does i t e n =
      let e' : OutboxEvent = record e { publish_attempts = e.publish_attempts + 1 } in
      Does-bind _ _ (save_event-Does e' (λ h. absurd (ground arith))) (λ _ _.
        Does-bind _ _ commit-Does (λ _ _.
          Does-bind _ _ (trip-Does i CrashPoint.outbox_attempt_committed)
            (λ _ _. settle-Does i t e' (outcome i publish e') n (outcome_taken i e'))))

  publish_each-Does :
      (i : CrashInjector) (t : ℕ) (es : List OutboxEvent) (c : ℕ × ℕ)
      → All (λ e. is_none e.published_at ≡ true) es
      → Does IsHonestSession Anything (publish_each i publish t es c)
  unfolding publish_each
  publish_each-Does i t [] c h = Does-pure c tt
  publish_each-Does i t (e ∷ es) c h =
      Does-bind _ _ (publish_one-Does i t e h.0)
        (λ done _. publish_each-Does i t es (tally done c) h.1)

and_left : (a b : Bool) → (a && b) ≡ true → a ≡ true
and_left a b h = ground arith

pending_unpublished :
    (locked : OutboxEvent → Bool) (n : ℕ) (es : List OutboxEvent)
    → All (λ e. is_none e.published_at ≡ true) (pending locked n es)
unfolding pending
pending_unpublished locked n es = All-take _ n _ (
    All-sort_by _ publish_order _ (
      All-map _ _ (λ e h. and_left (is_none e.published_at) (not (locked e)) h) _
        (filter_sound (λ e. is_none e.published_at && not (locked e)) es)))

-- However `publish_outbox` ends, by return, by an injected crash at any point or by a bad limit, every
-- event that is marked published, in the transaction or in the committed database, was taken by the
-- publisher at its last attempt, if that was so before.
pub publish_outbox-IsHonestSession :
    (i : CrashInjector) (publish : Publisher) (locked : OutboxEvent → Bool) (n t : ℕ) (s : Events)
    → IsHonestSession publish s
    → IsHonestSession publish (publish_outbox i publish locked n t s).1
unfolding publish_outbox
publish_outbox-IsHonestSession i publish locked n t s h =
    (Does-bind {P = IsHonestSession publish} {T = Anything} _ _
        (Does-raise_if (ltb n 1) Error.durable)
        (λ _ _.
          Does-bind _ _ pending-Does (λ es u. publish_each-Does publish i t es (0, 0) u))).keeps
      s h
  where
    pending-Does :
        Does
          (IsHonestSession publish)
          (λ es. All (λ e. is_none e.published_at ≡ true) es)
          (gets (λ (x : Events). pending locked n x.now.outbox))
    pending-Does = record {
      keeps = λ x p. p;
      gives = λ x p. pending_unpublished locked n x.now.outbox;
    }

-- whether the publisher takes an event at its next attempt
abbrev pub taken : Publisher → OutboxEvent → Bool
taken publish e = is_none (publish e.id (e.publish_attempts + 1))

publish_one_result :
    (publish : Publisher) (t : ℕ) (e : OutboxEvent) (s : Events)
    → (publish_one no_injector publish t e s).0 ≡ ok (taken publish e)
unfolding publish_one attempted outcome settle save_event trip ◌>>=◌
publish_one_result publish t e s = ground arith

ok_pair : {a b c d : ℕ} → a ≡ c → b ≡ d → ◌≡◌ {A = Result (ℕ × ℕ)} (ok (a, b)) (ok (c, d))
ok_pair p q = cc

within_limit : (n : ℕ) → 1 ≤ n → ltb n 1 ≡ false
within_limit n h = ground arith

publish_each_result :
    (publish : Publisher) (t : ℕ) (es : List OutboxEvent) (p f : ℕ) (s : Events)
    → (publish_each no_injector publish t es (p, f) s).0
      ≡ ok (p + count (taken publish) es, f + count (λ e. not (taken publish e)) es)
unfolding publish_each count publish_one tally
publish_each_result publish t [] p f s = ground arith
publish_each_result publish t (e ∷ es) p f s =
    let next : Events = (publish_one no_injector publish t e s).1 in
    bind_ok
      (λ x.
        x.0
        ≡ ok (p + count (taken publish) (e ∷ es), f + count (λ e. not (taken publish e)) (e ∷ es)))
      (publish_one no_injector publish t e)
      (λ done. publish_each no_injector publish t es (tally done (p, f))) s (taken publish e) next
      (λ i. (publish_one_result publish t e s i, next))
      (elim (Bool-cases (taken publish e)) [
        | inl took ↦
            rw took (
              publish_each_result publish t es (p + 1) f next ∙ ok_pair (omega arith) (omega arith))
        | inr refused ↦
            rw refused (
              publish_each_result publish t es p (f + 1) next ∙ ok_pair (omega arith) (omega arith))
      ])

-- With no crash injected, `publish_outbox` returns, and its two counters are the numbers of selected
-- events that the publisher takes and does not take at their next attempt.
pub publish_outbox_counts :
    (publish : Publisher) (locked : OutboxEvent → Bool) (n t : ℕ) (s : Events)
    → 1 ≤ n
    → let es = pending locked n s.now.outbox in
      (publish_outbox no_injector publish locked n t s).0
      ≡ ok (count (taken publish) es, count (λ e. not (taken publish e)) es)
unfolding publish_outbox ◌>>=◌
publish_outbox_counts publish locked n t s h = rw (within_limit n h) (
    publish_each_result publish t (pending locked n s.now.outbox) 0 0 s
    ∙ ok_pair (omega arith) (omega arith))
