-- ===== src/Workers/Capacity/Limits.antt =====
-- The limits hold as long as every reservation sees all the others.
use scope_guard.Base.{
  ℕ, ◌+◌, ◌≡◌, ◌≤◌, refl, subst, inl, inr, String, Bool, true, false, not, ◌&&◌, ◌||◌, Option, none,
  some, List, [], ◌∷◌, ◌++◌, arith, ltb, leb, ◌==◌, ==_iff, All-map, filter_sound, find?-All,
  is_some, Bool-cases, find?, count, length, get, put, Error, ◌>>=◌, All,
}
use scope_guard.Base.Unique.{Unique}
use scope_guard.Base.Does.{Does, Anything, Does-pure, Does-raise_if, Does-lookup, Does-bind}
use scope_guard.Workers.Tables.{seconds}
use scope_guard.Workers.Capacity.{
  AnalysisCapacityReservation, reservation_id, CapacityPolicy, Slots, is_active, visible, has_key,
  of_tenant, save_slot, new_slot, insert_slot, extend_or_insert, reserve_analysis_slot,
  release_analysis_slot, release_expired, recover_capacity_slots,
}
use scope_guard.Workers.Capacity.Counts.{
  IsWithin, adds_nothing, all_seen, count-put-le, count-snoc, count-visible, count-visible_of,
  only_row,
}

-- no row is locked by another transaction

module _ (tenant : ℕ) (key : String) (worker : ℕ) (policy : CapacityPolicy) (now : ℕ) where
  -- extending a reservation that is active counts no more than before
  extend-IsWithin :
      (s : Slots) (r : AnalysisCapacityReservation)
      → Unique s.rows
      → IsWithin policy now s.rows
      → find? (has_key tenant key) (visible all_seen now s.rows) ≡ some r
      → IsWithin policy now (
          put
            (record r { lease_until = now + seconds policy.lease_seconds; worker_id = worker })
            s.rows)
  unfolding visible is_active
  extend-IsWithin s r u w e =
      let r' = record r { lease_until = now + seconds policy.lease_seconds; worker_id = worker } in
      let only =
        only_row (λ x. is_active now x && not (all_seen x)) (has_key tenant key) s.rows r u e in
      let live : (is_active now r && true) ≡ true =
        (find?-All (λ x. (is_active now x && not (all_seen x)) ≡ true) (has_key tenant key) _ r
          (filter_sound (λ x. is_active now x && not (all_seen x)) s.rows) e).0 in
      record {
        in_all = omega (
          arith,
          w.in_all,
          count-put-le (is_active now) r' s.rows
              (All-map _ _ (λ x same i _. rw (same i) (ground (arith, live))) s.rows only),
        );
        of_each = λ t. omega (
          arith,
          w.of_each t,
          count-put-le (λ x. is_active now x && x.tenant_id == t) r' s.rows
              (All-map _ _ (λ x same i h. rw (same i) (ground (arith, live, h))) s.rows only),
        );
      }

  insert-IsWithin :
      (s : Slots)
      → IsWithin policy now s.rows
      → (leb policy.per_tenant (count (of_tenant tenant) (visible all_seen now s.rows))
          || leb policy.global_limit (length (visible all_seen now s.rows)))
        ≡ false
      → IsWithin policy now (s.rows ++ new_slot tenant key worker policy now s.next_id ∷ [])
  unfolding new_slot
  insert-IsWithin s w b =
      let r = new_slot tenant key worker policy now s.next_id in
      let total = count-visible now s.rows in
      let own = count-visible_of now tenant s.rows in
      record {
        in_all = ground (arith, b, total, count-snoc (is_active now) s.rows r);
        of_each = λ t. elim (Bool-cases (tenant == t)) [
          | inl same ↦
              subst
                (λ u.
                  count (λ x. is_active now x && x.tenant_id == u) (s.rows ++ r ∷ [])
                  ≤ policy.per_tenant)
                ((==_iff tenant t).0 same)
                (ground (
                  arith,
                  b,
                  own,
                  count-snoc (λ x. is_active now x && x.tenant_id == tenant) s.rows r,
                ))
          | inr differs ↦
              adds_nothing (is_active now r) (tenant == t) differs (w.of_each t)
                (count-snoc (λ x. is_active now x && x.tenant_id == t) s.rows r)
        ];
      }

  extend_or_insert-IsWithin :
      (s : Slots) (o : Option AnalysisCapacityReservation)
      → Unique s.rows
      → IsWithin policy now s.rows
      → find? (has_key tenant key) (visible all_seen now s.rows) ≡ o
      → IsWithin policy now
          (extend_or_insert tenant key worker policy now (visible all_seen now s.rows) o s).1.rows
  unfolding extend_or_insert save_slot insert_slot
  extend_or_insert-IsWithin s (some r) u w e = extend-IsWithin s r u w e
  extend_or_insert-IsWithin s none u w e =
      elim (Bool-cases (
        leb policy.per_tenant (count (of_tenant tenant) (visible all_seen now s.rows))
        || leb policy.global_limit (length (visible all_seen now s.rows)))) [
          | inl full ↦ rw full w
          | inr free ↦ rw free (elim (Bool-cases (is_some (find? (has_key tenant key) s.rows))) [
            | inl taken ↦ rw taken w
            | inr new ↦ rw new (insert-IsWithin s w free)
          ])
        ]

  reserve-IsWithin :
      (s : Slots)
      → Unique s.rows
      → IsWithin policy now s.rows
      → IsWithin policy now (reserve_analysis_slot tenant key worker policy now all_seen s).1.rows
  unfolding reserve_analysis_slot ◌>>=◌
  reserve-IsWithin s u w =
      elim (Bool-cases
        (not (ltb 0 policy.per_tenant && leb policy.per_tenant policy.global_limit))) [
          | inl bad ↦ rw bad w
          | inr good ↦ rw good (
              extend_or_insert-IsWithin s (find? (has_key tenant key) (visible all_seen now s.rows))
                u w refl)
        ]

count_mono :
    {A : Type 0} (f g : A → Bool)
    → ((x : A) → f x ≡ true → g x ≡ true)
    → (xs : List A) → count f xs ≤ count g xs
unfolding count
count_mono f g h [] = omega arith
count_mono f g h (x ∷ xs) = ground (arith, h x, count_mono f g h xs)

-- a reservation that is active later is active now
active_before :
    (now later : ℕ) (r : AnalysisCapacityReservation)
    → now ≤ later
    → is_active later r ≡ true
    → is_active now r ≡ true
unfolding is_active
active_before now later r h e = ground (arith, h, e)

active_of_before :
    (now later t : ℕ) (r : AnalysisCapacityReservation)
    → now ≤ later
    → (is_active later r && r.tenant_id == t) ≡ true
    → (is_active now r && r.tenant_id == t) ≡ true
unfolding is_active
active_of_before now later t r h e = ground (arith, h, e)

later-IsWithin :
    (policy : CapacityPolicy) (now later : ℕ) (rows : List AnalysisCapacityReservation)
    → now ≤ later
    → IsWithin policy now rows
    → IsWithin policy later rows
later-IsWithin policy now later rows h w = record {
  in_all = omega (
    arith,
    w.in_all,
    count_mono (is_active later) (is_active now) (λ x. active_before now later x h) rows,
  );
  of_each =
      λ t. omega (arith, w.of_each t, count_mono _ _ (λ x. active_of_before now later t x h) rows);
}

-- a released row counts nowhere
put_released :
    (f : AnalysisCapacityReservation → Bool) (r : AnalysisCapacityReservation)
    (rows : List AnalysisCapacityReservation)
    → f r ≡ false
    → count f (put r rows) ≤ count f rows
put_released f r rows e = count-put-le f r rows (all_rows rows)
  where
    all_rows :
        (xs : List AnalysisCapacityReservation)
        → All (λ x. x.id ≡ r.id → f r ≡ true → f x ≡ true) xs
    all_rows [] = tt
    all_rows (x ∷ xs) = ((λ _ t. absurd cc), all_rows xs)

save_released-Does :
    (policy : CapacityPolicy) (now at : ℕ) (r : AnalysisCapacityReservation)
    → Does
        (λ s. IsWithin policy now s.rows)
        Anything
        (save_slot (record r { released_at = some at }))
unfolding save_slot is_active
save_released-Does policy now at r = record {
  keeps = λ s w. record {
    in_all = omega (
      arith,
      w.in_all,
      put_released (is_active now) (record r { released_at = some at }) s.rows refl,
    );
    of_each = λ t. omega (
      arith,
      w.of_each t,
      put_released (λ x. is_active now x && x.tenant_id == t) (record r { released_at = some at })
          s.rows refl,
    );
  };
  gives = λ s w. tt;
}

release-IsWithin :
    (policy : CapacityPolicy) (now i worker at : ℕ) (s : Slots)
    → IsWithin policy now s.rows
    → IsWithin policy now (release_analysis_slot i worker at s).1.rows
unfolding release_analysis_slot
release-IsWithin policy now i worker at s w =
    (Does-bind {P = λ s. IsWithin policy now s.rows} {T = Anything} _ _
        (Does-lookup {R = Anything} (λ x. get i x.rows) Error.capacity_exceeded (λ _ _ _ _. tt))
        (λ r _. Does-bind {T = Anything} _ _ (Does-raise_if _ Error.capacity_exceeded) (λ _ _.
          Does-bind {T = Anything} _ _ (save_released-Does policy now at r)
            (λ _ _. Does-pure tt tt)))).keeps
      s w

release_expired_le :
    (f : AnalysisCapacityReservation → Bool)
    → ((r : AnalysisCapacityReservation) (t : ℕ) → f (record r { released_at = some t }) ≡ false)
    → (locked : AnalysisCapacityReservation → Bool) (at : ℕ)
      (rows : List AnalysisCapacityReservation)
    → count f (release_expired locked at rows) ≤ count f rows
unfolding release_expired count
release_expired_le f h locked at [] = omega arith
release_expired_le f h locked at (r ∷ rows) =
    ground (arith, h r at, release_expired_le f h locked at rows)

recover-IsWithin :
    (policy : CapacityPolicy) (now at : ℕ) (locked : AnalysisCapacityReservation → Bool) (s : Slots)
    → IsWithin policy now s.rows
    → IsWithin policy now (recover_capacity_slots locked at s).1.rows
unfolding recover_capacity_slots is_active
recover-IsWithin policy now at locked s w = record {
  in_all =
      omega (arith, w.in_all, release_expired_le (is_active now) (λ _ _. refl) locked at s.rows);
  of_each = λ t. omega (
    arith,
    w.of_each t,
    release_expired_le (λ x. is_active now x && x.tenant_id == t) (λ _ _. refl) locked at s.rows,
  );
}

-- While at most the allowed reservations are active, in all and of each tenant, that stays so: through a
-- reservation that finds no row locked by another transaction, through releases and recoveries
-- by any worker and at any time, on every branch, and as time passes.
pub limits_kept :
    (policy : CapacityPolicy) (now : ℕ) (s : Slots)
    → Unique s.rows
    → IsWithin policy now s.rows
    → ((tenant worker : ℕ) (key : String)
        → IsWithin policy now
            (reserve_analysis_slot tenant key worker policy now all_seen s).1.rows)
      × ((i worker at : ℕ) → IsWithin policy now (release_analysis_slot i worker at s).1.rows)
      × ((locked : AnalysisCapacityReservation → Bool) (at : ℕ)
          → IsWithin policy now (recover_capacity_slots locked at s).1.rows)
      × ((later : ℕ) → now ≤ later → IsWithin policy later s.rows)
limits_kept policy now s u w = (
  (λ tenant worker key. reserve-IsWithin tenant key worker policy now s u w),
  (λ i worker at. release-IsWithin policy now i worker at s w),
  (λ locked at. recover-IsWithin policy now at locked s w),
  (λ later h. later-IsWithin policy now later s.rows h w),
)
