-- ===== src/Workers/Capacity.antt =====
-- services/workers/capacity.py: reservations of analysis slots, limited per tenant and in all.
pub mod Limits
pub mod Counts
use scope_guard.Base.{
  ℕ, ◌+◌, String, Bool, true, false, not, ◌&&◌, ◌||◌, Option, none, some, List, [], ◌∷◌, ◌++◌, ltb,
  leb, ◌==◌, str_eq, is_none, is_some, if◌then◌else◌, filter, find?, count, length, get, put, HasId,
  Error, Result, ok, err, Exec, pure, raise, raise_if, or_raise, gets, ◌>>=◌, ◌>>◌,
}
use scope_guard.Workers.Tables.{seconds}

pub record AnalysisCapacityReservation : Type 0 where
  pub id : ℕ
  pub tenant_id : ℕ
  pub reservation_key : String
  pub worker_id : ℕ
  pub lease_until : ℕ
  pub released_at : Option ℕ

instance abbrev pub reservation_id : HasId AnalysisCapacityReservation
reservation_id = record { id_of = λ r. r.id }

-- The reserved fraction is a field of the policy that no code reads.
pub record CapacityPolicy : Type 0 where
  pub per_tenant : ℕ
  pub global_limit : ℕ
  pub lease_seconds : ℕ

abbrev pub default_capacity_policy : CapacityPolicy
default_capacity_policy = record { per_tenant = 1; global_limit = 4; lease_seconds = 60 }

-- The table of reservations and the supply of identities.
pub record Slots : Type 0 where
  pub rows : List AnalysisCapacityReservation
  pub next_id : ℕ

-- `released_at IS NULL AND lease_until > current`
unfoldable pub is_active : ℕ → AnalysisCapacityReservation → Bool
is_active now r = is_none r.released_at && ltb now r.lease_until

-- the rows that the query reads: those that another transaction holds locked are skipped
unfoldable pub visible :
    (AnalysisCapacityReservation → Bool)
    → ℕ
    → List AnalysisCapacityReservation
    → List AnalysisCapacityReservation
visible locked now rows = filter (λ r. is_active now r && not (locked r)) rows

unfoldable pub has_key : ℕ → String → AnalysisCapacityReservation → Bool
has_key tenant key r = r.tenant_id == tenant && str_eq r.reservation_key key

unfoldable pub of_tenant : ℕ → AnalysisCapacityReservation → Bool
of_tenant tenant r = r.tenant_id == tenant

unfoldable pub save_slot : AnalysisCapacityReservation → Exec Slots AnalysisCapacityReservation
save_slot r s = (ok r, record s { rows = put r s.rows })

module _ (tenant : ℕ) (key : String) (worker : ℕ) (policy : CapacityPolicy) (now : ℕ) where
  unfoldable pub new_slot : ℕ → AnalysisCapacityReservation
  new_slot id = record {
    id = id;
    tenant_id = tenant;
    reservation_key = key;
    worker_id = worker;
    lease_until = now + seconds policy.lease_seconds;
    released_at = none;
  }

  -- the flush of a new row: the pair of tenant and key is unique in the whole table
  unfoldable pub insert_slot : Exec Slots AnalysisCapacityReservation
  insert_slot s =
      if is_some (find? (has_key tenant key) s.rows)
      then (err Error.integrity, s)
      else (let r = new_slot s.next_id in
          (ok r, record { rows = s.rows ++ r ∷ []; next_id = s.next_id + 1 }))

  unfoldable pub extend_or_insert :
      List AnalysisCapacityReservation
      → Option AnalysisCapacityReservation
      → Exec Slots AnalysisCapacityReservation
  extend_or_insert active (some r) s =
      save_slot (record r { lease_until = now + seconds policy.lease_seconds; worker_id = worker })
        s
  extend_or_insert active none s =
      if leb policy.per_tenant (count (of_tenant tenant) active)
        || leb policy.global_limit (length active)
      then (err Error.capacity_exceeded, s)
      else insert_slot s

  unfoldable pub reserve_analysis_slot :
      (AnalysisCapacityReservation → Bool) → Exec Slots AnalysisCapacityReservation
  reserve_analysis_slot locked = do
    raise_if (not (ltb 0 policy.per_tenant && leb policy.per_tenant policy.global_limit))
        Error.value_error
    active ← gets (λ s. visible locked now s.rows)
    extend_or_insert active (find? (has_key tenant key) active)

unfoldable pub release_analysis_slot : ℕ → ℕ → ℕ → Exec Slots (Unit {0})
release_analysis_slot i worker now = do
  r ← λ s. or_raise (get i s.rows) Error.capacity_exceeded s
  raise_if (is_none r.released_at && not (r.worker_id == worker)) Error.capacity_exceeded
  saved ← save_slot (record r { released_at = some now })
  pure tt

-- `released_at IS NULL AND lease_until <= current`
unfoldable pub is_expired : ℕ → AnalysisCapacityReservation → Bool
is_expired now r = is_none r.released_at && leb r.lease_until now

unfoldable pub release_expired :
    (AnalysisCapacityReservation → Bool)
    → ℕ
    → List AnalysisCapacityReservation
    → List AnalysisCapacityReservation
release_expired locked now [] = []
release_expired locked now (r ∷ rest) =
    let rest' = release_expired locked now rest in
    if is_expired now r && not (locked r)
    then record r { released_at = some now } ∷ rest'
    else r ∷ rest'

unfoldable pub recover_capacity_slots : (AnalysisCapacityReservation → Bool) → ℕ → Exec Slots ℕ
recover_capacity_slots locked now s = (
  ok (count (λ r. is_expired now r && not (locked r)) s.rows),
  record s { rows = release_expired locked now s.rows },
)

unfoldable pub active_capacity : ℕ → Exec Slots ℕ
active_capacity now = gets (λ s. count (is_active now) s.rows)
