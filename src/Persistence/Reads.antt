-- ===== src/Persistence/Reads.antt =====
-- The reads of app/persistence.py that app/frontend_api.py serves. How the database orders two texts is
-- a parameter, `before`.
pub mod Totals
pub mod Latest
pub mod Listing
use fleet_telemetry_system.Prelude.{
  ℕ, ◌+◌, String, Bool, ◌&&◌, not, List, [], ◌∷◌, map, ◌==◌, ok, count, select, leb, ltb,
  if◌then◌else◌,
}
use fleet_telemetry_system.Prelude.Dict.{Dict}
use fleet_telemetry_system.Prelude.Sorting.{sort_by, sort_with}
use fleet_telemetry_system.Models.{VehicleStatus, statuses, same_status}
use fleet_telemetry_system.Store.{Reading, Anomaly, Action, Statement, execute, pure, ◌>>=◌}

abbrev pub StatusCounts : Type 0
StatusCounts = List (VehicleStatus × ℕ)

-- `counts[status] = n`, of a status that is present.
abbrev pub set_count : VehicleStatus → ℕ → StatusCounts → StatusCounts
set_count status n counts = map (λ c. if same_status c.0 status then (c.0, n) else c) counts

-- The `for` loop over the groups.
abbrev pub set_counts : StatusCounts → StatusCounts → StatusCounts
set_counts [] counts = counts
set_counts ((status, n) ∷ groups) counts = set_counts groups (set_count status n counts)

-- `detected_at` between the bounds, both inclusive.
abbrev pub in_range : String → ℕ → ℕ → Anomaly → Bool
in_range vehicle_id since until a =
    a.vehicle_id == vehicle_id && leb since a.detected_at && leb a.detected_at until

module _ {F : Type 0} where
  abbrev pub has_status : VehicleStatus → String × Reading F → Bool
  has_status status (vehicle_id, r) = same_status r.status status

  -- SELECT status, COUNT(*) … GROUP BY status: one row for each status that occurs.
  unfoldable pub select_aggregate : Statement F StatusCounts
  select_aggregate db = ok (
    select (λ c. ltb 0 c.1)
        (map (λ status. (status, count (has_status status) db.vehicle_current_state)) statuses),
    db,
  )

  unfoldable pub aggregate_fleet_state : Action F StatusCounts
  unfolding select_aggregate
  aggregate_fleet_state = do
    groups ← execute select_aggregate
    pure (set_counts groups (map (λ status. (status, 0)) statuses))

  unfoldable pub select_zone_counts : Statement F (Dict ℕ)
  select_zone_counts db = ok (db.zone_counts, db)

  unfoldable pub zone_entry_counts : Action F (Dict ℕ)
  unfolding select_zone_counts
  zone_entry_counts = execute select_zone_counts

  unfoldable pub select_recent : String → ℕ → ℕ → Statement F (List Anomaly)
  select_recent vehicle_id since until db =
      ok (sort_by (λ a. a.detected_at) (select (in_range vehicle_id since until) db.anomalies), db)

  unfoldable pub recent_anomalies : String → ℕ → ℕ → Action F (List Anomaly)
  unfolding select_recent
  recent_anomalies vehicle_id since until = execute (select_recent vehicle_id since until)

pub record VehicleState (F : Type 0) : Type 0 where
  pub vehicle_id : String
  pub status : VehicleStatus
  pub battery_pct : F

abbrev pub state_of : {F : Type 0} → String × Reading F → VehicleState F
state_of (vehicle_id, r) = record {
  vehicle_id = vehicle_id;
  status = r.status;
  battery_pct = r.battery_pct;
}

abbrev pub same_vehicle : String → Anomaly → Bool
same_vehicle vehicle_id a = a.vehicle_id == vehicle_id

-- DISTINCT ON (vehicle_id): the first of the rows of each vehicle.
abbrev pub distinct_on : List Anomaly → List Anomaly
distinct_on [] = []
distinct_on (a ∷ rows) = a ∷ select (λ r. not (same_vehicle a.vehicle_id r)) (distinct_on rows)

-- ORDER BY vehicle_id, detected_at DESC
abbrev pub latest_first : (String → String → Bool) → Anomaly → Anomaly → Bool
latest_first before a b =
    if a.vehicle_id == b.vehicle_id
    then leb b.detected_at a.detected_at
    else before a.vehicle_id b.vehicle_id

module _ {F : Type 0} (before : String → String → Bool) where
  -- ORDER BY vehicle_id
  abbrev pub by_vehicle : VehicleState F → VehicleState F → Bool
  by_vehicle a b = before a.vehicle_id b.vehicle_id

  unfoldable pub select_states : Statement F (List (VehicleState F))
  select_states db = ok (sort_with by_vehicle (map state_of db.vehicle_current_state), db)

  unfoldable pub current_vehicle_states : Action F (List (VehicleState F))
  unfolding select_states
  current_vehicle_states = execute select_states

  unfoldable pub select_latest : Statement F (List Anomaly)
  select_latest db = ok (distinct_on (sort_with (latest_first before) db.anomalies), db)

  unfoldable pub latest_anomaly_per_vehicle : Action F (List Anomaly)
  unfolding select_latest
  latest_anomaly_per_vehicle = execute select_latest
