-- ===== src/Persistence/Reads/Listing.antt =====
-- `current_vehicle_states`: one row for each reading, in the order of the vehicles.
use mathlib.Core.Path.{subst}
use fleet_telemetry_system.Prelude.{String, Bool, List, [], map, ◌≡◌, refl, sym, ok, count}
use fleet_telemetry_system.Prelude.Sorting.{
  Pairwise, IsTotalOrder, sort_with, sort_with-Pairwise, count-sort_with,
}
use fleet_telemetry_system.Store.{Db, Session, execute}
use fleet_telemetry_system.Persistence.Reads.{
  VehicleState, state_of, by_vehicle, select_states, current_vehicle_states,
}

-- The rows of all readings, each as often as the table has it, ordered by their vehicles.
pub record IsListing {F : Type 0} (before : String → String → Bool) (db : Db F)
    (rows : List (VehicleState F)) : Type 0 where
  pub complete :
      (p : VehicleState F → Bool) → count p rows ≡ count p (map state_of db.vehicle_current_state)
  pub ordered : Pairwise (by_vehicle before) rows

module _ {F : Type 0} (before : String → String → Bool) where
  by_vehicle-IsTotalOrder : IsTotalOrder before → IsTotalOrder (by_vehicle {F = F} before)
  by_vehicle-IsTotalOrder o = record {
    total = λ a b. o.total a.vehicle_id b.vehicle_id;
    trans = λ a b c. o.trans a.vehicle_id b.vehicle_id c.vehicle_id;
  }

  pub current_vehicle_states-IsListing :
      (s : Session F)
      → IsTotalOrder before
      → s.outages ≡ []
      → (rows : List (VehicleState F)) × (current_vehicle_states before s ≡ (ok rows, s))
        × IsListing before s.db rows
  unfolding current_vehicle_states select_states execute
  current_vehicle_states-IsListing s o h =
      let table = map state_of s.db.vehicle_current_state in
      let rows = sort_with (by_vehicle before) table in
      (
        rows,
        subst
            (λ o.
              current_vehicle_states before (record s { outages = o })
              ≡ (ok rows, record s { outages = o }))
            (sym h) refl,
        record {
          complete = λ p. count-sort_with (by_vehicle before) p table;
          ordered = sort_with-Pairwise (by_vehicle before) table (by_vehicle-IsTotalOrder o);
        },
      )
