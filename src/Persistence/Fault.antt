-- ===== src/Persistence/Fault.antt =====
-- `transition_to_fault` and `set_vehicle_status` of app/persistence.py.
pub mod Transition
pub mod SetStatus
pub mod Repeated
pub mod Concurrent
use fleet_telemetry_system.Prelude.{
  ℕ, String, Bool, true, false, ◌&&◌, Option, none, some, [], ◌∷◌, ◌++◌, map, ◌==◌, ok, raised,
  lookup_error, select, any, head?, update_where, ltb, if◌then◌else◌,
}
use fleet_telemetry_system.Prelude.Dict.{lookup, upsert}
use fleet_telemetry_system.Models.{VehicleStatus, fault, same_status}
use fleet_telemetry_system.Store.{
  Db, Mission, cancelled, is_active, MaintenanceRecord, Action, Statement, pure, lift, execute,
  transaction, ◌>>=◌, ◌>>◌,
}

abbrev pub is_active_of : String → Mission → Bool
is_active_of vehicle_id m = m.vehicle_id == vehicle_id && is_active m.status

abbrev pub is_none : Option ℕ → Bool
is_none none = true
is_none (some _) = false

abbrev pub is_open_of : String → MaintenanceRecord → Bool
is_open_of vehicle_id r = r.vehicle_id == vehicle_id && is_none r.resolved_at

abbrev pub cancel : Mission → Mission
cancel m = record m { status = cancelled }

module _ {F : Type 0} where
  unfoldable pub lock_vehicle : String → Statement F (Option VehicleStatus)
  lock_vehicle vehicle_id db = ok (lookup vehicle_id db.vehicles, db)

  -- RETURNING mission_id, of which the code fetches one row.
  unfoldable pub cancel_active_mission : String → Statement F (Option ℕ)
  cancel_active_mission vehicle_id db = ok (
    head? (map (λ m. m.mission_id) (select (is_active_of vehicle_id) db.missions)),
    record db { missions = update_where (is_active_of vehicle_id) cancel db.missions },
  )

  -- ON CONFLICT DO NOTHING against the index of open records.
  unfoldable pub insert_maintenance : String → Option ℕ → Option String → Statement F Unit
  insert_maintenance vehicle_id mission_id reason db = ok (
    tt,
    (if any (is_open_of vehicle_id) db.maintenance_records then db else record db {
      maintenance_records =
          db.maintenance_records
          ++ record {
            vehicle_id = vehicle_id;
            mission_id = mission_id;
            reason = reason;
            resolved_at = none;
          }
            ∷ [];
    }),
  )

  abbrev set_present : String → VehicleStatus → Option VehicleStatus → Db F → ℕ × Db F
  set_present vehicle_id status none db = (0, db)
  set_present vehicle_id status (some _) db =
      (1, record db { vehicles = upsert vehicle_id status db.vehicles })

  -- UPDATE vehicles SET status WHERE vehicle_id, and its row count.
  unfoldable pub update_status : String → VehicleStatus → Statement F ℕ
  update_status vehicle_id status db =
      ok (set_present vehicle_id status (lookup vehicle_id db.vehicles) db)

  unfoldable pub to_fault_from : String → Option String → Option VehicleStatus → Action F Bool
  to_fault_from vehicle_id reason none = lift (raised lookup_error)
  to_fault_from vehicle_id reason (some status) =
      if same_status status fault then pure false else do
        mission_id ← execute (cancel_active_mission vehicle_id)
        execute (insert_maintenance vehicle_id mission_id reason)
        execute (update_status vehicle_id fault)
        pure true

  unfoldable pub transition_to_fault : String → Option String → Action F Bool
  unfolding to_fault_from
  transition_to_fault vehicle_id reason =
      transaction (do row ← execute (lock_vehicle vehicle_id); to_fault_from vehicle_id reason row)

  unfoldable pub set_vehicle_status : String → VehicleStatus → Action F Bool
  set_vehicle_status vehicle_id status =
      transaction (do rowcount ← execute (update_status vehicle_id status); pure (ltb 0 rowcount))
