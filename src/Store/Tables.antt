-- ===== src/Store/Tables.antt =====
-- The tables of app/migrations/0001 to 0008, with the columns that the code reads or writes.
use fleet_telemetry_system.Prelude.{ℕ, Bool, true, false, Option, List, String}
use fleet_telemetry_system.Prelude.Dict.{Dict}
use fleet_telemetry_system.Models.{VehicleStatus}

pub record RawEvent (F : Type 0) : Type 0 where
  pub vehicle_id : String
  pub status : VehicleStatus
  pub battery_pct : F
  pub recorded_at : ℕ

-- A row of `vehicle_current_state`, without its key.
pub record Reading (F : Type 0) : Type 0 where
  pub status : VehicleStatus
  pub battery_pct : F
  pub speed_mps : F
  pub pos_x : Option F
  pub pos_y : Option F
  pub recorded_at : ℕ

pub data AnomalyType : Type 0 where
  fault_status error_codes low_battery overspeed : AnomalyType
  stuck teleport battery_rising comms_loss : AnomalyType

abbrev pub is_comms_loss : AnomalyType → Bool
is_comms_loss comms_loss = true
is_comms_loss _ = false

pub record Anomaly : Type 0 where
  pub vehicle_id : String
  pub anomaly_type : AnomalyType
  pub detail : Option String
  pub detected_at : ℕ

pub data MissionStatus : Type 0 where
  active cancelled completed : MissionStatus

abbrev pub is_active : MissionStatus → Bool
is_active active = true
is_active _ = false

pub record Mission : Type 0 where
  pub mission_id : ℕ
  pub vehicle_id : String
  pub status : MissionStatus

pub record MaintenanceRecord : Type 0 where
  pub vehicle_id : String
  pub mission_id : Option ℕ
  pub reason : Option String
  pub resolved_at : Option ℕ

pub record Db (F : Type 0) : Type 0 where
  pub raw_events : List (RawEvent F)
  pub vehicle_current_state : Dict (Reading F)
  pub zone_counts : Dict ℕ
  pub anomalies : List Anomaly
  pub vehicles : Dict VehicleStatus
  pub missions : List Mission
  pub maintenance_records : List MaintenanceRecord
