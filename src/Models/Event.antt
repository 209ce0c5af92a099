-- ===== src/Models/Event.antt =====
-- `TelemetryEvent`, `VehicleStatusUpdate`, their constraints and the thresholds of app/models.py.
use Prim.Native.String.{count}
use fleet_telemetry_system.Prelude.{ℕ, Bool, ◌&&◌, Option, List, String, leb}
use fleet_telemetry_system.Models.Status.{VehicleStatus}
use fleet_telemetry_system.Models.Floats.{Floats}
use fleet_telemetry_system.Models.Datetime.{Datetime}

pub record TelemetryEvent (F : Type 0) : Type 0 where
  pub vehicle_id : String
  pub status : VehicleStatus
  pub battery_pct : F
  pub recorded_at : Datetime
  pub zone_entered : Option String
  pub speed_mps : F
  pub error_codes : List String
  pub pos_x : Option F
  pub pos_y : Option F

pub record VehicleStatusUpdate : Type 0 where
  pub status : VehicleStatus
  pub reason : Option String

module _ {F : Type 0} (fl : Floats F) where
  open fl use {decimal, fle}

  abbrev pub zero_float : F
  zero_float = decimal 0 0

  abbrev pub low_battery_pct : F
  low_battery_pct = decimal 15 0

  abbrev pub overspeed_mps : F
  overspeed_mps = decimal 5 0

  abbrev pub stuck_speed_mps : F
  stuck_speed_mps = decimal 1 1

  abbrev pub stuck_min_seconds : F
  stuck_min_seconds = decimal 10 0

  abbrev pub teleport_mps : F
  teleport_mps = decimal 15 0

  -- The `Field` constraints of `TelemetryEvent`: 1 to 64 characters, 0 to 100, not below 0.
  unfoldable pub meets_constraints : TelemetryEvent F → Bool
  meets_constraints e =
      leb 1 (count e.vehicle_id)
      && leb (count e.vehicle_id) 64
      && fle zero_float e.battery_pct
      && fle e.battery_pct (decimal 100 0)
      && fle zero_float e.speed_mps

-- `COMMS_LOSS_TIMEOUT_SECONDS`, in microseconds.
abbrev pub comms_loss_timeout : ℕ
comms_loss_timeout = 5_000_000
