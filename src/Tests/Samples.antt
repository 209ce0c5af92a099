-- ===== src/Tests/Samples.antt =====
-- Sample data: fixed-point floats in millionths, a small fleet, and events.
use fleet_telemetry_system.Prelude.{
  ℕ, zero, suc, ◌+◌, ◌*◌, ◌/◌, ◌^◌, not, Option, none, some, [], ◌∷◌,
}
use fleet_telemetry_system.Prelude.Int.{ℤ, pos, negsuc, add_ℤ, le_ℤ}
use fleet_telemetry_system.Models.{
  idle, moving, charging, fault, TelemetryEvent, VehicleStatusUpdate,
}
use fleet_telemetry_system.Models.Floats.{Floats}
use fleet_telemetry_system.Models.Datetime.{aware, naive}
use fleet_telemetry_system.Store.{Db, Reading, Session, active}

abbrev pub opposite : ℤ → ℤ
opposite (pos zero) = pos 0
opposite (pos (suc n)) = negsuc n
opposite (negsuc n) = pos (suc n)

abbrev pub quotient : ℤ → ℤ → ℤ
quotient (pos a) (pos b) = pos (a * 1000000 / b)
quotient a b = pos 0

abbrev pub size : ℤ → ℕ
size (pos n) = n
size (negsuc n) = suc n

abbrev pub fixed : Floats ℤ
fixed = record {
  decimal = λ m k. pos (m * 1000000 / 10 ^ k);
  flt = λ a b. not (le_ℤ b a);
  fle = le_ℤ;
  fsub = λ a b. add_ℤ a (opposite b);
  fdiv = quotient;
  hypot = λ a b. pos (size a + size b);
  total_seconds = λ t. t;
  show = λ x. "float";
  show_fixed3 = λ x. "float";
}

abbrev pub reading : Reading ℤ
reading = record {
  status = moving;
  battery_pct = pos 50000000;
  speed_mps = pos 1000000;
  pos_x = some (pos 0);
  pos_y = some (pos 0);
  recorded_at = 20000000;
}

abbrev pub garage_tables : Db ℤ
garage_tables = record {
  raw_events = [];
  vehicle_current_state = ("v-1", reading) ∷ [];
  zone_counts = ("aisle_a", 7) ∷ [];
  anomalies = [];
  vehicles = ("v-1", moving) ∷ ("v-2", idle) ∷ [];
  missions = record { mission_id = 11; vehicle_id = "v-1"; status = active } ∷ [];
  maintenance_records = [];
}

abbrev pub garage : Session ℤ
garage = record { db = garage_tables; outages = []; local = λ t. t }

-- Ten seconds after the reading, with a jump and a low battery, into a zone.
abbrev pub event : TelemetryEvent ℤ
event = record {
  vehicle_id = "v-1";
  status = moving;
  battery_pct = pos 10000000;
  recorded_at = aware 30000000;
  zone_entered = some "aisle_a";
  speed_mps = pos 1000000;
  error_codes = [];
  pos_x = some (pos 400000000);
  pos_y = some (pos 0);
}

abbrev pub late_event : TelemetryEvent ℤ
late_event = record event { recorded_at = aware 19000000 }

abbrev pub unzoned_event : TelemetryEvent ℤ
unzoned_event = record event { recorded_at = naive 30000000 }

abbrev pub charging_event : TelemetryEvent ℤ
charging_event = record event { status = charging }

abbrev pub broken : VehicleStatusUpdate
broken = record { status = fault; reason = some "motor" }

-- Bodies are numbers: 0 is the event, 1 the update, and others are refused.
abbrev pub parse_event : ℕ → Option (TelemetryEvent ℤ)
parse_event zero = some event
parse_event _ = none

abbrev pub parse_update : ℕ → Option VehicleStatusUpdate
parse_update (suc zero) = some broken
parse_update _ = none
