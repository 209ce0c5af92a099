-- ===== src/Persistence/Detect.antt =====
-- `detect_anomalies` of app/persistence.py: the stateless rules, then the stateful ones.
pub mod Rules
pub mod Exempt
pub mod Few
use Prim.Native.String.{◌++◌ as text_append}
use fleet_telemetry_system.Prelude.{
  String, Bool, true, false, ◌&&◌, not, Option, none, some, List, [], ◌∷◌, ◌++◌, Outcome, ok, ◌>>=◌,
  if◌then◌else◌,
}
use fleet_telemetry_system.Models.{
  moving, charging, fault, same_status, TelemetryEvent, zero_float, low_battery_pct, overspeed_mps,
  stuck_speed_mps, stuck_min_seconds, teleport_mps,
}
use fleet_telemetry_system.Models.Floats.{Floats}
use fleet_telemetry_system.Models.Datetime.{aware, subtract}
use fleet_telemetry_system.Store.{
  AnomalyType, fault_status, error_codes, low_battery, overspeed, stuck, teleport, battery_rising,
  Reading,
}

infixr 68 ◌+++◌
abbrev pub ◌+++◌ : String → String → String
s +++ t = text_append s t

-- An `(anomaly_type, detail)` pair.
abbrev pub Finding : Type 0
Finding = AnomalyType × Option String

-- `",".join(codes)`
unfoldable pub join : List String → String
join [] = ""
join (c ∷ []) = c
join (c ∷ d ∷ cs) = c +++ "," +++ join (d ∷ cs)

-- `if test: anomalies.append(finding)`
abbrev pub append_if : Bool → Finding → List Finding
append_if b f = if b then f ∷ [] else []

abbrev pub is_empty : List String → Bool
is_empty [] = true
is_empty (_ ∷ _) = false

module _ {F : Type 0} (fl : Floats F) where
  open fl use {flt, fle, fsub, fdiv, hypot, total_seconds, show, show_fixed3}

  abbrev pub is_low_battery : TelemetryEvent F → Bool
  is_low_battery e = flt e.battery_pct (low_battery_pct fl) && not (same_status e.status charging)

  abbrev pub is_overspeed : TelemetryEvent F → Bool
  is_overspeed e = flt (overspeed_mps fl) e.speed_mps

  unfoldable pub stateless : TelemetryEvent F → List Finding
  unfolding join
  stateless e =
      append_if (same_status e.status fault) (fault_status, none)
      ++ append_if (not (is_empty e.error_codes)) (error_codes, some (join e.error_codes))
      ++ append_if (is_low_battery e) (low_battery, some ("battery_pct=" +++ show e.battery_pct))
      ++ append_if (is_overspeed e) (overspeed, some ("speed_mps=" +++ show e.speed_mps))

  abbrev pub is_stuck : TelemetryEvent F → Reading F → F → Bool
  is_stuck e p dt =
      same_status p.status moving
      && same_status e.status moving
      && flt p.speed_mps (stuck_speed_mps fl)
      && flt e.speed_mps (stuck_speed_mps fl)
      && fle (stuck_min_seconds fl) dt

  -- The implied speed, where both positions are known and the interval is positive.
  abbrev pub implied_between : F → Option F → Option F → Option F → Option F → Option F
  implied_between dt (some px) (some py) (some ex) (some ey) =
      if flt (zero_float fl) dt then some (fdiv (hypot (fsub ex px) (fsub ey py)) dt) else none
  implied_between dt _ _ _ _ = none

  abbrev pub teleport_finding : Option F → List Finding
  teleport_finding none = []
  teleport_finding (some implied) =
      append_if (flt (teleport_mps fl) implied)
        (teleport, some ("implied_mps=" +++ show_fixed3 implied))

  abbrev pub is_battery_rising : TelemetryEvent F → Reading F → Bool
  is_battery_rising e p = flt p.battery_pct e.battery_pct && not (same_status e.status charging)

  unfoldable pub stateful : TelemetryEvent F → Reading F → F → List Finding
  stateful e p dt =
      append_if (is_stuck e p dt)
        (stuck, some ("speed_mps=" +++ show e.speed_mps +++ ", dt=" +++ show dt +++ "s"))
      ++ teleport_finding (implied_between dt p.pos_x p.pos_y e.pos_x e.pos_y)
      ++ append_if (is_battery_rising e p)
          (battery_rising, some (show p.battery_pct +++ " -> " +++ show e.battery_pct))

  -- The prior reading comes from a TIMESTAMPTZ column, so its time has a zone.
  unfoldable pub detect_anomalies : TelemetryEvent F → Option (Reading F) → Outcome (List Finding)
  unfolding stateless stateful subtract
  detect_anomalies e none = ok (stateless e)
  detect_anomalies e (some p) = subtract e.recorded_at (aware p.recorded_at) >>= λ delta.
      ok (stateless e ++ stateful e p (total_seconds delta))
