-- ===== src/Persistence/Detect/Exempt.antt =====
-- Events for which rules stay silent: late ones, those at a threshold, and those of charging vehicles.
use fleet_telemetry_system.Prelude.{ℕ, ◌≤◌, false, ◌≡◌, refl, Option, none, some, List, arith, ok}
use fleet_telemetry_system.Prelude.Int.{sub_ℕ}
use fleet_telemetry_system.Models.{charging, TelemetryEvent, zero_float, stuck_min_seconds}
use fleet_telemetry_system.Models.Floats.{Floats}
use fleet_telemetry_system.Models.Datetime.{aware}
use fleet_telemetry_system.Store.{low_battery, stuck, teleport, battery_rising, Reading}
use fleet_telemetry_system.Persistence.Detect.{Finding, detect_anomalies}
use fleet_telemetry_system.Persistence.Detect.Rules.{found, is_jump_between, detect_anomalies-fires}

-- What Python documents of `timedelta.total_seconds()`.
pub record FloatLaws {F : Type 0} (fl : Floats F) : Type 0 where
  pub seconds_not_positive :
      (a b : ℕ) → a ≤ b → fl.flt (zero_float fl) (fl.total_seconds (sub_ℕ a b)) ≡ false
  pub seconds_below_dwell :
      (a b : ℕ) → a ≤ b → fl.fle (stuck_min_seconds fl) (fl.total_seconds (sub_ℕ a b)) ≡ false

module _ {F : Type 0} (fl : Floats F) where
  no_jump :
      (dt : F) (px py ex ey : Option F)
      → fl.flt (zero_float fl) dt ≡ false
      → is_jump_between fl dt px py ex ey ≡ false
  no_jump dt none py ex ey h = refl
  no_jump dt (some px) none ex ey h = refl
  no_jump dt (some px) (some py) none ey h = refl
  no_jump dt (some px) (some py) (some ex) none h = refl
  no_jump dt (some px) (some py) (some ex) (some ey) h = rw h

  -- An event that is not newer than its vehicle's reading raises neither `stuck` nor `teleport`.
  pub detect_anomalies-late :
      FloatLaws fl
      → (e : TelemetryEvent F) (p : Reading F) (t : ℕ) (fs : List Finding) → e.recorded_at ≡ aware t
      → t ≤ p.recorded_at
      → detect_anomalies fl e (some p) ≡ ok fs
      → (found stuck fs ≡ 0) × (found teleport fs ≡ 0)
  detect_anomalies-late laws e p t fs h late got =
      let (fs', got', each) = detect_anomalies-fires fl e p t h in
      let dt = fl.total_seconds (sub_ℕ t p.recorded_at) in
      (
        ground (arith, each stuck, laws.seconds_below_dwell t p.recorded_at late),
        ground (
          arith,
          each teleport,
          no_jump dt p.pos_x p.pos_y e.pos_x e.pos_y
              (laws.seconds_not_positive t p.recorded_at late),
        ),
      )

  -- A charging vehicle raises neither `low_battery`, nor `battery_rising`, nor `stuck`.
  pub detect_anomalies-charging :
      (e : TelemetryEvent F) (p : Reading F) (t : ℕ) (fs : List Finding)
      → e.recorded_at ≡ aware t
      → e.status ≡ charging
      → detect_anomalies fl e (some p) ≡ ok fs
      → (found low_battery fs ≡ 0) × (found battery_rising fs ≡ 0) × (found stuck fs ≡ 0)
  detect_anomalies-charging e p t fs h c got =
      let (fs', got', each) = detect_anomalies-fires fl e p t h in
      (
        ground (arith, each low_battery),
        ground (arith, each battery_rising),
        ground (arith, each stuck),
      )
