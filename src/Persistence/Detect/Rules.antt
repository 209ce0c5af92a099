-- ===== src/Persistence/Detect/Rules.antt =====
-- Which rules fire: a table of the documented rules, and that each finding comes from it, once.
use mathlib.Core.Path.{ap₂}
use fleet_telemetry_system.Prelude.{
  ℕ, ◌+◌, Bool, true, false, ◌&&◌, not, Option, none, some, List, ◌++◌, ◌≡◌, refl, ◌∙◌, ◌||◌, arith,
  ok, count, count-append, if◌then◌else◌, String, [], ◌∷◌, length, ltb, ap,
}
use fleet_telemetry_system.Prelude.Int.{sub_ℕ}
use fleet_telemetry_system.Models.{
  VehicleStatus, idle, moving, charging, fault, same_status, TelemetryEvent, teleport_mps,
}
use fleet_telemetry_system.Models.Floats.{Floats}
use fleet_telemetry_system.Models.Datetime.{aware, subtract}
use fleet_telemetry_system.Store.{
  AnomalyType, fault_status, error_codes, low_battery, overspeed, stuck, teleport, battery_rising,
  comms_loss, Reading,
}
use fleet_telemetry_system.Persistence.Detect.{
  Finding, append_if, is_empty, is_low_battery, is_overspeed, is_stuck, implied_between,
  teleport_finding, is_battery_rising, stateless, stateful, detect_anomalies,
}

abbrev pub same_kind : AnomalyType → AnomalyType → Bool
same_kind fault_status fault_status = true
same_kind error_codes error_codes = true
same_kind low_battery low_battery = true
same_kind overspeed overspeed = true
same_kind stuck stuck = true
same_kind teleport teleport = true
same_kind battery_rising battery_rising = true
same_kind comms_loss comms_loss = true
same_kind _ _ = false

abbrev pub found : AnomalyType → List Finding → ℕ
found k fs = count (λ f. same_kind f.0 k) fs

abbrev pub once : Bool → ℕ
once b = if b then 1 else 0

abbrev pub is_moving : VehicleStatus → Bool
is_moving moving = true
is_moving _ = false

abbrev pub is_charging : VehicleStatus → Bool
is_charging charging = true
is_charging _ = false

abbrev pub is_fault : VehicleStatus → Bool
is_fault fault = true
is_fault _ = false

same_status-fault : (s : VehicleStatus) → same_status s fault ≡ is_fault s
same_status-fault idle = refl
same_status-fault _ = refl

same_status-moving : (s : VehicleStatus) → same_status s moving ≡ is_moving s
same_status-moving idle = refl
same_status-moving _ = refl

same_status-charging : (s : VehicleStatus) → same_status s charging ≡ is_charging s
same_status-charging idle = refl
same_status-charging _ = refl

not-is_empty : (codes : List String) → not (is_empty codes) ≡ ltb 0 (length codes)
not-is_empty [] = refl
not-is_empty (c ∷ codes) = ground arith

module _ {F : Type 0} (fl : Floats F) where
  open fl use {decimal, flt, fle, fsub, fdiv, hypot, total_seconds}

  -- The rules on the event alone: the status is fault; there are error codes; the battery is below 15
  -- and the vehicle is not charging; the speed is above 5.
  abbrev pub fires_alone : TelemetryEvent F → AnomalyType → Bool
  fires_alone e fault_status = is_fault e.status
  fires_alone e error_codes = ltb 0 (length e.error_codes)
  fires_alone e low_battery = flt e.battery_pct (decimal 15 0) && not (is_charging e.status)
  fires_alone e overspeed = flt (decimal 5 0) e.speed_mps
  fires_alone e _ = false

  -- A distance in a time above 0 is faster than 15.
  abbrev pub is_jump : F → F → F → Bool
  is_jump dx dy dt = flt (decimal 0 0) dt && flt (decimal 15 0) (fdiv (hypot dx dy) dt)

  abbrev pub is_jump_between : F → Option F → Option F → Option F → Option F → Bool
  is_jump_between dt (some px) (some py) (some ex) (some ey) = is_jump (fsub ex px) (fsub ey py) dt
  is_jump_between dt _ _ _ _ = false

  -- The rules against the reading before, `dt` seconds earlier: moving then and now, both times slower
  -- than 0.1, and at least 10 seconds apart; a jump, where both positions are known; more charge than
  -- before, and the vehicle is not charging.
  abbrev pub fires_against : TelemetryEvent F → Reading F → F → AnomalyType → Bool
  fires_against e p dt stuck =
      is_moving p.status
      && is_moving e.status
      && flt p.speed_mps (decimal 1 1)
      && flt e.speed_mps (decimal 1 1)
      && fle (decimal 10 0) dt
  fires_against e p dt teleport = is_jump_between dt p.pos_x p.pos_y e.pos_x e.pos_y
  fires_against e p dt battery_rising =
      flt p.battery_pct e.battery_pct && not (is_charging e.status)
  fires_against e p dt _ = false

  abbrev is_teleport : Option F → Bool
  is_teleport none = false
  is_teleport (some implied) = flt (teleport_mps fl) implied

  -- The tests of the code.
  abbrev tests_alone : TelemetryEvent F → AnomalyType → Bool
  tests_alone e fault_status = same_status e.status fault
  tests_alone e error_codes = not (is_empty e.error_codes)
  tests_alone e low_battery = is_low_battery fl e
  tests_alone e overspeed = is_overspeed fl e
  tests_alone e _ = false

  abbrev tests_against : TelemetryEvent F → Reading F → F → AnomalyType → Bool
  tests_against e p dt stuck = is_stuck fl e p dt
  tests_against e p dt teleport =
      is_teleport (implied_between fl dt p.pos_x p.pos_y e.pos_x e.pos_y)
  tests_against e p dt battery_rising = is_battery_rising fl e p
  tests_against e p dt _ = false

  tests_alone-fires : (e : TelemetryEvent F) (k : AnomalyType) → tests_alone e k ≡ fires_alone e k
  tests_alone-fires e fault_status = same_status-fault e.status
  tests_alone-fires e error_codes = not-is_empty e.error_codes
  tests_alone-fires e low_battery = rw (same_status-charging e.status) refl
  tests_alone-fires e _ = refl

  is_teleport-jump :
      (dt : F) (px py ex ey : Option F)
      → is_teleport (implied_between fl dt px py ex ey) ≡ is_jump_between dt px py ex ey
  is_teleport-jump dt (some px) (some py) (some ex) (some ey) = ground arith
  is_teleport-jump dt none py ex ey = refl
  is_teleport-jump dt (some px) none ex ey = refl
  is_teleport-jump dt (some px) (some py) none ey = refl
  is_teleport-jump dt (some px) (some py) (some ex) none = refl

  tests_against-fires :
      (e : TelemetryEvent F) (p : Reading F) (dt : F) (k : AnomalyType)
      → tests_against e p dt k ≡ fires_against e p dt k
  tests_against-fires e p dt stuck =
      rw (same_status-moving e.status, same_status-moving p.status) refl
  tests_against-fires e p dt teleport = is_teleport-jump dt p.pos_x p.pos_y e.pos_x e.pos_y
  tests_against-fires e p dt battery_rising = rw (same_status-charging e.status) refl
  tests_against-fires e p dt _ = refl

  found-append_if :
      (k : AnomalyType) (b : Bool) (f : Finding)
      → found k (append_if b f) ≡ once (b && same_kind f.0 k)
  found-append_if k true f = refl
  found-append_if k false f = refl

  found-stateless :
      (e : TelemetryEvent F) (k : AnomalyType) → found k (stateless fl e) ≡ once (tests_alone e k)
  unfolding stateless
  found-stateless e fault_status = ground arith
  found-stateless e _ = ground arith

  found-teleport_finding :
      (o : Option F) (k : AnomalyType)
      → found k (teleport_finding fl o) ≡ once (is_teleport o && same_kind teleport k)
  found-teleport_finding none k = refl
  found-teleport_finding (some implied) k =
      found-append_if k (flt (teleport_mps fl) implied) (teleport, _)

  found-three :
      (k : AnomalyType) (b c : Bool) (f g : Finding) (o : Option F)
      → found k (append_if b f ++ teleport_finding fl o ++ append_if c g)
        ≡ once (b && same_kind f.0 k)
          + (once (is_teleport o && same_kind teleport k) + once (c && same_kind g.0 k))
  found-three k b c f g o = ground (
    arith,
    count-append (λ f. same_kind f.0 k) (append_if b f ++ teleport_finding fl o) (append_if c g),
    count-append (λ f. same_kind f.0 k) (append_if b f) (teleport_finding fl o),
    found-append_if k b f,
    found-teleport_finding o k,
    found-append_if k c g,
  )

  tests_one :
      (e : TelemetryEvent F) (p : Reading F) (dt : F) (k : AnomalyType)
      → once (is_stuck fl e p dt && same_kind stuck k)
          + (once (
                is_teleport (implied_between fl dt p.pos_x p.pos_y e.pos_x e.pos_y)
                && same_kind teleport k)
              + once (is_battery_rising fl e p && same_kind battery_rising k))
        ≡ once (tests_against e p dt k)
  tests_one e p dt stuck = ground arith
  tests_one e p dt _ = ground arith

  found-stateful :
      (e : TelemetryEvent F) (p : Reading F) (dt : F) (k : AnomalyType)
      → found k (stateful fl e p dt) ≡ once (tests_against e p dt k)
  unfolding stateful
  found-stateful e p dt k =
      found-three k (is_stuck fl e p dt) (is_battery_rising fl e p) (stuck, _) (battery_rising, _)
        (implied_between fl dt p.pos_x p.pos_y e.pos_x e.pos_y)
      ∙ tests_one e p dt k

  found_alone :
      (e : TelemetryEvent F) (k : AnomalyType) → found k (stateless fl e) ≡ once (fires_alone e k)
  found_alone e k = found-stateless e k ∙ ap once (tests_alone-fires e k)

  found_against :
      (e : TelemetryEvent F) (p : Reading F) (dt : F) (k : AnomalyType)
      → found k (stateful fl e p dt) ≡ once (fires_against e p dt k)
  found_against e p dt k = found-stateful e p dt k ∙ ap once (tests_against-fires e p dt k)

  -- The rules together: those on the event alone, and those against the reading before.
  abbrev pub fires : TelemetryEvent F → Reading F → F → AnomalyType → Bool
  fires e p dt k = fires_alone e k || fires_against e p dt k

  fires_together :
      (e : TelemetryEvent F) (p : Reading F) (dt : F) (k : AnomalyType)
      → once (fires_alone e k) + once (fires_against e p dt k) ≡ once (fires e p dt k)
  fires_together e p dt stuck = ground arith
  fires_together e p dt _ = ground arith

  -- For an event with a zoned time and a reading before it, `detect_anomalies` returns one finding of
  -- each kind whose rule fires, none of any other kind, and so never two of a kind. The rules are those
  -- of `fires`, which writes out each threshold and each comparison: all are strict but that of the
  -- dwell of `stuck`, which fires at 10 seconds.
  pub detect_anomalies-fires :
      (e : TelemetryEvent F) (p : Reading F) (t : ℕ)
      → e.recorded_at ≡ aware t
      → (fs : List Finding) × (detect_anomalies fl e (some p) ≡ ok fs)
        × ((k : AnomalyType)
            → found k fs ≡ once (fires e p (total_seconds (sub_ℕ t p.recorded_at)) k))
  unfolding detect_anomalies
  detect_anomalies-fires e p t h =
      let dt = total_seconds (sub_ℕ t p.recorded_at) in
      (
        stateless fl e ++ stateful fl e p dt,
        rw (h, subtract),
        λ k.
            count-append (λ f. same_kind f.0 k) (stateless fl e) (stateful fl e p dt)
            ∙ ap₂ ◌+◌ (found_alone e k) (found_against e p dt k)
            ∙ fires_together e p dt k,
      )

  -- A first reading raises the findings of the rules on the event alone, one for each that fires, and
  -- none of the rules that compare, whatever its time.
  pub detect_anomalies-first :
      (e : TelemetryEvent F)
      → (fs : List Finding) × (detect_anomalies fl e none ≡ ok fs)
        × ((k : AnomalyType) → found k fs ≡ once (fires_alone e k))
        × (found stuck fs + found teleport fs + found battery_rising fs ≡ 0)
  unfolding detect_anomalies
  detect_anomalies-first e = (
    stateless fl e,
    refl,
    found_alone e,
    ground (arith, found_alone e stuck, found_alone e teleport, found_alone e battery_rising),
  )
