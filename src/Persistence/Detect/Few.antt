-- ===== src/Persistence/Detect/Few.antt =====
-- How many findings one event can have.
use fleet_telemetry_system.Prelude.{
  ℕ, ◌+◌, ◌≤◌, ◌>>=◌, Bool, Option, none, some, List, ◌++◌, ◌≡◌, Outcome, ok, raised, arith, length,
  length-append,
}
use fleet_telemetry_system.Models.{TelemetryEvent}
use fleet_telemetry_system.Models.Floats.{Floats}
use fleet_telemetry_system.Models.Datetime.{aware, subtract}
use fleet_telemetry_system.Store.{Reading}
use fleet_telemetry_system.Persistence.Detect.{
  Finding, append_if, teleport_finding, implied_between, is_stuck, is_battery_rising, stateless,
  stateful, detect_anomalies,
}

record AtMost (n : ℕ) (xs : List Finding) : Type 0 where
  few : length xs ≤ n

append-AtMost :
    {m n : ℕ} {xs ys : List Finding} → AtMost m xs → AtMost n ys → AtMost (m + n) (xs ++ ys)
append-AtMost {m} {n} {xs} {ys} h k = record {
  few = ground (arith, length-append xs ys, h.few, k.few);
}

after-few :
    {D : Type 0} (o : Outcome D) (found : D → List Finding) (fs : List Finding)
    → ((d : D) → AtMost 7 (found d))
    → (o >>= λ d. ok (found d)) ≡ ok fs
    → length fs ≤ 7
after-few (ok d) found fs h e = ground (arith, (h d).few, e)
after-few (raised x) found fs h e = cc

module _ {F : Type 0} (fl : Floats F) where
  stateless-AtMost : (e : TelemetryEvent F) → AtMost 4 (stateless fl e)
  unfolding stateless
  stateless-AtMost e = record { few = ground arith }

  one_each :
      (b c : Bool) (x y : Finding) (implied : Option F)
      → AtMost 3 (append_if b x ++ teleport_finding fl implied ++ append_if c y)
  one_each b c x y none = record { few = ground arith }
  one_each b c x y (some v) = record { few = ground arith }

  stateful-AtMost : (e : TelemetryEvent F) (p : Reading F) (dt : F) → AtMost 3 (stateful fl e p dt)
  unfolding stateful
  stateful-AtMost e p dt =
      one_each (is_stuck fl e p dt) (is_battery_rising fl e p) (_, _) (_, _)
        (implied_between fl dt p.pos_x p.pos_y e.pos_x e.pos_y)

  -- The rules find at most seven anomalies.
  pub detect_anomalies-few :
      (e : TelemetryEvent F) (prior : Option (Reading F)) (fs : List Finding)
      → detect_anomalies fl e prior ≡ ok fs
      → length fs ≤ 7
  unfolding detect_anomalies
  detect_anomalies-few e none fs h = ground (arith, (stateless-AtMost e).few, h)
  detect_anomalies-few e (some p) fs h =
      after-few (subtract e.recorded_at (aware p.recorded_at)) _ fs
        (λ delta. append-AtMost (stateless-AtMost e) (stateful-AtMost e p _)) h
