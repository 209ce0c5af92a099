-- ===== src/Persistence/CommsLoss.antt =====
-- `detect_comms_loss` of app/persistence.py, the sweep that app/watchdog.py drives.
pub mod Sweep
use fleet_telemetry_system.Prelude.{
  ℕ, ◌+◌, String, Bool, ◌&&◌, not, some, List, [], ◌∷◌, ◌++◌, map, ◌==◌, ok, select, any, length,
  ltb, leb,
}
use fleet_telemetry_system.Models.{comms_loss_timeout}
use fleet_telemetry_system.Store.{
  Reading, Anomaly, comms_loss, is_comms_loss, Action, Statement, execute, transaction, ◌>>◌,
}

-- The anomalies of the subquery: a comms loss of the vehicle at or after its reading.
abbrev pub covers : String → ℕ → Anomaly → Bool
covers vehicle_id recorded_at a =
    a.vehicle_id == vehicle_id && is_comms_loss a.anomaly_type && leb recorded_at a.detected_at

module _ {F : Type 0} where
  -- `recorded_at < now - timeout`, with the timeout on the other side.
  unfoldable pub is_silent : ℕ → List Anomaly → String × Reading F → Bool
  is_silent now anomalies (vehicle_id, r) =
      ltb (r.recorded_at + comms_loss_timeout) now
      && not (any (covers vehicle_id r.recorded_at) anomalies)

  abbrev pub loss_of : ℕ → String × Reading F → Anomaly
  loss_of now row = record {
    vehicle_id = row.0;
    anomaly_type = comms_loss;
    detail = some "no event for over 5s";
    detected_at = now;
  }

  unfoldable pub insert_comms_loss : ℕ → Statement F ℕ
  insert_comms_loss now db =
      let flagged =
        map (loss_of now) (select (is_silent now db.anomalies) db.vehicle_current_state) in
      ok (length flagged, record db { anomalies = db.anomalies ++ flagged })

  unfoldable pub detect_comms_loss : ℕ → Action F ℕ
  detect_comms_loss now = transaction (execute (insert_comms_loss now))

  -- `run_watchdog`: one sweep for each tick of the clock. An exception ends the process.
  unfoldable pub run_watchdog : List ℕ → Action F Unit
  run_watchdog [] s = (ok tt, s)
  run_watchdog (now ∷ later) s = (detect_comms_loss now >> run_watchdog later) s
