-- ===== src/Persistence/Ingest.antt =====
-- `persist_telemetry` of app/persistence.py, and its statements.
pub mod Atomic
pub mod Returns
pub mod Overlap
use fleet_telemetry_system.Prelude.{
  ℕ, ◌+◌, String, Option, none, some, List, [], ◌∷◌, ◌++◌, ok, raised, database_error, ltb,
  if◌then◌else◌,
}
use fleet_telemetry_system.Prelude.Dict.{lookup, upsert}
use fleet_telemetry_system.Models.{TelemetryEvent}
use fleet_telemetry_system.Models.Floats.{Floats}
use fleet_telemetry_system.Models.Datetime.{instant}
use fleet_telemetry_system.Store.{
  Reading, Anomaly, Session, Action, Statement, pure, lift, execute, transaction, ◌>>=◌, ◌>>◌,
}
use fleet_telemetry_system.Persistence.Detect.{Finding, detect_anomalies}

-- The largest INTEGER of Postgres: adding 1 to it is an error.
abbrev pub max_integer : ℕ
max_integer = 2_147_483_647

abbrev pub anomaly_of : String → ℕ → Finding → Anomaly
anomaly_of vehicle_id at (kind, detail) = record {
  vehicle_id = vehicle_id;
  anomaly_type = kind;
  detail = detail;
  detected_at = at;
}

module _ {F : Type 0} where
  unfoldable pub select_prior : String → Statement F (Option (Reading F))
  select_prior vehicle_id db = ok (lookup vehicle_id db.vehicle_current_state, db)

  unfoldable pub insert_raw : TelemetryEvent F → ℕ → Statement F Unit
  insert_raw e at db = ok (
    tt,
    record db {
      raw_events =
          db.raw_events
          ++ record {
            vehicle_id = e.vehicle_id;
            status = e.status;
            battery_pct = e.battery_pct;
            recorded_at = at;
          }
            ∷ [];
    },
  )

  abbrev pub reading_of : TelemetryEvent F → ℕ → Reading F
  reading_of e at = record {
    status = e.status;
    battery_pct = e.battery_pct;
    speed_mps = e.speed_mps;
    pos_x = e.pos_x;
    pos_y = e.pos_y;
    recorded_at = at;
  }

  unfoldable pub upsert_current : TelemetryEvent F → ℕ → Statement F Unit
  upsert_current e at db = ok (
    tt,
    record db {
      vehicle_current_state = upsert e.vehicle_id (reading_of e at) db.vehicle_current_state;
    },
  )

  abbrev pub advance : String → Option ℕ → Statement F Unit
  advance zone_id none db = ok (tt, db)
  advance zone_id (some n) db =
      if ltb n max_integer
      then ok (tt, record db { zone_counts = upsert zone_id (n + 1) db.zone_counts })
      else raised database_error

  -- An UPDATE of a zone that has no row changes nothing.
  unfoldable pub increment_zone : String → Statement F Unit
  increment_zone zone_id db = advance zone_id (lookup zone_id db.zone_counts) db

  unfoldable pub insert_anomaly : Anomaly → Statement F Unit
  insert_anomaly a db = ok (tt, record db { anomalies = db.anomalies ++ a ∷ [] })

  unfoldable pub enter_zone : Option String → Action F Unit
  enter_zone none = pure tt
  enter_zone (some zone_id) = execute (increment_zone zone_id)

  -- The `for` loop over the findings.
  unfoldable pub insert_anomalies : String → ℕ → List Finding → Action F Unit
  insert_anomalies vehicle_id at [] = pure tt
  insert_anomalies vehicle_id at (f ∷ fs) =
      execute (insert_anomaly (anomaly_of vehicle_id at f)) >> insert_anomalies vehicle_id at fs

  abbrev pub stamp : TelemetryEvent F → Session F → ℕ
  stamp e s = instant s.local e.recorded_at

module _ {F : Type 0} (fl : Floats F) where
  -- The block under `with conn.transaction()`.
  unfoldable pub persist_body : TelemetryEvent F → ℕ → Action F Unit
  persist_body e at = do
    prior ← execute (select_prior e.vehicle_id)
    findings ← lift (detect_anomalies fl e prior)
    execute (insert_raw e at)
    execute (upsert_current e at)
    enter_zone e.zone_entered
    insert_anomalies e.vehicle_id at findings

  unfoldable pub persist_telemetry : TelemetryEvent F → Action F Unit
  unfolding persist_body
  persist_telemetry e s = transaction (persist_body e (stamp e s)) s
