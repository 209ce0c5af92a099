-- ===== src/Tests/OfAlerts.antt =====
-- The alerts of the sample event, and what the consumer publishes of them.
use fleet_telemetry_system.Prelude.{ℕ, All, some, List, [], ◌∷◌, ◌++◌, map, ◌≡◌, refl, arith, ok}
use fleet_telemetry_system.Prelude.Int.{ℤ, pos}
use fleet_telemetry_system.Prelude.Dict.{lookup}
use fleet_telemetry_system.Text.{Text, codes}
use fleet_telemetry_system.Text.Utf8.Encoded.{encode, ascii-IsScalar}
use fleet_telemetry_system.Models.Datetime.{subtract}
use fleet_telemetry_system.Store.{low_battery, teleport, Anomaly}
use fleet_telemetry_system.Persistence.Detect.{Finding, detect_anomalies, stateless, stateful}
use fleet_telemetry_system.Persistence.Ingest.{persist_telemetry, anomaly_of}
use fleet_telemetry_system.Cdc.Decode.{Consumer}
use fleet_telemetry_system.Cdc.Decode.Encoded.{IsEncodable}
use fleet_telemetry_system.Delivery.Alerts.{
  columns, seen, after_all, row_cells, inserts, alert, decode_all, persist_telemetry-alerts,
}
use fleet_telemetry_system.Tests.Samples.{fixed, garage, event}
use fleet_telemetry_system.Tests.OfCdc.{consumer, float_of}
use fleet_telemetry_system.Persistence.Ingest.Returns.{persist_telemetry-ok}

abbrev findings : List Finding
findings = (low_battery, some "battery_pct=float") ∷ (teleport, some "implied_mps=float") ∷ []

abbrev rows : List Anomaly
rows = map (anomaly_of "v-1" 30000000) findings

-- Relation 7 is `anomalies`.
abbrev knowing : Consumer ℤ
knowing = record consumer { relations = (pos 7, (codes "anomalies", columns)) ∷ [] }

abbrev one : ℕ → Text
one n = codes "1"

abbrev day : ℕ → Text
day n = codes "2026-06-16 00:00:00+00"

low_battery-AllEncodable :
    All IsEncodable
      (row_cells one day 1 (anomaly_of "v-1" 30000000 (low_battery, some "battery_pct=float")))
unfolding encode
low_battery-AllEncodable = (
  (ascii-IsScalar (codes "1") (ground arith), omega arith),
  (
    (ascii-IsScalar (codes "v-1") (ground arith), omega arith),
    (
      (ascii-IsScalar (codes "low_battery") (ground arith), omega arith),
      (
        (ascii-IsScalar (codes "battery_pct=float") (ground arith), omega arith),
        ((ascii-IsScalar (codes "2026-06-16 00:00:00+00") (ground arith), omega arith), tt),
      ),
    ),
  ),
)

teleport-AllEncodable :
    All IsEncodable
      (row_cells one day 2 (anomaly_of "v-1" 30000000 (teleport, some "implied_mps=float")))
unfolding encode
teleport-AllEncodable = (
  (ascii-IsScalar (codes "1") (ground arith), omega arith),
  (
    (ascii-IsScalar (codes "v-1") (ground arith), omega arith),
    (
      (ascii-IsScalar (codes "teleport") (ground arith), omega arith),
      (
        (ascii-IsScalar (codes "implied_mps=float") (ground arith), omega arith),
        ((ascii-IsScalar (codes "2026-06-16 00:00:00+00") (ground arith), omega arith), tt),
      ),
    ),
  ),
)

persist_telemetry-alerts_example :
    let r = decode_all float_of (inserts one day 7 1 rows) knowing in
    ((persist_telemetry fixed event garage).1.db.anomalies ≡ [] ++ rows)
    × (r.0 ≡ ok tt)
    × (map seen r.1.published ≡ after_all (map (alert day) rows) (map seen knowing.published))
unfolding detect_anomalies stateless stateful subtract lookup
persist_telemetry-alerts_example =
    persist_telemetry-alerts one day float_of fixed event garage findings 7 1 knowing
      (persist_telemetry-ok fixed event garage refl tt (omega arith)) refl (omega arith)
      (low_battery-AllEncodable, (teleport-AllEncodable, tt)) (record { known = refl; up = refl })
