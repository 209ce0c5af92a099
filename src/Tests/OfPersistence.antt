-- ===== src/Tests/OfPersistence.antt =====
-- app/persistence.py on the sample fleet.
use fleet_telemetry_system.Prelude.{
  Bool, none, map, ◌≤◌, none, some, List, [], ◌∷◌, ◌≡◌, refl, arith, ok, raised, type_error, map,
}
use fleet_telemetry_system.Prelude.Int.{pos}
use fleet_telemetry_system.Prelude.Dict.{lookup}
use fleet_telemetry_system.Models.Datetime.{subtract}
use fleet_telemetry_system.Store.{
  Session, Anomaly, execute, low_battery, stuck, teleport, AnomalyType,
}
use fleet_telemetry_system.Store.Ensures.{Transacted}
use fleet_telemetry_system.Persistence.Detect.{Finding, detect_anomalies, stateless, stateful}
use fleet_telemetry_system.Persistence.Detect.Rules.{found, once, fires, detect_anomalies-fires}
use fleet_telemetry_system.Persistence.Detect.Exempt.{FloatLaws}
use fleet_telemetry_system.Persistence.Ingest.{anomaly_of, persist_telemetry}
use fleet_telemetry_system.Persistence.Ingest.Atomic.{Committed, persist_telemetry-Transacted}
use fleet_telemetry_system.Persistence.Ingest.Returns.{
  persist_telemetry-ok, persist_telemetry-naive,
}
use fleet_telemetry_system.Persistence.Fault.{transition_to_fault}
use fleet_telemetry_system.Persistence.Fault.Transition.{Result, transition_to_fault-Transacted}
use fleet_telemetry_system.Prelude.{String}
use fleet_telemetry_system.Text.{codes}
use fleet_telemetry_system.Text.Order.{
  le_text, le_text-IsTotalOrder, le_text-antisym, codes-injective,
}
use fleet_telemetry_system.Persistence.Reads.Latest.{IsCollation}
use fleet_telemetry_system.Persistence.Reads.{latest_anomaly_per_vehicle, recent_anomalies}
use fleet_telemetry_system.Persistence.CommsLoss.{detect_comms_loss, run_watchdog}
use fleet_telemetry_system.Persistence.CommsLoss.Sweep.{
  flagged, IsCurrent, detect_comms_loss-flagged, run_watchdog-once,
}
use fleet_telemetry_system.Prelude.Int.{ℤ}
use fleet_telemetry_system.Tests.Samples.{
  fixed, reading, garage, garage_tables, event, unzoned_event,
}

persist_telemetry-Transacted_example :
    Transacted
      (λ b _ b'. Committed fixed event 30000000 b b')
      garage
      (persist_telemetry fixed event garage)
persist_telemetry-Transacted_example = persist_telemetry-Transacted fixed event garage

persist_telemetry-ok_example : (persist_telemetry fixed event garage).0 ≡ ok tt
unfolding lookup
persist_telemetry-ok_example = persist_telemetry-ok fixed event garage refl tt (omega arith)

persist_telemetry-naive_example :
    persist_telemetry fixed unzoned_event garage ≡ (raised type_error, garage)
unfolding lookup
persist_telemetry-naive_example =
    persist_telemetry-naive fixed unzoned_event 30000000 reading garage refl refl refl

detect_anomalies-fires_example :
    (fs : List Finding) × (detect_anomalies fixed event (some reading) ≡ ok fs)
    × ((k : AnomalyType) → found k fs ≡ once (fires fixed event reading (pos 10000000) k))
detect_anomalies-fires_example = detect_anomalies-fires fixed event reading 30000000 refl

-- The jump and the low battery of the event are found, and nothing else.
event_findings :
    (fs : List Finding) × (detect_anomalies fixed event (some reading) ≡ ok fs)
    × (map (λ f. f.0) fs ≡ low_battery ∷ teleport ∷ [])
unfolding detect_anomalies stateless stateful subtract
event_findings = (_, refl, refl)

fixed_laws : FloatLaws fixed
fixed_laws = record {
  seconds_not_positive = λ a b h. ground arith;
  seconds_below_dwell = λ a b h. ground arith;
}

abbrev late_findings : List Finding
late_findings = (low_battery, some "battery_pct=float") ∷ []

transition_to_fault-Transacted_example :
    Transacted
      (Result "v-1" (some "motor"))
      garage
      (transition_to_fault "v-1" (some "motor") garage)
transition_to_fault-Transacted_example = transition_to_fault-Transacted "v-1" (some "motor") garage

garage-IsCurrent : IsCurrent "v-1" reading garage_tables
unfolding lookup
garage-IsCurrent = record { one_row = omega arith; reading = refl }

detect_comms_loss-flagged_example :
    flagged "v-1" reading (detect_comms_loss 25000001 garage).1.db ≡ 1
detect_comms_loss-flagged_example =
    detect_comms_loss-flagged "v-1" reading 25000001 garage refl garage-IsCurrent

run_watchdog-once_example :
    flagged "v-1" reading (run_watchdog (25000001 ∷ 26000001 ∷ []) garage).1.db ≤ 1
run_watchdog-once_example =
    run_watchdog-once "v-1" reading (25000001 ∷ 26000001 ∷ []) garage garage-IsCurrent (omega arith)

-- A garage with four anomalies, out of order.
abbrev troubled : Session ℤ
troubled = record garage {
  db = record garage_tables {
    anomalies = map (λ t. anomaly_of "v-1" t (stuck, none)) (40 ∷ 20 ∷ 30 ∷ 99 ∷ []);
  };
}

recent_times :
    (rows : List Anomaly) × (recent_anomalies "v-1" 20 40 troubled ≡ (ok rows, troubled))
    × (map (λ a. a.detected_at) rows ≡ 20 ∷ 30 ∷ 40 ∷ [])
unfolding recent_anomalies execute
recent_times = (_, refl, refl)

-- Texts by their code points, as under the collation "C".
abbrev pub by_codes : String → String → Bool
by_codes a b = le_text (codes a) (codes b)

pub by_codes-IsCollation : IsCollation by_codes
by_codes-IsCollation = record {
  order = record {
    total = λ a b. le_text-IsTotalOrder.total (codes a) (codes b);
    trans = λ a b c. le_text-IsTotalOrder.trans (codes a) (codes b) (codes c);
  };
  antisym = λ a b h k. codes-injective a b (le_text-antisym (codes a) (codes b) h k);
}

latest_times :
    (rows : List Anomaly) × (latest_anomaly_per_vehicle by_codes troubled ≡ (ok rows, troubled))
    × (map (λ a. a.detected_at) rows ≡ 99 ∷ [])
unfolding latest_anomaly_per_vehicle execute
latest_times = (_, refl, refl)
