-- ===== src/Persistence/Ingest/Atomic.antt =====
-- `persist_telemetry` writes all of an event or nothing of it.

use mathlib.Core.Option
use fleet_telemetry_system.Prelude.{
  ℕ, ◌+◌, String, Bool, false, Option, none, some, List, [], ◌∷◌, ◌++◌, map, ◌≡◌, refl, ◌==◌,
  eq_iff, arith, ok, append-nil, append_assoc, if◌then◌else◌,
}
use fleet_telemetry_system.Prelude.Dict.{lookup, lookup-upsert}
use fleet_telemetry_system.Models.{TelemetryEvent}
use fleet_telemetry_system.Models.Floats.{Floats}
use fleet_telemetry_system.Store.{Db, Reading, Session}
use fleet_telemetry_system.Store.Ensures.{
  Transacted, transaction-Transacted, Ensures, Ensures-lift, Ensures-execute, Ensures-bind,
}
use fleet_telemetry_system.Persistence.Detect.{Finding, detect_anomalies}
use fleet_telemetry_system.Persistence.Ingest.{
  select_prior, insert_raw, upsert_current, increment_zone, insert_anomaly, enter_zone,
  insert_anomalies, anomaly_of, advance, reading_of, stamp, persist_body, persist_telemetry,
}

abbrev pub enters : Option String → String → Bool
enters none z = false
enters (some zone_id) z = zone_id == z

-- What one committed event leaves in the tables: its raw row last, its reading current, the counter
-- of the zone that it entered one higher, its findings recorded, and all else as before.
pub record IsRecorded {F : Type 0} (e : TelemetryEvent F) (at : ℕ) (fs : List Finding)
    (before after : Db F) : Type 0 where
  pub raw :
      after.raw_events
      ≡ before.raw_events
        ++ record {
          vehicle_id = e.vehicle_id;
          status = e.status;
          battery_pct = e.battery_pct;
          recorded_at = at;
        }
          ∷ []
  pub current :
      (v : String)
      → lookup v after.vehicle_current_state ≡ (
          if e.vehicle_id == v
          then some (reading_of e at)
          else lookup v before.vehicle_current_state)
  pub zones :
      (z : String)
      → lookup z after.zone_counts ≡ (
          if enters e.zone_entered z
          then Option.map (λ n. n + 1) (lookup z before.zone_counts)
          else lookup z before.zone_counts)
  pub found : after.anomalies ≡ before.anomalies ++ map (anomaly_of e.vehicle_id at) fs
  pub vehicles : after.vehicles ≡ before.vehicles
  pub missions : after.missions ≡ before.missions
  pub maintenance : after.maintenance_records ≡ before.maintenance_records

module _ {F : Type 0} where
  -- Only the counters change, and only that of the zone.
  record Entered (zone : Option String) (b b' : Db F) : Type 0 where
    same : b' ≡ record b { zone_counts = b'.zone_counts }
    zones :
        (z : String)
        → lookup z b'.zone_counts ≡ (
            if enters zone z
            then Option.map (λ n. n + 1) (lookup z b.zone_counts)
            else lookup z b.zone_counts)

  advance-Entered :
      (zone_id : String) (o : Option ℕ) (b b' : Db F)
      → lookup zone_id b.zone_counts ≡ o
      → advance zone_id o b ≡ ok (tt, b')
      → Entered (some zone_id) b b'
  advance-Entered zone_id none b b' e h = record {
    same = ground arith;
    zones = λ z. ground (arith, eq_iff zone_id z);
  }
  advance-Entered zone_id (some n) b b' e h = record {
    same = ground arith;
    zones = λ z. ground (arith, eq_iff zone_id z, lookup-upsert zone_id z (n + 1) b.zone_counts);
  }

  enter_zone-Ensures :
      (zone : Option String) → Ensures (enter_zone {F = F} zone) (λ b _ b'. Entered zone b b')
  unfolding enter_zone
  enter_zone-Ensures none = record { at = λ s a h. record { same = refl; zones = λ z. refl } }
  enter_zone-Ensures (some zone_id) = record {
    at = λ s a h.
        unfold increment_zone in
        advance-Entered zone_id _ s.db _ refl ((Ensures-execute (increment_zone zone_id)).at s a h);
  }

  insert_anomalies-Ensures :
      (v : String) (at : ℕ) (fs : List Finding)
      → Ensures
          (insert_anomalies {F = F} v at fs)
          (λ b _ b'. b' ≡ record b { anomalies = b.anomalies ++ map (anomaly_of v at) fs })
  unfolding insert_anomalies insert_anomaly
  insert_anomalies-Ensures v at [] = record { at = λ s a h. rw append-nil }
  insert_anomalies-Ensures v at (f ∷ fs) = record {
    at = λ s a h.
        let (x, b', first, rest) =
          (Ensures-bind (Ensures-execute (insert_anomaly (anomaly_of v at f)))
              (λ _. insert_anomalies-Ensures v at fs)).at
            s a h in
        ground
          (arith, append_assoc s.db.anomalies (anomaly_of v at f ∷ []) (map (anomaly_of v at) fs));
  }

module _ {F : Type 0} (fl : Floats F) where
  -- The statements of the body, one after another.
  abbrev Steps : TelemetryEvent F → ℕ → Db F → Db F → Type 0
  Steps e at b b' =
      (prior : Option (Reading F)) × (b₁ : Db F) × (select_prior e.vehicle_id b ≡ ok (prior, b₁))
      × ((fs : List Finding) × (b₂ : Db F) × ((detect_anomalies fl e prior ≡ ok fs) × (b₂ ≡ b₁))
          × ((_ : Unit {0}) × (b₃ : Db F) × (insert_raw e at b₂ ≡ ok (tt, b₃))
              × ((_ : Unit {0}) × (b₄ : Db F) × (upsert_current e at b₃ ≡ ok (tt, b₄))
                  × ((_ : Unit {0}) × (b₅ : Db F) × Entered e.zone_entered b₄ b₅
                      × (b' ≡ record b₅ {
                        anomalies = b₅.anomalies ++ map (anomaly_of e.vehicle_id at) fs;
                      })))))

  abbrev pub Committed : TelemetryEvent F → ℕ → Db F → Db F → Type 0
  Committed e at b b' =
      (fs : List Finding) × (detect_anomalies fl e (lookup e.vehicle_id b.vehicle_current_state)
        ≡ ok fs)
      × IsRecorded e at fs b b'

  Steps-Committed :
      (e : TelemetryEvent F) (at : ℕ) (b b' : Db F) → Steps e at b b' → Committed e at b b'
  unfolding insert_raw upsert_current select_prior
  Steps-Committed e at b b'
        (
          prior,
          b₁,
          read,
          (fs, b₂, (detected, same), (_, b₃, raw, (_, b₄, current, (_, b₅, entered, found)))),
        ) =
      (
        fs,
        ground arith,
        record {
          raw = ground arith;
          current = λ v.
              ground
                (arith, lookup-upsert e.vehicle_id v (reading_of e at) b.vehicle_current_state);
          zones = λ z. ground (arith, entered.zones z);
          found = ground arith;
          vehicles = ground arith;
          missions = ground arith;
          maintenance = ground arith;
        },
      )

  persist_body-Ensures :
      (e : TelemetryEvent F) (at : ℕ)
      → Ensures (persist_body fl e at) (λ b _ b'. Committed e at b b')
  unfolding persist_body
  persist_body-Ensures e at = record {
    at = λ s a h. Steps-Committed e at s.db _ (
        (Ensures-bind (Ensures-execute (select_prior e.vehicle_id)) (λ prior.
            Ensures-bind (Ensures-lift (detect_anomalies fl e prior)) (λ fs.
              Ensures-bind (Ensures-execute (insert_raw e at)) (λ _.
                Ensures-bind (Ensures-execute (upsert_current e at)) (λ _.
                  Ensures-bind (enter_zone-Ensures e.zone_entered)
                    (λ _. insert_anomalies-Ensures e.vehicle_id at fs)))))).at
          s a h);
  }

  -- Whatever statement fails, a call of `persist_telemetry` that returns has recorded the event with
  -- the findings of `detect_anomalies` against the reading that the vehicle had before, and one that
  -- raises has changed no table.
  pub persist_telemetry-Transacted :
      (e : TelemetryEvent F) (s : Session F)
      → Transacted (λ b _ b'. Committed e (stamp e s) b b') s (persist_telemetry fl e s)
  unfolding persist_telemetry
  persist_telemetry-Transacted e s = transaction-Transacted s (persist_body-Ensures e (stamp e s))
