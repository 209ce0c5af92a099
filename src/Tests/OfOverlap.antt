-- ===== src/Tests/OfOverlap.antt =====
-- Two events of one vehicle that arrive at the same time, on two connections.
use fleet_telemetry_system.Prelude.{String, ◌++◌, ℕ, none, some, List, [], ◌∷◌, ◌≡◌, refl, map}
use fleet_telemetry_system.Prelude.Int.{ℤ, pos}
use fleet_telemetry_system.Prelude.Dict.{lookup, upsert}
use fleet_telemetry_system.Models.{TelemetryEvent}
use fleet_telemetry_system.Models.Datetime.{aware, subtract}
use fleet_telemetry_system.Store.{low_battery, teleport}
use fleet_telemetry_system.Persistence.Detect.{detect_anomalies}
use fleet_telemetry_system.Persistence.Ingest.{increment_zone}
use fleet_telemetry_system.Persistence.Ingest.Overlap.{
  Move, begins, proceeds, Overlap, start, move, moves,
}
use fleet_telemetry_system.Persistence.Ingest.Overlap.History.{latest, IsChain}
use fleet_telemetry_system.Persistence.Ingest.Overlap.Chain.{moves-IsChain}
use fleet_telemetry_system.Persistence.Ingest.Overlap.Counted.{
  plus, last_reading, entries, moves-counted,
}
use fleet_telemetry_system.Persistence.Ingest.Overlap.Ends.{moves-ends}
use fleet_telemetry_system.Persistence.Ingest.Overlap.InTurn.{AreClear, AreInTurn, moves-AreInTurn}
use fleet_telemetry_system.Tests.Samples.{fixed, garage_tables, event}

abbrev utc : ℕ → ℕ
utc t = t

-- A second later, in the same zone, with a higher charge.
abbrev second : TelemetryEvent ℤ
second = record event { battery_pct = pos 20000000; recorded_at = aware 31000000 }

-- Both have read; the second one waits for the row of the vehicle until the first one has committed.
abbrev schedule : List (Move ℤ)
schedule =
    begins 0 event
    ∷ begins 1 second
    ∷ proceeds 0
    ∷ proceeds 1
    ∷ proceeds 0
    ∷ proceeds 0
    ∷ proceeds 1
    ∷ proceeds 1
    ∷ proceeds 0
    ∷ []

abbrev ends : ℕ → List (Move ℤ)
ends i = proceeds i ∷ proceeds i ∷ proceeds i ∷ proceeds i ∷ proceeds i ∷ proceeds i ∷ []

abbrev half : Overlap ℤ
half = moves fixed utc 2 schedule (start garage_tables)

zone_after : lookup "aisle_a" half.db.zone_counts ≡ some 7
unfolding moves lookup upsert detect_anomalies subtract increment_zone
zone_after = refl

abbrev both : List (Move ℤ)
both = schedule ++ ends 0 ++ ends 1

abbrev whole : Overlap ℤ
whole = moves fixed utc 2 both (start garage_tables)

counted_twice : lookup "aisle_a" whole.db.zone_counts ≡ some 9
unfolding moves lookup upsert detect_anomalies subtract increment_zone
counted_twice = refl

-- The second event is judged against the reading from before the first one: a rise of the charge since
-- then is not found, and the jump is found twice.
kinds_found : map (λ a. a.anomaly_type) whole.db.anomalies ≡ low_battery ∷ teleport ∷ teleport ∷ []
unfolding moves lookup upsert detect_anomalies subtract increment_zone
kinds_found = refl

moves-IsChain_example :
    (whole.db ≡ latest garage_tables whole.commits) × IsChain fixed utc garage_tables whole.commits
moves-IsChain_example = moves-IsChain fixed utc garage_tables 2 both

moves-counted_example :
    ((z : String)
      → lookup z whole.db.zone_counts
        ≡ plus (entries utc z whole.commits) (lookup z garage_tables.zone_counts))
    × ((v : String)
        → lookup v whole.db.vehicle_current_state
          ≡ last_reading utc v (lookup v garage_tables.vehicle_current_state) whole.commits)
moves-counted_example = moves-counted fixed utc garage_tables 2 both

moves-ends_example :
    (order : List ℕ) × ((i : ℕ) → (moves fixed utc 2 (map proceeds order) half).running i ≡ none)
moves-ends_example = moves-ends fixed utc garage_tables 2 schedule

-- One vehicle's two events, the second one after the end of the first, and between them an event of
-- another vehicle for the same zone, which waits for the first one's row.
abbrev other : TelemetryEvent ℤ
other = record event { vehicle_id = "v-2" }

abbrev in_turn : List (Move ℤ)
in_turn =
    begins 0 event
      ∷ begins 1 other
      ∷ proceeds 0
      ∷ proceeds 1
      ∷ proceeds 0
      ∷ proceeds 1
      ∷ proceeds 0
      ∷ proceeds 1
      ∷ proceeds 0
      ∷ proceeds 1
      ∷ proceeds 0
      ∷ proceeds 0
      ∷ proceeds 0
      ∷ begins 0 second
      ∷ ends 1
    ++ ends 0

abbrev served : Overlap ℤ
served = moves fixed utc 2 in_turn (start garage_tables)

all_counted : lookup "aisle_a" served.db.zone_counts ≡ some 10
unfolding moves lookup upsert detect_anomalies subtract increment_zone
all_counted = refl

in_turn-AreClear : AreClear fixed utc garage_tables 2 in_turn (start garage_tables)
unfolding move moves lookup upsert detect_anomalies subtract increment_zone
in_turn-AreClear = (
  refl,
  (
    refl,
    (
      tt,
      (
        tt,
        (
          tt,
          (
            tt,
            (
              tt,
              (
                tt,
                (
                  tt,
                  (
                    tt,
                    (
                      tt,
                      (
                        tt,
                        (
                          tt,
                          (
                            refl,
                            (
                              tt,
                              (tt, (tt, (tt, (tt, (tt, (tt, (tt, (tt, (tt, (tt, (tt, tt))))))))))),
                            ),
                          ),
                        ),
                      ),
                    ),
                  ),
                ),
              ),
            ),
          ),
        ),
      ),
    ),
  ),
)

moves-AreInTurn_example :
    (served.db ≡ latest garage_tables served.commits)
    × AreInTurn fixed utc garage_tables 2 served.commits
moves-AreInTurn_example = moves-AreInTurn fixed utc garage_tables 2 in_turn in_turn-AreClear
