-- ===== src/Tests/OfConcurrent.antt =====
-- Overlapping transitions of one vehicle of the sample fleet.
use fleet_telemetry_system.Prelude.{none, some, List, [], ◌∷◌, ◌≡◌, refl, map}
use fleet_telemetry_system.Prelude.Dict.{lookup, upsert}
use fleet_telemetry_system.Persistence.Fault.{
  lock_vehicle, cancel_active_mission, insert_maintenance, update_status,
}
use fleet_telemetry_system.Persistence.Fault.Concurrent.{Move, asks, proceeds, breaks, start, moves}
use fleet_telemetry_system.Persistence.Fault.Concurrent.Once.{AtMostOne, moves-AtMostOne}
use fleet_telemetry_system.Tests.Samples.{garage_tables}

-- The first call is broken off after two statements; the second one has waited, asks again and does the
-- transition, while the third one waits; the third one then finds the vehicle in fault.
abbrev schedule : List Move
schedule =
    asks 1 (some "motor")
    ∷ proceeds
    ∷ asks 2 none
    ∷ proceeds
    ∷ breaks
    ∷ asks 2 none
    ∷ proceeds
    ∷ asks 3 none
    ∷ proceeds
    ∷ proceeds
    ∷ proceeds
    ∷ asks 3 none
    ∷ []

moves-AtMostOne_example : AtMostOne "v-1" garage_tables (moves "v-1" schedule (start garage_tables))
moves-AtMostOne_example = moves-AtMostOne "v-1" garage_tables schedule

answered_in_turn :
    map (λ a. a.0) (moves "v-1" schedule (start garage_tables)).answers ≡ 3 ∷ 2 ∷ 1 ∷ []
unfolding moves lock_vehicle cancel_active_mission insert_maintenance update_status lookup upsert
answered_in_turn = refl
