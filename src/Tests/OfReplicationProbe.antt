-- ===== src/Tests/OfReplicationProbe.antt =====
-- app/replication_probe.py with two rows of one standby, and a replica that cannot be reached.
use fleet_telemetry_system.Prelude.{
  ℕ, Option, none, some, List, [], ◌∷◌, ◌≡◌, refl, Outcome, ok, raised, database_error,
}
use fleet_telemetry_system.Prelude.Int.{ℤ, pos}
use fleet_telemetry_system.Prelude.Dict.{lookup}
use fleet_telemetry_system.ReplicationProbe.{StandbyRow, Gauges, Tick, run_forever}
use fleet_telemetry_system.ReplicationProbe.Gauged.{or_else}
use fleet_telemetry_system.ReplicationProbe.Looped.{last_bytes, last_seconds, run_forever-gauges}
use fleet_telemetry_system.Text.{codes}
use fleet_telemetry_system.Text.Spaces.{strip}
use fleet_telemetry_system.Config.{Environ, get_dsn, get_replica_dsn, required, getenv}
use fleet_telemetry_system.Tests.Samples.{fixed}

abbrev rows : List StandbyRow
rows =
    record { application_name = some "replica"; lag_bytes = some (pos 64) }
    ∷ record { application_name = none; lag_bytes = none }
    ∷ []

abbrev gauges : Gauges ℤ
gauges = record { lag_bytes = ("replica", pos 8) ∷ []; lag_seconds = some (pos 3) }

abbrev unreachable : Outcome (Option ℕ)
unreachable = raised database_error

-- The next sample finds no standby, but the replica.
abbrev ticks : List Tick
ticks =
    record { primary = ok rows; replica = unreachable; now = 90 }
    ∷ record { primary = ok []; replica = ok (some 85); now = 91 }
    ∷ []

abbrev env : Environ
env = ("DATABASE_URL", codes "primary") ∷ ("REPLICA_URL", codes "replica") ∷ []

run_forever-gauges_example :
    ((run_forever fixed env ticks gauges).0 ≡ ok tt)
    × (lookup "replica" (run_forever fixed env ticks gauges).1.lag_bytes
        ≡ or_else (last_bytes "replica" ticks) (lookup "replica" gauges.lag_bytes))
    × ((run_forever fixed env ticks gauges).1.lag_seconds
        ≡ or_else (last_seconds fixed ticks) (some (pos 3)))
unfolding get_dsn get_replica_dsn required getenv strip lookup
run_forever-gauges_example =
    run_forever-gauges fixed env (codes "primary") (codes "replica") ticks gauges "replica" refl
      refl

shown : last_bytes "replica" ticks ≡ some (pos 64)
shown = refl
