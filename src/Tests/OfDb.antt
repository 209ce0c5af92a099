-- ===== src/Tests/OfDb.antt =====
-- app/db.py with two environments.
use fleet_telemetry_system.Prelude.{◌+◌, List, [], ◌∷◌, ◌≡◌, refl, Outcome, ok}
use fleet_telemetry_system.Prelude.Dict.{lookup}
use fleet_telemetry_system.Prelude.Int.{ℤ, pos}
use fleet_telemetry_system.Text.{Text, codes}
use fleet_telemetry_system.Text.Spaces.{strip}
use fleet_telemetry_system.Prelude.Effects.{◌>>=◌}
use fleet_telemetry_system.Config.{
  get_replica_dsn, Environ, getenv, required, get_dsn, get_pool_max_size,
}
use fleet_telemetry_system.Text.Numerals.{int_of}
use fleet_telemetry_system.Db.{
  no_pools, primary, replica, Use, gets, closes, use_pools, race, Threads, ThreadStep, tests,
  stores,
}
use fleet_telemetry_system.Db.Balanced.{IsBalanced}
use fleet_telemetry_system.Db.Race.{accounted, race-leaks}

abbrev env : Environ
env = ("DATABASE_URL", codes "db") ∷ []

abbrev opens : Text → ℤ → Outcome (Unit {0})
opens conninfo max_size = ok tt

no_pools-IsBalanced : IsBalanced no_pools
no_pools-IsBalanced = record { balance = refl }

-- The replica's name is not set.
abbrev uses : List Use
uses = gets primary env ∷ gets replica env ∷ gets primary env ∷ closes ∷ gets primary env ∷ []

-- Two pools were opened, and the first one is closed.
balanced : (use_pools opens uses no_pools).closed ≡ 1
unfolding use_pools get_dsn required getenv strip lookup get_pool_max_size int_of get_replica_dsn
    ◌>>=◌
balanced = refl

-- Three threads, of which two leave a pool behind.
abbrev crowd : List ThreadStep
crowd = tests ∷ tests ∷ tests ∷ stores env ∷ stores env ∷ stores env ∷ []

abbrev idle : Threads
idle = record { pools = no_pools; found_none = 0 }

race-leaks_example :
    (race opens primary crowd idle).pools.opened
    ≡ accounted (race opens primary crowd idle).pools + 2
unfolding get_dsn required getenv strip lookup get_pool_max_size int_of
race-leaks_example =
    race-leaks opens primary env (codes "db") (pos 20) refl refl refl 2 no_pools no_pools-IsBalanced
      refl
