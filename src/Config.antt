-- ===== src/Config.antt =====
-- app/config.py: what the processes read from their environment.
pub mod Required
use fleet_telemetry_system.Prelude.{
  ℕ, String, Option, none, some, Outcome, ok, raised, config_error, if◌then◌else◌,
}
use fleet_telemetry_system.Prelude.Int.{ℤ}
use fleet_telemetry_system.Prelude.Dict.{Dict, lookup}
use fleet_telemetry_system.Text.{Text, codes}
use fleet_telemetry_system.Text.Spaces.{is_empty, strip}
use fleet_telemetry_system.Text.Numerals.{int_of}

-- `os.environ`
abbrev pub Environ : Type 0
Environ = Dict Text

abbrev pub or_default : Text → Option Text → Text
or_default default none = default
or_default default (some t) = t

-- `os.environ.get(name, default)`
unfoldable pub getenv : Environ → String → Text → Text
unfolding lookup
getenv env name default = or_default default (lookup name env)

-- A variable that must be set: the body of the three functions below.
unfoldable pub required : String → Environ → Outcome Text
unfolding getenv strip
required name env =
    let value = strip (getenv env name (codes "")) in
    if is_empty value then raised config_error else ok value

unfoldable pub get_dsn : Environ → Outcome Text
unfolding required
get_dsn = required "DATABASE_URL"

unfoldable pub get_replica_dsn : Environ → Outcome Text
unfolding required
get_replica_dsn = required "REPLICA_URL"

unfoldable pub get_redis_url : Environ → Outcome Text
unfolding required
get_redis_url = required "REDIS_URL"

unfoldable pub get_pool_max_size : Environ → Outcome ℤ
unfolding getenv int_of
get_pool_max_size env = int_of (getenv env "DB_POOL_MAX_SIZE" (codes "20"))
