-- ===== src/ReplicationProbe.antt =====
-- app/replication_probe.py: the two lags, and the gauges that a sample sets. A source is queried with
-- what it answers or raises; `int` of a lag in bytes is taken as done by the query.
pub mod Gauged
pub mod Looped
pub mod Main
use fleet_telemetry_system.Prelude.{
  ℕ, String, Bool, true, false, Option, none, some, List, [], ◌∷◌, Outcome, ok, raised, ◌==◌,
  if◌then◌else◌,
}
use fleet_telemetry_system.Prelude.Int.{ℤ, sub_ℕ}
use fleet_telemetry_system.Prelude.Dict.{Dict, upsert}
use fleet_telemetry_system.Prelude.Exceptions.{◌>>=◌}
use fleet_telemetry_system.Config.{Environ, get_dsn, get_replica_dsn}
use fleet_telemetry_system.Models.{zero_float}
use fleet_telemetry_system.Models.Floats.{Floats}

-- A row of `pg_stat_replication`.
pub record StandbyRow : Type 0 where
  pub application_name : Option String
  pub lag_bytes : Option ℤ

-- `str(application_name) if application_name else "standby"`
abbrev pub standby_name : Option String → String
standby_name none = "standby"
standby_name (some name) = if name == "" then "standby" else name

abbrev pub add_sample : String → Option ℤ → List (String × ℤ) → List (String × ℤ)
add_sample name none samples = samples
add_sample name (some lag) samples = (name, lag) ∷ samples

unfoldable pub byte_lag_samples : List StandbyRow → List (String × ℤ)
byte_lag_samples [] = []
byte_lag_samples (row ∷ rows) =
    add_sample (standby_name row.application_name) row.lag_bytes (byte_lag_samples rows)

-- The two gauges: one series for each standby, and the seconds.
pub record Gauges (F : Type 0) : Type 0 where
  pub lag_bytes : Dict ℤ
  pub lag_seconds : Option F

abbrev pub set_all : List (String × ℤ) → Dict ℤ → Dict ℤ
set_all [] gauge = gauge
set_all ((name, lag) ∷ samples) gauge = set_all samples (upsert name lag gauge)

-- What the two sources answer to one sample, and the time.
pub record Tick : Type 0 where
  pub primary : Outcome (List StandbyRow)
  pub replica : Outcome (Option ℕ)
  pub now : ℕ

module _ {F : Type 0} (fl : Floats F) where
  -- `max(0.0, x)`
  abbrev pub floored : F → F
  floored x = if fl.flt (zero_float fl) x then x else zero_float fl

  unfoldable pub seconds_lag_value : Option ℕ → ℕ → Option F
  seconds_lag_value none now = none
  seconds_lag_value (some replayed) now = some (floored (fl.total_seconds (sub_ℕ now replayed)))

  unfoldable pub sample_byte_lag : Outcome (List StandbyRow) → Gauges F → Gauges F
  unfolding byte_lag_samples
  sample_byte_lag (ok rows) g = record g { lag_bytes = set_all (byte_lag_samples rows) g.lag_bytes }
  sample_byte_lag (raised _) g = g

  abbrev pub set_seconds : Option F → Gauges F → Gauges F
  set_seconds none g = g
  set_seconds (some lag) g = record g { lag_seconds = some lag }

  unfoldable pub sample_seconds_lag : Outcome (Option ℕ) → ℕ → Gauges F → Gauges F
  unfolding seconds_lag_value
  sample_seconds_lag (ok replayed) now g = set_seconds (seconds_lag_value replayed now) g
  sample_seconds_lag (raised _) now g = g

  unfoldable pub sample_once :
      Outcome (List StandbyRow) → Outcome (Option ℕ) → ℕ → Gauges F → Gauges F
  unfolding sample_byte_lag sample_seconds_lag
  sample_once primary replica now g = sample_seconds_lag replica now (sample_byte_lag primary g)

  -- The loop until `stop` is set, which it is where the list ends.
  unfoldable pub sample_all : List Tick → Gauges F → Gauges F
  unfolding sample_once
  sample_all [] g = g
  sample_all (t ∷ ticks) g = sample_all ticks (sample_once t.primary t.replica t.now g)

  abbrev pub sample_until :
      Outcome (Unit {0}) → List Tick → Gauges F → Outcome (Unit {0}) × Gauges F
  sample_until (raised e) ticks g = (raised e, g)
  sample_until (ok _) ticks g = (ok tt, sample_all ticks g)

  -- The two names of databases are read first; without one of them the probe ends.
  unfoldable pub run_forever : Environ → List Tick → Gauges F → Outcome (Unit {0}) × Gauges F
  unfolding sample_all
  run_forever env ticks g =
      sample_until (get_dsn env >>= λ _. get_replica_dsn env >>= λ _. ok tt) ticks g
