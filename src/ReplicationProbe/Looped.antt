-- ===== src/ReplicationProbe/Looped.antt =====
-- What the gauges show after any number of samples.
use fleet_telemetry_system.Prelude.{
  String, Option, none, some, List, [], ◌∷◌, ◌≡◌, refl, ap, ◌∙◌, ok,
}
use fleet_telemetry_system.Prelude.Int.{ℤ}
use fleet_telemetry_system.Prelude.Dict.{lookup}
use fleet_telemetry_system.Text.{Text}
use fleet_telemetry_system.Config.{Environ, get_dsn, get_replica_dsn}
use fleet_telemetry_system.Models.Floats.{Floats}
use fleet_telemetry_system.ReplicationProbe.{
  Tick, Gauges, seconds_lag_value, sample_once, sample_all, run_forever,
}
use fleet_telemetry_system.ReplicationProbe.Gauged.{or_else, last_lag, reported, sample_once-gauges}

or_else_assoc : {A : Type 0} (a b c : Option A) → or_else a (or_else b c) ≡ or_else (or_else a b) c
or_else_assoc none b c = refl
or_else_assoc (some x) b c = refl

-- The last lag in bytes that the primary reports for a standby.
abbrev pub last_bytes : String → List Tick → Option ℤ
last_bytes k [] = none
last_bytes k (t ∷ ticks) = or_else (last_bytes k ticks) (reported (last_lag k) t.primary)

module _ {F : Type 0} (fl : Floats F) where
  -- The last lag in seconds that the replica reports.
  abbrev pub last_seconds : List Tick → Option F
  last_seconds [] = none
  last_seconds (t ∷ ticks) =
      or_else (last_seconds ticks) (reported (λ r. seconds_lag_value fl r t.now) t.replica)

  sample_all-gauges :
      (ticks : List Tick) (g : Gauges F) (k : String)
      → (lookup k (sample_all fl ticks g).lag_bytes
          ≡ or_else (last_bytes k ticks) (lookup k g.lag_bytes))
        × ((sample_all fl ticks g).lag_seconds ≡ or_else (last_seconds ticks) g.lag_seconds)
  unfolding sample_all
  sample_all-gauges [] g k = (refl, refl)
  sample_all-gauges (t ∷ ticks) g k =
      let (bytes, seconds) = sample_once-gauges fl t.primary t.replica t.now g k in
      let (later_bytes, later_seconds) =
        sample_all-gauges ticks (sample_once fl t.primary t.replica t.now g) k in
      (
        later_bytes
            ∙ ap (or_else (last_bytes k ticks)) bytes
            ∙ or_else_assoc (last_bytes k ticks) (reported (last_lag k) t.primary)
                (lookup k g.lag_bytes),
        later_seconds
            ∙ ap (or_else (last_seconds ticks)) seconds
            ∙ or_else_assoc (last_seconds ticks)
                (reported (λ r. seconds_lag_value fl r t.now) t.replica) g.lag_seconds,
      )

  -- With both databases named in the environment the probe returns once it is stopped, however often a
  -- source raises, and then each series shows the last lag that was reported for it: for a standby by
  -- the primary, in seconds by the replica. A series that nothing was reported for shows what it did.
  pub run_forever-gauges :
      (env : Environ) (dsn replica_dsn : Text) (ticks : List Tick) (g : Gauges F) (k : String)
      → get_dsn env ≡ ok dsn
      → get_replica_dsn env ≡ ok replica_dsn
      → ((run_forever fl env ticks g).0 ≡ ok tt)
        × (lookup k (run_forever fl env ticks g).1.lag_bytes
            ≡ or_else (last_bytes k ticks) (lookup k g.lag_bytes))
        × ((run_forever fl env ticks g).1.lag_seconds ≡ or_else (last_seconds ticks) g.lag_seconds)
  unfolding run_forever
  run_forever-gauges env dsn replica_dsn ticks g k h r =
      let (bytes, seconds) = sample_all-gauges ticks g k in rw (h, r) (refl, bytes, seconds)
