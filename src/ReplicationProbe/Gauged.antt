-- ===== src/ReplicationProbe/Gauged.antt =====
-- What the gauges show after a sample.
use fleet_telemetry_system.Prelude.{
  ℕ, String, Option, none, some, List, [], ◌∷◌, ◌≡◌, refl, arith, Outcome, ok, raised, ◌==◌,
  if◌then◌else◌,
}
use fleet_telemetry_system.Prelude.Int.{ℤ}
use fleet_telemetry_system.Prelude.Dict.{Dict, lookup, upsert, lookup-upsert}
use fleet_telemetry_system.Models.Floats.{Floats}
use fleet_telemetry_system.ReplicationProbe.{
  StandbyRow, standby_name, add_sample, byte_lag_samples, Gauges, set_all, seconds_lag_value,
  sample_byte_lag, sample_seconds_lag, sample_once,
}

abbrev pub or_else {ℓ} : {A : Type ℓ} → Option A → Option A → Option A
or_else none old = old
or_else (some a) old = some a

-- The last lag that the rows report for a standby of this name.
abbrev pub last_lag : String → List StandbyRow → Option ℤ
last_lag k [] = none
last_lag k (row ∷ rows) =
    or_else (last_lag k rows)
      (if standby_name row.application_name == k then row.lag_bytes else none)

-- What a query has to say of a gauge: nothing, if it raised.
abbrev pub reported : {A B : Type 0} → (A → Option B) → Outcome A → Option B
reported f (ok a) = f a
reported f (raised _) = none

one_sample :
    (k name : String) (lag : Option ℤ) (samples : List (String × ℤ)) (last : Option ℤ)
    (gauge : Dict ℤ)
    → ((g : Dict ℤ) → lookup k (set_all samples g) ≡ or_else last (lookup k g))
    → lookup k (set_all (add_sample name lag samples) gauge)
      ≡ or_else (or_else last (if name == k then lag else none)) (lookup k gauge)
one_sample k name none samples last gauge later = ground (arith, later gauge)
one_sample k name (some lag) samples last gauge later =
    ground (arith, later (upsert name lag gauge), lookup-upsert name k lag gauge)

lookup-set_all :
    (k : String) (rows : List StandbyRow) (gauge : Dict ℤ)
    → lookup k (set_all (byte_lag_samples rows) gauge) ≡ or_else (last_lag k rows) (lookup k gauge)
unfolding byte_lag_samples
lookup-set_all k [] gauge = refl
lookup-set_all k (row ∷ rows) gauge =
    one_sample k (standby_name row.application_name) row.lag_bytes (byte_lag_samples rows)
      (last_lag k rows) gauge (lookup-set_all k rows)

module _ {F : Type 0} (fl : Floats F) where
  -- A sample sets the series of each standby to the last lag that the primary reports for it, and the
  -- seconds to the lag of the replica's last replay; a source that raises, a row without a lag or a
  -- replica without a replay leaves its gauge as it was, whatever the other source does.
  pub sample_once-gauges :
      (primary : Outcome (List StandbyRow)) (replica : Outcome (Option ℕ)) (now : ℕ) (g : Gauges F)
      (k : String)
      → (lookup k (sample_once fl primary replica now g).lag_bytes
          ≡ or_else (reported (last_lag k) primary) (lookup k g.lag_bytes))
        × ((sample_once fl primary replica now g).lag_seconds
            ≡ or_else (reported (λ t. seconds_lag_value fl t now) replica) g.lag_seconds)
  unfolding sample_once sample_byte_lag sample_seconds_lag
  sample_once-gauges (ok rows) (ok none) now g k = (lookup-set_all k rows g.lag_bytes, refl)
  sample_once-gauges (ok rows) (ok (some t)) now g k = (lookup-set_all k rows g.lag_bytes, refl)
  sample_once-gauges (ok rows) (raised e) now g k = (lookup-set_all k rows g.lag_bytes, refl)
  sample_once-gauges (raised e) (ok none) now g k = (refl, refl)
  sample_once-gauges (raised e) (ok (some t)) now g k = (refl, refl)
  sample_once-gauges (raised e) (raised _) now g k = (refl, refl)
