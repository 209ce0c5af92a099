-- ===== src/Cdc/Supervisor.antt =====
-- `run_forever` of app/cdc_consumer.py: readiness, restarts and their backoff, in tenths of a second.
pub mod Backoff
use Prim.Native.Nat.{min}
use fleet_telemetry_system.Prelude.{
  ℕ, ◌+◌, ◌*◌, Bool, true, false, ◌&&◌, List, [], ◌∷◌, if◌then◌else◌,
}

abbrev pub backoff_initial : ℕ
backoff_initial = 5

abbrev pub backoff_max : ℕ
backoff_max = 100

-- `min(backoff * 2, _BACKOFF_MAX)`
unfoldable pub grown : ℕ → ℕ
grown backoff = min (backoff * 2) backoff_max

-- One pass of the loop, by what the primary does: the probe fails or finds no publication; or a
-- consumer runs, which did or did not get to streaming before it failed or ended.
pub data Pass : Type 0 where
  not_ready : Pass
  attempt : (streamed : Bool) → Pass

-- When `stop` is set within a pass: during the run, during the wait at its end, or not at all.
pub data Stop : Type 0 where
  in_run in_wait not_yet : Stop

-- What the supervisor does, in order: a consumer is run, or it waits.
pub data Act : Type 0 where
  ran : (streamed : Bool) → Act
  waited : ℕ → Act

abbrev pub stream_backoff_after : Bool → ℕ → ℕ
stream_backoff_after streamed backoff = if streamed then backoff_initial else backoff

-- The loop from its head, given the two backoffs. Where the list has ended, `stop` was set before the
-- head of the loop.
unfoldable pub supervise : ℕ → ℕ → List (Pass × Stop) → List Act
unfolding grown
supervise ready stream [] = []
supervise ready stream ((not_ready, not_yet) ∷ passes) =
    waited ready ∷ supervise (grown ready) stream passes
supervise ready stream ((not_ready, _) ∷ passes) = waited ready ∷ []
supervise ready stream ((attempt streamed, in_run) ∷ passes) = ran streamed ∷ []
supervise ready stream ((attempt streamed, in_wait) ∷ passes) =
    ran streamed ∷ waited (stream_backoff_after streamed stream) ∷ []
supervise ready stream ((attempt streamed, not_yet) ∷ passes) =
    let backoff = stream_backoff_after streamed stream in
    ran streamed ∷ waited backoff ∷ supervise backoff_initial (grown backoff) passes

unfoldable pub run_forever : List (Pass × Stop) → List Act
unfolding supervise
run_forever passes = supervise backoff_initial backoff_initial passes
