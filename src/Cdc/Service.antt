-- ===== src/Cdc/Service.antt =====
-- `run_forever` of app/cdc_consumer.py around the consumer itself: `_publication_exists`, and in each
-- attempt a new `CdcConsumer` with `ensure_slot` and `run`. Cdc/Supervisor has its waits alone.
pub mod Refines
pub mod Backoff
pub mod ColdStart
pub mod Sound
use fleet_telemetry_system.Prelude.{
  ℕ, Bool, true, false, List, [], ◌∷◌, ◌++◌, Outcome, ok, raised, database_error, if◌then◌else◌,
}
use fleet_telemetry_system.Prelude.Int.{pos}
use fleet_telemetry_system.Prelude.Effects.{Effect, pure, ◌>>=◌, ◌>>◌}
use fleet_telemetry_system.Text.{Text}
use fleet_telemetry_system.Cdc.Decode.{Consumer, Consuming, call}
use fleet_telemetry_system.Cdc.Stream.{Poll, ensure_slot, run}
use fleet_telemetry_system.Cdc.Supervisor.{
  Act, ran, waited, Stop, in_run, in_wait, not_yet, backoff_initial, grown, stream_backoff_after,
}

-- What one pass of the loop finds: whether the publication is there, what the replication connection
-- does, and when `stop` is set.
pub record Round : Type 0 where
  pub present : Bool
  pub connected : Bool
  pub enters : Bool
  pub polls : List Poll
  pub stop : Stop

-- The variables of the loop. Between two passes, `consumer` is the one of the last attempt.
pub record Supervisor (F : Type 0) : Type 0 where
  pub ready_backoff : ℕ
  pub stream_backoff : ℕ
  pub consumer : Consumer F

-- What a pass does, whether another one follows, and the variables after it.
abbrev pub Step : Type 0 → Type 0
Step F = List Act × Bool × Supervisor F

abbrev pub go_on :
    {F : Type 0} → (Supervisor F → List Act × Supervisor F) → Step F → List Act × Supervisor F
go_on loop (acts, true, v) = let (later, v₁) = loop v in (acts ++ later, v₁)
go_on loop (acts, false, v) = (acts, v)

abbrev pub is_ready : Outcome Bool → Bool
is_ready (ok found) = found
is_ready (raised _) = false

module _ {F : Type 0} where
  unfoldable pub publication_exists : Bool → Consuming F Bool
  publication_exists present = call database_error >> pure present

  -- `CdcConsumer()`: the primary, Redis and the clock go on.
  unfoldable pub new_consumer : Consumer F → Consumer F
  new_consumer s = record s {
    streaming = false;
    relations = [];
    last_lsn = pos 0;
    last_feedback = 0;
  }

  abbrev pub at_start : Consumer F → Supervisor F
  at_start s = record {
    ready_backoff = backoff_initial;
    stream_backoff = backoff_initial;
    consumer = s;
  }

  unfoldable pub wait_for_publication : Stop → Supervisor F → Step F
  unfolding grown
  wait_for_publication not_yet v =
      (waited v.ready_backoff ∷ [], true, record v { ready_backoff = grown v.ready_backoff })
  wait_for_publication in_run v = (waited v.ready_backoff ∷ [], false, v)
  wait_for_publication in_wait v = (waited v.ready_backoff ∷ [], false, v)

  abbrev pub next_backoff : Supervisor F → ℕ
  next_backoff v = stream_backoff_after v.consumer.streaming v.stream_backoff

  unfoldable pub after_attempt : Stop → Supervisor F → Step F
  unfolding grown
  after_attempt in_run v = (ran v.consumer.streaming ∷ [], false, v)
  after_attempt in_wait v = (
    ran v.consumer.streaming ∷ waited (next_backoff v) ∷ [],
    false,
    record v { stream_backoff = next_backoff v },
  )
  after_attempt not_yet v = (
    ran v.consumer.streaming ∷ waited (next_backoff v) ∷ [],
    true,
    record v { stream_backoff = grown (next_backoff v) },
  )

module _ {F : Type 0} (float_of : Text → Outcome F) where
  -- The `try` block: an exception ends it, and is only logged.
  unfoldable pub attempt_stream : Round → Consumer F → Consumer F
  unfolding new_consumer ensure_slot run
  attempt_stream r s =
      ((ensure_slot >> run float_of r.connected r.enters r.polls) (new_consumer s)).1

  unfoldable pub on_probe : Round → Outcome Bool × Consumer F → Supervisor F → Step F
  unfolding attempt_stream wait_for_publication after_attempt
  on_probe r (probe, s) v =
      if is_ready probe
      then after_attempt r.stop (record {
        ready_backoff = backoff_initial;
        stream_backoff = v.stream_backoff;
        consumer = attempt_stream r s;
      })
      else wait_for_publication r.stop (record v { consumer = s })

  unfoldable pub one_pass : Round → Supervisor F → Step F
  unfolding on_probe publication_exists
  one_pass r v = on_probe r (publication_exists r.present v.consumer) v

  -- The loop. Where the list has ended, `stop` was set before the head of the loop.
  unfoldable pub supervise_rounds : List Round → Supervisor F → List Act × Supervisor F
  unfolding one_pass
  supervise_rounds [] v = ([], v)
  supervise_rounds (r ∷ rounds) v = go_on (supervise_rounds rounds) (one_pass r v)

  unfoldable pub run_service : List Round → Consumer F → List Act × Supervisor F
  unfolding supervise_rounds
  run_service rounds s = supervise_rounds rounds (at_start s)
