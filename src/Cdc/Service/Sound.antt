-- ===== src/Cdc/Service/Sound.antt =====
-- What the service publishes over all its restarts.
use fleet_telemetry_system.Prelude.{
  Bool, true, false, List, [], ◌∷◌, inl, inr, refl, sym, All, Outcome, ok, raised, Exception,
  database_error, if◌then◌else◌,
}
use mathlib.Core.Path.{subst}
use fleet_telemetry_system.Prelude.Keeps.{Keeps, Keeps-pure, Keeps-bind}
use fleet_telemetry_system.Text.{Text}
use fleet_telemetry_system.Cdc.Event.{Envelope, event_type_of}
use fleet_telemetry_system.Cdc.Decode.{Consumer, call, call_with, emit_as}
use fleet_telemetry_system.Cdc.Decode.Adds.{Adds}
use fleet_telemetry_system.Cdc.Decode.Published.{IsSound, Publishes-emit_as}
use fleet_telemetry_system.Prelude.Int.{ℤ}
use fleet_telemetry_system.Cdc.Stream.{now, advance_lsn}
use fleet_telemetry_system.Cdc.Stream.Steps.{
  KeepsSteps, Keeps-ensure_slot, Keeps-run, received, All-any,
}
use fleet_telemetry_system.Cdc.Supervisor.{Act, Stop, in_run, in_wait, not_yet}
use fleet_telemetry_system.Cdc.Service.{
  Round, Supervisor, Step, go_on, at_start, is_ready, publication_exists, new_consumer,
  attempt_stream, wait_for_publication, after_attempt, on_probe, one_pass, supervise_rounds,
  run_service,
}

-- A property that the consumer's steps and a new consumer keep is kept by the service.
module _ {F : Type 0} {float_of : Text → Outcome F} {P : Consumer F → Type 0}
    (steps : KeepsSteps float_of P) (advances : (lsn : ℤ) → Keeps P (advance_lsn lsn))
    (renews : (s : Consumer F) → P s → P (new_consumer s)) where
  kept_by_probe : (present : Bool) → Keeps P (publication_exists present)
  unfolding publication_exists
  kept_by_probe present = Keeps-bind (steps.calls database_error) (λ _. Keeps-pure present)

  kept_by_attempt : (r : Round) (s : Consumer F) → P s → P (attempt_stream float_of r s)
  unfolding attempt_stream
  kept_by_attempt r s h =
      (Keeps-bind (Keeps-ensure_slot steps) (λ _.
          Keeps-run steps (λ _. Unit) (λ lsn _. advances lsn) r.connected r.enters r.polls
            (All-any (received r.polls)))).at
        (new_consumer s) (renews s h)

  kept_by_wait :
      (stop : Stop) (v : Supervisor F) → P v.consumer → P (wait_for_publication stop v).2.consumer
  unfolding wait_for_publication
  kept_by_wait in_run v h = h
  kept_by_wait in_wait v h = h
  kept_by_wait not_yet v h = h

  kept_after_attempt :
      (stop : Stop) (v : Supervisor F) → P v.consumer → P (after_attempt stop v).2.consumer
  unfolding after_attempt
  kept_after_attempt in_run v h = h
  kept_after_attempt in_wait v h = h
  kept_after_attempt not_yet v h = h

  either :
      (b : Bool) (one other : Step F)
      → P one.2.consumer
      → P other.2.consumer
      → P (if b then one else other).2.consumer
  either true one other h k = h
  either false one other h k = k

  kept_by_pass :
      (r : Round) (v : Supervisor F) → P v.consumer → P (one_pass float_of r v).2.consumer
  unfolding one_pass on_probe
  kept_by_pass r v h =
      let s = (publication_exists r.present v.consumer).1 in
      let probed = (kept_by_probe r.present).at v.consumer h in
      either (is_ready (publication_exists r.present v.consumer).0) _ _
        (kept_after_attempt r.stop _ (kept_by_attempt r s probed)) (kept_by_wait r.stop _ probed)

  kept_by_loop :
      (loop : Supervisor F → List Act × Supervisor F) (step : Step F)
      → ((v : Supervisor F) → P v.consumer → P (loop v).1.consumer)
      → P step.2.consumer
      → P (go_on loop step).1.consumer
  kept_by_loop loop (acts, true, v) later h = later v h
  kept_by_loop loop (acts, false, v) later h = h

  kept_by_service :
      (rounds : List Round) (v : Supervisor F)
      → P v.consumer
      → P (supervise_rounds float_of rounds v).1.consumer
  unfolding supervise_rounds
  kept_by_service [] v h = h
  kept_by_service (r ∷ rounds) v h =
      kept_by_loop (supervise_rounds float_of rounds) (one_pass float_of r v)
        (kept_by_service rounds) (kept_by_pass r v h)

module _ {F : Type 0} where
  abbrev pub AllSound : Consumer F → Type 0
  AllSound s = All IsSound s.published

  call-AllSound :
      (l : List Bool) (e : Exception) (s : Consumer F) → AllSound s → AllSound (call_with l e s).1
  call-AllSound [] e s h = h
  call-AllSound (true ∷ l) e s h = h
  call-AllSound (false ∷ l) e s h = h

  Adds-AllSound :
      {A : Type 0} (l : List (Envelope F)) (r : Outcome A × Consumer F)
      → Adds IsSound l r
      → All IsSound l
      → AllSound r.1
  unfolding Adds
  Adds-AllSound l (ok a, s) (inl same) h = subst (All IsSound) (sym same) h
  Adds-AllSound l (ok a, s) (inr (e, more, sound)) h = subst (All IsSound) (sym more) (sound, h)
  Adds-AllSound l (raised x, s) same h = subst (All IsSound) (sym same) h

  sound_steps : (float_of : Text → Outcome F) → KeepsSteps float_of AllSound
  unfolding call now advance_lsn
  sound_steps float_of = record {
    calls = λ e. record { at = λ s h. call-AllSound s.outages e s h };
    clock = record { at = λ s h. h };
    caches = λ entry. record { at = λ s h. h };
    emits = λ name row. record {
      at = λ s h.
          Adds-AllSound s.published (emit_as float_of (event_type_of name) name row s)
            ((Publishes-emit_as float_of name row (event_type_of name) refl).at s) h;
    };
    confirming = λ t. record { at = λ s h. h };
    confirmed = λ t. record { at = λ s h. h };
    starts = λ t. record { at = λ s h. h };
    creates = record { at = λ s h. h };
  }

  -- Whatever bytes the primary sends in whatever passes, and whichever calls fail: if all events on the
  -- channel were sound, then all are after the service has run, over any number of restarts. A sound
  -- event has the type of its payload, no column that pgoutput left out, and no empty carrier.
  pub run_service-AllSound :
      (float_of : Text → Outcome F) (rounds : List Round) (s : Consumer F)
      → AllSound s
      → AllSound (run_service float_of rounds s).1.consumer
  unfolding run_service new_consumer advance_lsn
  run_service-AllSound float_of rounds s h =
      kept_by_service (sound_steps float_of) (λ lsn. record { at = λ s k. k }) (λ s k. k) rounds
        (at_start s) h
