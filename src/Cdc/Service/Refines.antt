-- ===== src/Cdc/Service/Refines.antt =====
-- The detailed loop waits and restarts as Cdc/Supervisor says.
use fleet_telemetry_system.Prelude.{
  Bool, true, false, List, [], ◌∷◌, ◌++◌, ◌≡◌, refl, sym, ap, ◌∙◌, Outcome, if◌then◌else◌,
}
use fleet_telemetry_system.Text.{Text}
use fleet_telemetry_system.Cdc.Decode.{Consumer}
use fleet_telemetry_system.Cdc.Supervisor.{
  Act, Pass, not_ready, attempt, Stop, in_run, in_wait, not_yet, supervise, run_forever,
}
use fleet_telemetry_system.Cdc.Service.{
  Round, Supervisor, Step, go_on, at_start, is_ready, publication_exists, attempt_stream,
  wait_for_publication, after_attempt, on_probe, one_pass, supervise_rounds, run_service,
}

module _ {F : Type 0} (float_of : Text → Outcome F) where
  pass_of : Round → Outcome Bool × Consumer F → Pass
  pass_of r (probe, s) =
      if is_ready probe then attempt (attempt_stream float_of r s).streaming else not_ready

  -- What the primary and the consumers do in the passes, as Cdc/Supervisor takes it.
  unfoldable pub observed : List Round → Supervisor F → List (Pass × Stop)
  unfolding pass_of one_pass
  observed [] v = []
  observed (r ∷ rounds) v =
      (pass_of r (publication_exists r.present v.consumer), r.stop)
      ∷ observed rounds (one_pass float_of r v).2

  -- One pass of the two loops, given that they agree on what follows.
  abbrev Agrees : List Act × Bool × Supervisor F → List Round → List Act → Type 0
  Agrees (acts, true, v) rounds all =
      all ≡ acts ++ supervise v.ready_backoff v.stream_backoff (observed rounds v)
  Agrees (acts, false, v) rounds all = all ≡ acts

  on_probe-Agrees :
      (r : Round) (rounds : List Round) (p : Outcome Bool × Consumer F) (v : Supervisor F)
      → Agrees (on_probe float_of r p v) rounds (
          supervise v.ready_backoff v.stream_backoff
            ((pass_of r p, r.stop) ∷ observed rounds (on_probe float_of r p v).2))
  unfolding supervise on_probe wait_for_publication after_attempt pass_of
  on_probe-Agrees r rounds (probe, s) v = go r.stop refl (is_ready probe) refl
    where
      go :
          (t : Stop)
          → r.stop ≡ t
          → (b : Bool) → is_ready probe ≡ b
          → Agrees (on_probe float_of r (probe, s) v) rounds (
              supervise v.ready_backoff v.stream_backoff (
                (pass_of r (probe, s), r.stop)
                ∷ observed rounds (on_probe float_of r (probe, s) v).2))
      go in_run h true k = rw (h, k) refl
      go in_wait h true k = rw (h, k) refl
      go not_yet h true k = rw (h, k) refl
      go in_run h false k = rw (h, k) refl
      go in_wait h false k = rw (h, k) refl
      go not_yet h false k = rw (h, k) refl

  go_on-Agrees :
      (loop : Supervisor F → List Act × Supervisor F) (rounds : List Round) (step : Step F)
      (all : List Act)
      → ((v : Supervisor F)
          → (loop v).0 ≡ supervise v.ready_backoff v.stream_backoff (observed rounds v))
      → Agrees step rounds all
      → (go_on loop step).0 ≡ all
  go_on-Agrees loop rounds (acts, true, v) all later h = ap (λ l. acts ++ l) (later v) ∙ sym h
  go_on-Agrees loop rounds (acts, false, v) all later h = sym h

  supervise_rounds-supervise :
      (rounds : List Round) (v : Supervisor F)
      → (supervise_rounds float_of rounds v).0
        ≡ supervise v.ready_backoff v.stream_backoff (observed rounds v)
  unfolding supervise_rounds observed one_pass supervise
  supervise_rounds-supervise [] v = refl
  supervise_rounds-supervise (r ∷ rounds) v =
      go_on-Agrees (supervise_rounds float_of rounds) rounds (one_pass float_of r v) _
        (supervise_rounds-supervise rounds)
        (on_probe-Agrees r rounds (publication_exists r.present v.consumer) v)

  -- The service, with its real consumers and probes, waits and runs consumers, with the outcome of each
  -- run, exactly as the abstract supervisor does that is given only how each pass came out and when
  -- `stop` was set.
  pub run_service-run_forever :
      (rounds : List Round) (s : Consumer F)
      → (run_service float_of rounds s).0 ≡ run_forever (observed rounds (at_start s))
  unfolding run_service run_forever
  run_service-run_forever rounds s = supervise_rounds-supervise rounds (at_start s)
