-- ===== src/Cdc/Service/ColdStart.antt =====
-- The service before the publication is there.
use fleet_telemetry_system.Prelude.{
  Bool, true, false, List, [], ◌∷◌, ◌≡◌, refl, ◌∙◌, All, Outcome, database_error,
}
use fleet_telemetry_system.Prelude.Effects.{pure, continue, ◌>>=◌}
use fleet_telemetry_system.Text.{Text}
use fleet_telemetry_system.Cdc.Decode.{Consumer, call, call_with}
use fleet_telemetry_system.Cdc.Supervisor.{Act, Stop, in_run, in_wait, not_yet}
use fleet_telemetry_system.Cdc.Supervisor.Backoff.{is_wait}
use fleet_telemetry_system.Cdc.Service.{
  Round, Supervisor, go_on, at_start, is_ready, publication_exists, wait_for_publication, on_probe,
  one_pass, supervise_rounds, run_service,
}

module _ {F : Type 0} where
  -- Nothing but calls that may have failed.
  pub record IsUntouched (before after : Consumer F) : Type 0 where
    pub outages : List Bool
    pub same : after ≡ record before { outages = outages }

  IsUntouched-trans : (a b c : Consumer F) → IsUntouched a b → IsUntouched b c → IsUntouched a c
  IsUntouched-trans a b c h k = record { outages = k.outages; same = k.same ∙ rw (h.same) refl }

  Absent : Consumer F → Outcome Bool × Consumer F → Type 0
  Absent s (probe, s₁) = (is_ready probe ≡ false) × IsUntouched s s₁

  probe-Absent : (s : Consumer F) → Absent s (publication_exists false s)
  unfolding publication_exists call Absent ◌>>=◌
  probe-Absent s = go s.outages
    where
      go :
          (l : List Bool)
          → let (r, s₁) = call_with l database_error s in Absent s (continue r (λ _. pure false) s₁)
      go [] = (refl, record { outages = s.outages; same = refl })
      go (true ∷ l) = (refl, record { outages = l; same = refl })
      go (false ∷ l) = (refl, record { outages = l; same = refl })

  -- The acts are waits, and the consumer is untouched.
  abbrev pub Waits : Consumer F → List Act × Supervisor F → Type 0
  Waits s (acts, v) = All (λ a. is_wait a ≡ true) acts × IsUntouched s v.consumer

module _ {F : Type 0} (float_of : Text → Outcome F) where
  go_on-Waits :
      (loop : Supervisor F → List Act × Supervisor F) (s : Consumer F) (stop : Stop)
      (v : Supervisor F)
      → ((v : Supervisor F) → Waits v.consumer (loop v))
      → IsUntouched s v.consumer
      → Waits s (go_on loop (wait_for_publication stop v))
  unfolding wait_for_publication
  go_on-Waits loop s in_run v later h = ((refl, tt), h)
  go_on-Waits loop s in_wait v later h = ((refl, tt), h)
  go_on-Waits loop s not_yet v later h =
      let (waits, untouched) = later _ in
      ((refl, waits), IsUntouched-trans s v.consumer _ h untouched)

  supervise_rounds-Waits :
      (rounds : List Round) (v : Supervisor F)
      → All (λ r. r.present ≡ false) rounds
      → Waits v.consumer (supervise_rounds float_of rounds v)
  unfolding supervise_rounds one_pass on_probe Absent
  supervise_rounds-Waits [] v h = (tt, record { outages = v.consumer.outages; same = refl })
  supervise_rounds-Waits (r ∷ rounds) v (absent, h) =
      let (no_probe, untouched) = probe-Absent v.consumer in
      rw (absent, no_probe)
        (go_on-Waits (supervise_rounds float_of rounds) v.consumer r.stop _
          (λ w. supervise_rounds-Waits rounds w h) untouched)

  -- While the publication is not there the service only waits, however many passes there are, which
  -- probes fail and when it is stopped: no slot is created, no stream is started, nothing is published or
  -- confirmed, and the rest of the consumer's state stays, but for the failures that calls used up.
  pub run_service-Waits :
      (rounds : List Round) (s : Consumer F)
      → All (λ r. r.present ≡ false) rounds
      → Waits s (run_service float_of rounds s)
  unfolding run_service
  run_service-Waits rounds s h = supervise_rounds-Waits rounds (at_start s) h
