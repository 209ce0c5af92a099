-- ===== src/Cdc/Service/Backoff.antt =====
-- The waits of `run_forever` of app/cdc_consumer.py around its consumers, in closed form.
use Prim.Native.Nat.{min}
use native.Mathlib.Nat.{pow-suc}
use fleet_telemetry_system.Prelude.{
  ℕ, suc, ◌*◌, ◌^◌, true, false, List, [], ◌∷◌, ◌≡◌, refl, arith, Outcome,
}
use fleet_telemetry_system.Text.{Text}
use fleet_telemetry_system.Cdc.Decode.{Consumer}
use fleet_telemetry_system.Cdc.Supervisor.{
  Act, ran, waited, Pass, not_ready, attempt, Stop, in_run, in_wait, not_yet, grown, supervise,
  run_forever,
}
use fleet_telemetry_system.Cdc.Service.{Round, run_service, at_start}
use fleet_telemetry_system.Cdc.Service.Refines.{observed, run_service-run_forever}

-- Half a second, doubled `n` times, and at most ten seconds: in tenths of a second.
abbrev pub pause : ℕ → ℕ
pause n = min (5 * 2 ^ n) 100

-- The acts, after `misses` probes in a row that have found no publication, and where the next consumer
-- that does not get to streaming waits the `fails`-th pause. A probe that misses waits the pause of the
-- misses before it. After each consumer there is one wait, or the end: the shortest pause if it has
-- streamed, from which the fails are counted again, and the pause of the fails if it has not. Then the
-- misses are counted again.
abbrev pub Follows : ℕ → ℕ → List Act → Type 0
Follows misses fails [] = Unit
Follows misses fails (waited t ∷ acts) = (t ≡ pause misses) × Follows (suc misses) fails acts
Follows misses fails (ran streamed ∷ []) = Unit
Follows misses fails (ran streamed ∷ ran _ ∷ acts) = true ≡ false
Follows misses fails (ran true ∷ waited t ∷ acts) = (t ≡ pause 0) × Follows 0 1 acts
Follows misses fails (ran false ∷ waited t ∷ acts) = (t ≡ pause fails) × Follows 0 (suc fails) acts

grown-pause : (n : ℕ) → grown (pause n) ≡ pause (suc n)
unfolding grown
grown-pause n = omega (arith, pow-suc 2 n)

supervise-Follows :
    (misses fails : ℕ) (passes : List (Pass × Stop))
    → Follows misses fails (supervise (pause misses) (pause fails) passes)
unfolding supervise
supervise-Follows m f [] = tt
supervise-Follows m f ((not_ready, not_yet) ∷ passes) =
    rw (grown-pause m) (refl, supervise-Follows (suc m) f passes)
supervise-Follows m f ((not_ready, in_run) ∷ passes) = (refl, tt)
supervise-Follows m f ((not_ready, in_wait) ∷ passes) = (refl, tt)
supervise-Follows m f ((attempt _, in_run) ∷ passes) = tt
supervise-Follows m f ((attempt true, in_wait) ∷ passes) = (refl, tt)
supervise-Follows m f ((attempt false, in_wait) ∷ passes) = (refl, tt)
supervise-Follows m f ((attempt true, not_yet) ∷ passes) =
    (refl, rw (grown-pause 0) (supervise-Follows 0 1 passes))
supervise-Follows m f ((attempt false, not_yet) ∷ passes) =
    rw (grown-pause f) (refl, supervise-Follows 0 (suc f) passes)

module _ {F : Type 0} (float_of : Text → Outcome F) where
  -- Whatever the probes find and the consumers come to: each consumer that is run is followed by one wait
  -- or by the end; the wait is half a second if the consumer got to streaming, and doubles up to ten
  -- seconds over consumers in a row that did not; and the waits for the publication double likewise, from
  -- half a second again after each consumer.
  pub run_service-Follows :
      (rounds : List Round) (s : Consumer F) → Follows 0 0 (run_service float_of rounds s).0
  unfolding run_forever
  run_service-Follows rounds s =
      rw (run_service-run_forever float_of rounds s)
        (supervise-Follows 0 0 (observed float_of rounds (at_start s)))
