-- ===== src/ReplicationProbe/Main.antt =====
-- `main` of app/replication_probe.py: samples until a signal stops it.
use fleet_telemetry_system.Prelude.{
  Bool, true, false, List, [], ◌∷◌, ◌++◌, map, ◌≡◌, refl, All, Outcome, any,
}
use fleet_telemetry_system.Config.{Environ}
use fleet_telemetry_system.Models.Floats.{Floats}
use fleet_telemetry_system.Signals.{Signal, is_handled, handle, any-handle}
use fleet_telemetry_system.ReplicationProbe.{Tick, Gauges, run_forever}

-- A pass of the loop, and the signals that arrive in it.
pub record Pass : Type 0 where
  pub tick : Tick
  pub signals : List Signal

-- The samples of the loop, whose head asks whether `stop` is set.
unfoldable pub sampled : Bool → List Pass → List Tick
unfolding handle
sampled true passes = []
sampled false [] = []
sampled false (p ∷ passes) = p.tick ∷ sampled (handle p.signals false) passes

-- `early` arrive before the loop.
unfoldable pub main :
    {F : Type 0}
    → Floats F
    → Environ
    → List Signal
    → List Pass
    → Gauges F
    → Outcome (Unit {0}) × Gauges F
unfolding run_forever sampled handle
main fl env early passes g = run_forever fl env (sampled (handle early false) passes) g

abbrev pub IsCalm : Pass → Type 0
IsCalm p = any is_handled p.signals ≡ false

module _ (after : List Pass) (p : Pass) (h : any is_handled p.signals ≡ true) where
  sampled-stops :
      (before : List Pass)
      → All IsCalm before
      → sampled false (before ++ p ∷ after) ≡ map (λ q. q.tick) before ++ p.tick ∷ []
  unfolding sampled
  sampled-stops [] calm = rw (any-handle p.signals false, h) refl
  sampled-stops (b ∷ before) (quiet, calm) =
      rw (any-handle b.signals false, quiet, sampled-stops before calm) refl

-- The pass in which SIGTERM or SIGINT first arrives is the last one: the probe ends as it does after the
-- samples up to this one, whatever the sources would answer later.
pub main-run_forever :
    {F : Type 0} (fl : Floats F) (env : Environ) (early : List Signal) (before after : List Pass)
    (p : Pass) (g : Gauges F)
    → any is_handled early ≡ false
    → All IsCalm before
    → any is_handled p.signals ≡ true
    → main fl env early (before ++ p ∷ after) g
      ≡ run_forever fl env (map (λ q. q.tick) before ++ p.tick ∷ []) g
unfolding main
main-run_forever fl env early before after p g quiet calm h =
    rw (any-handle early false, quiet, sampled-stops after p h before calm) refl
