-- ===== src/Cdc/Supervisor/Backoff.antt =====
-- How long the supervisor waits, and that it does not give up.

use fleet_telemetry_system.Prelude.{
  ℕ, ◌≤◌, Bool, true, false, List, [], ◌∷◌, ◌≡◌, refl, ap, arith, count, All, map, length,
}
use fleet_telemetry_system.Cdc.Supervisor.{
  backoff_initial, backoff_max, grown, Pass, not_ready, attempt, Stop, in_run, in_wait, not_yet,
  Act, ran, waited, stream_backoff_after, supervise, run_forever,
}

abbrev pub IsBounded : Act → Type 0
IsBounded (ran _) = Unit
IsBounded (waited t) = (backoff_initial ≤ t) × (t ≤ backoff_max)

grown-bounds : (b : ℕ) → backoff_initial ≤ b → (backoff_initial ≤ grown b) × (grown b ≤ backoff_max)
unfolding grown
grown-bounds b h = ground arith

supervise-IsBounded :
    (ready stream : ℕ) (passes : List (Pass × Stop))
    → (backoff_initial ≤ ready) × (ready ≤ backoff_max)
    → (backoff_initial ≤ stream) × (stream ≤ backoff_max)
    → All IsBounded (supervise ready stream passes)
unfolding supervise
supervise-IsBounded ready stream [] r s = tt
supervise-IsBounded ready stream ((not_ready, not_yet) ∷ passes) r s =
    (r, supervise-IsBounded (grown ready) stream passes (grown-bounds ready r.0) s)
supervise-IsBounded ready stream ((not_ready, in_run) ∷ passes) r s = (r, tt)
supervise-IsBounded ready stream ((not_ready, in_wait) ∷ passes) r s = (r, tt)
supervise-IsBounded ready stream ((attempt true, in_run) ∷ passes) r s = (tt, tt)
supervise-IsBounded ready stream ((attempt false, in_run) ∷ passes) r s = (tt, tt)
supervise-IsBounded ready stream ((attempt true, in_wait) ∷ passes) r s =
    (tt, ((omega arith, omega arith), tt))
supervise-IsBounded ready stream ((attempt false, in_wait) ∷ passes) r s = (tt, (s, tt))
supervise-IsBounded ready stream ((attempt true, not_yet) ∷ passes) r s = (
  tt,
  (
    (omega arith, omega arith),
    supervise-IsBounded backoff_initial (grown backoff_initial) passes (omega arith, omega arith)
        (grown-bounds backoff_initial (omega arith)),
  ),
)
supervise-IsBounded ready stream ((attempt false, not_yet) ∷ passes) r s = (
  tt,
  (
    s,
    supervise-IsBounded backoff_initial (grown stream) passes (omega arith, omega arith)
        (grown-bounds stream s.0),
  ),
)

-- Every wait of the supervisor is between half a second and ten seconds.
pub run_forever-IsBounded : (passes : List (Pass × Stop)) → All IsBounded (run_forever passes)
unfolding run_forever
run_forever-IsBounded passes =
    supervise-IsBounded backoff_initial backoff_initial passes (omega arith, omega arith)
      (omega arith, omega arith)

-- The consumers that passes run, each with whether it streamed.
abbrev pub attempts : List Pass → List Bool
attempts [] = []
attempts (not_ready ∷ passes) = attempts passes
attempts (attempt streamed ∷ passes) = streamed ∷ attempts passes

abbrev pub runs : List Act → List Bool
runs [] = []
runs (ran streamed ∷ acts) = streamed ∷ runs acts
runs (waited _ ∷ acts) = runs acts

abbrev pub is_wait : Act → Bool
is_wait (ran _) = false
is_wait (waited _) = true

abbrev pub unstopped : List Pass → List (Pass × Stop)
unstopped passes = map (λ p. (p, not_yet)) passes

supervise-unstopped :
    (ready stream : ℕ) (passes : List Pass)
    → (runs (supervise ready stream (unstopped passes)) ≡ attempts passes)
      × (count is_wait (supervise ready stream (unstopped passes)) ≡ length passes)
unfolding supervise
supervise-unstopped ready stream [] = (refl, refl)
supervise-unstopped ready stream (not_ready ∷ passes) =
    let (h, k) = supervise-unstopped (grown ready) stream passes in (h, omega (arith, k))
supervise-unstopped ready stream (attempt streamed ∷ passes) =
    let backoff = stream_backoff_after streamed stream in
    let (h, k) = supervise-unstopped backoff_initial (grown backoff) passes in
    (ap (λ l. streamed ∷ l) h, omega (arith, k))

-- While `stop` is not set the supervisor does not give up: whatever the passes before came to, each one
-- at which the publication is present runs a consumer, and each one ends in one wait.
pub run_forever-unstopped :
    (passes : List Pass)
    → (runs (run_forever (unstopped passes)) ≡ attempts passes)
      × (count is_wait (run_forever (unstopped passes)) ≡ length passes)
unfolding run_forever
run_forever-unstopped passes = supervise-unstopped backoff_initial backoff_initial passes
