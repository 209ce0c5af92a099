-- ===== src/Cdc/Main.antt =====
-- `main` of app/cdc_consumer.py: the supervisor, until a signal stops it.
use fleet_telemetry_system.Prelude.{
  true, false, List, [], ◌∷◌, ◌++◌, map, map-append, ◌≡◌, ◌≢◌, refl, arith, Outcome, Bool-cases,
  inl, inr, any, any-append, if◌then◌else◌,
}
use fleet_telemetry_system.Text.{Text}
use fleet_telemetry_system.Cdc.Decode.{Consumer}
use fleet_telemetry_system.Cdc.Supervisor.{Act, Stop, in_run, in_wait, not_yet}
use fleet_telemetry_system.Cdc.Service.{
  Round, Supervisor, Step, go_on, wait_for_publication, after_attempt, on_probe, one_pass,
  supervise_rounds, run_service, publication_exists, at_start, is_ready,
}
use fleet_telemetry_system.Signals.{Signal, is_handled, handle, any-handle}

-- A pass of the loop, and the signals that arrive before its wait and in it. The `stop` of its round is
-- what the handlers make of them.
pub record Pass : Type 0 where
  pub round : Round
  pub before_wait : List Signal
  pub while_waiting : List Signal

-- When `stop` is set in a pass that begins without it.
unfoldable pub stop_in : Pass → Stop
unfolding handle
stop_in p =
    if handle p.before_wait false
    then in_run
    else if handle p.while_waiting false
    then in_wait
    else not_yet

abbrev pub handled : Pass → Round
handled p = record p.round { stop = stop_in p }

-- `main`, with the handlers installed.
unfoldable pub main :
    {F : Type 0} → (Text → Outcome F) → List Pass → Consumer F → List Act × Supervisor F
unfolding run_service stop_in
main float_of passes s = run_service float_of (map handled passes) s

stop_in-ne :
    (p : Pass) → any is_handled (p.before_wait ++ p.while_waiting) ≡ true → stop_in p ≢ not_yet
unfolding stop_in
stop_in-ne p h = ground (
  arith,
  any-handle p.before_wait false,
  any-handle p.while_waiting false,
  any-append is_handled p.before_wait p.while_waiting,
)

go_on-cong :
    {F : Type 0} (f g : Supervisor F → List Act × Supervisor F) (x : Step F)
    → ((v : Supervisor F) → f v ≡ g v)
    → go_on f x ≡ go_on g x
go_on-cong f g (acts, true, v) h = rw (h v) refl
go_on-cong f g (acts, false, v) h = refl

-- A pass in which `stop` is set is the last one.
go_on-stopped :
    {F : Type 0} (f g : Supervisor F → List Act × Supervisor F) (x : Step F)
    → x.1 ≡ false
    → go_on f x ≡ go_on g x
go_on-stopped f g (acts, true, v) h = cc
go_on-stopped f g (acts, false, v) h = refl

wait-stopped :
    {F : Type 0} (stop : Stop) (v : Supervisor F)
    → stop ≢ not_yet
    → (wait_for_publication stop v).1 ≡ false
unfolding wait_for_publication
wait-stopped in_run v h = refl
wait-stopped in_wait v h = refl
wait-stopped not_yet v h = absurd (h refl)

attempt-stopped :
    {F : Type 0} (stop : Stop) (v : Supervisor F)
    → stop ≢ not_yet
    → (after_attempt stop v).1 ≡ false
unfolding after_attempt
attempt-stopped in_run v h = refl
attempt-stopped in_wait v h = refl
attempt-stopped not_yet v h = absurd (h refl)

module _ {F : Type 0} (float_of : Text → Outcome F) where
  pass-stopped :
      (r : Round) (v : Supervisor F) → r.stop ≢ not_yet → (one_pass float_of r v).1 ≡ false
  unfolding one_pass on_probe
  pass-stopped r v h = elim (Bool-cases (is_ready (publication_exists r.present v.consumer).0)) [
    | inl ready ↦ rw ready (attempt-stopped r.stop _ h)
    | inr waits ↦ rw waits (wait-stopped r.stop _ h)
  ]

  rounds-stopped :
      (before after : List Round) (r : Round) (v : Supervisor F)
      → r.stop ≢ not_yet
      → supervise_rounds float_of (before ++ r ∷ after) v
        ≡ supervise_rounds float_of (before ++ r ∷ []) v
  unfolding supervise_rounds
  rounds-stopped [] after r v h =
      go_on-stopped (supervise_rounds float_of after) (supervise_rounds float_of [])
        (one_pass float_of r v) (pass-stopped r v h)
  rounds-stopped (b ∷ before) after r v h =
      go_on-cong (supervise_rounds float_of (before ++ r ∷ after))
        (supervise_rounds float_of (before ++ r ∷ [])) (one_pass float_of b v)
        (λ w. rounds-stopped before after r w h)

  -- The pass in which SIGTERM or SIGINT arrives is the last one: whatever would come after it, no other
  -- consumer is run, nothing more is waited for, and the process ends with the consumer as this pass
  -- leaves it.
  pub main-stops :
      (before after : List Pass) (p : Pass) (s : Consumer F)
      → any is_handled (p.before_wait ++ p.while_waiting) ≡ true
      → main float_of (before ++ p ∷ after) s ≡ main float_of (before ++ p ∷ []) s
  unfolding main run_service
  main-stops before after p s h =
      rw (map-append handled before (p ∷ after), map-append handled before (p ∷ []))
        (rounds-stopped (map handled before) (map handled after) (handled p) (at_start s)
          (stop_in-ne p h))
