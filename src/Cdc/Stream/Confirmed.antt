-- ===== src/Cdc/Stream/Confirmed.antt =====
-- The positions that the stream confirms to the primary.
use fleet_telemetry_system.Prelude.{
  Bool, Option, none, some, true, false, List, [], ◌∷◌, ◌≡◌, refl, All, arith, Outcome, redis_error,
  Exception,
}
use fleet_telemetry_system.Prelude.Int.{ℤ, le_ℤ, max_ℤ, le_ℤ_refl, le_ℤ_trans, le_ℤ-max_left}
use fleet_telemetry_system.Prelude.Keeps.{Keeps, Keeps-pure, Keeps-lift, Keeps-bind}
use fleet_telemetry_system.Text.{Text}
use fleet_telemetry_system.Cdc.Event.{Row, EventType, event_type_of, build_payload}
use fleet_telemetry_system.Cdc.Decode.{
  Consumer, StatusUpdate, call, call_with, publish, message, emit_as,
}
use fleet_telemetry_system.Cdc.Stream.{Poll, now, advance_lsn, run}
use fleet_telemetry_system.Cdc.Stream.Steps.{KeepsSteps, Keeps-run, received}

-- The updates, the latest first, report one position each, at most `lsn`, and each one at most the
-- position of the next.
unfoldable pub ConfirmsTo : ℤ → List StatusUpdate → Type 0
ConfirmsTo lsn [] = Unit
ConfirmsTo lsn (u ∷ us) =
    (le_ℤ u.written lsn ≡ true)
    × (u.flushed ≡ u.written)
    × (u.applied ≡ u.written)
    × ConfirmsTo u.written us

unfoldable pub IsConfirmed : {F : Type 0} → Consumer F → Type 0
unfolding ConfirmsTo
IsConfirmed s = ConfirmsTo s.last_lsn s.sent

ConfirmsTo-later :
    (a b : ℤ) (us : List StatusUpdate) → le_ℤ a b ≡ true → ConfirmsTo a us → ConfirmsTo b us
unfolding ConfirmsTo
ConfirmsTo-later a b [] h k = tt
ConfirmsTo-later a b (u ∷ us) h (k, f, p, rest) = (le_ℤ_trans u.written a b k h, f, p, rest)

-- The updates are in order, and the position is not beyond `bound`.
unfoldable pub IsWithin : {F : Type 0} → ℤ → Consumer F → Type 0
unfolding IsConfirmed
IsWithin bound s = IsConfirmed s × (le_ℤ s.last_lsn bound ≡ true)

le_ℤ-max :
    (a b bound : ℤ) → le_ℤ a bound ≡ true → le_ℤ b bound ≡ true → le_ℤ (max_ℤ a b) bound ≡ true
le_ℤ-max a b bound h k = ground (arith, h, k)

module _ {F : Type 0} (bound : ℤ) where
  call_with-IsWithin :
      (l : List Bool) (e : Exception) (s : Consumer F)
      → IsWithin bound s
      → IsWithin bound (call_with l e s).1
  unfolding IsWithin
  call_with-IsWithin [] e s h = h
  call_with-IsWithin (true ∷ l) e s h = h
  call_with-IsWithin (false ∷ l) e s h = h

  Keeps-call : (e : Exception) → Keeps (IsWithin {F = F} bound) (call e)
  unfolding call
  Keeps-call e = record { at = λ s h. call_with-IsWithin s.outages e s h }

  Keeps-emit_as :
      (float_of : Text → Outcome F) (t : Option EventType) (name : Text) (row : Row)
      → Keeps (IsWithin bound) (emit_as float_of t name row)
  unfolding emit_as message publish IsWithin
  Keeps-emit_as float_of none name row = Keeps-pure tt
  Keeps-emit_as float_of (some t) name row =
      Keeps-bind (Keeps-lift (build_payload float_of name row)) (λ payload.
        Keeps-bind (record { at = λ s h. h })
          (λ m. Keeps-bind (Keeps-call redis_error) (λ _. record { at = λ s h. h })))

  steps : (float_of : Text → Outcome F) → KeepsSteps float_of (IsWithin bound)
  unfolding IsWithin now ConfirmsTo
  steps float_of = record {
    calls = Keeps-call;
    clock = record { at = λ s h. h };
    caches = λ entry. record { at = λ s h. h };
    emits = λ name. Keeps-emit_as float_of (event_type_of name) name;
    confirming = λ t. record { at = λ s (h, le). ((le_ℤ_refl s.last_lsn, refl, refl, h), le) };
    confirmed = λ t. record { at = λ s h. h };
    starts = λ t. record { at = λ s h. h };
    creates = record { at = λ s h. h };
  }

  advances : (lsn : ℤ) → le_ℤ lsn bound ≡ true → Keeps (IsWithin {F = F} bound) (advance_lsn lsn)
  unfolding IsWithin advance_lsn
  advances lsn k = record {
    at = λ s (h, le). (
      ConfirmsTo-later s.last_lsn (max_ℤ s.last_lsn lsn) s.sent (le_ℤ-max_left s.last_lsn lsn) h,
      le_ℤ-max s.last_lsn lsn bound le k,
    );
  }

  -- A run of the consumer, however it ends, leaves the updates that it sent in order: the confirmed
  -- position never goes back, and each update reports one position as written, flushed and applied.
  -- None is beyond the largest of the position before the run and the positions that the messages of the
  -- primary report: each is at most any bound on these. It is assumed that the updates before the run
  -- are in order, none beyond the position before it.
  pub run-IsConfirmed :
      (float_of : Text → Outcome F) (connected enters : Bool) (polls : List Poll) (s : Consumer F)
      → IsConfirmed s
      → le_ℤ s.last_lsn bound ≡ true
      → All (λ lsn. le_ℤ lsn bound ≡ true) (received polls)
      → IsConfirmed (run float_of connected enters polls s).1
        × ConfirmsTo bound (run float_of connected enters polls s).1.sent
  unfolding IsWithin
  run-IsConfirmed float_of connected enters polls s h le all =
      let s' = (run float_of connected enters polls s).1 in
      let (confirmed, within) =
        (Keeps-run (steps float_of) (λ lsn. le_ℤ lsn bound ≡ true) advances connected enters polls
            all).at
          s (h, le) in
      (confirmed, ConfirmsTo-later s'.last_lsn bound s'.sent within confirmed)
