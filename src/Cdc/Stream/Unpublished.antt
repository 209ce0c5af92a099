-- ===== src/Cdc/Stream/Unpublished.antt =====
-- What a run confirms when a change could not be decoded or published.

use fleet_telemetry_system.Prelude.{
  ◌^◌, Bool, true, false, List, [], ◌∷◌, ◌≡◌, refl, ◌∙◌, Outcome, ok, raised, Exception,
  redis_error, Option, none, some, arith,
}
use fleet_telemetry_system.Prelude.Int.{ℤ, pos, le_ℤ, le_ℤ-max_right}
use fleet_telemetry_system.Prelude.Effects.{◌>>=◌}
use fleet_telemetry_system.Text.{Text, codes}
use fleet_telemetry_system.Cdc.Bytes.{Bytes, slice, unpack_from, length_ℤ}
use fleet_telemetry_system.Cdc.Decode.{
  Consumer, StatusUpdate, call, call_with, publish, emit_as, decode_pgoutput,
}
use fleet_telemetry_system.Cdc.Decode
use fleet_telemetry_system.Prelude.Keeps.{Keeps, Keeps-pure, Keeps-lift, Keeps-bind}
use fleet_telemetry_system.Cdc.Event.{Row, EventType, event_type_of, build_payload}
use fleet_telemetry_system.Cdc.Stream.Steps.{KeepsSteps, Keeps-decode_pgoutput}
use fleet_telemetry_system.Cdc.Decode.Adds.{Adds}
use fleet_telemetry_system.Cdc.Decode.Published.{IsSound, decode_pgoutput-Adds}
use fleet_telemetry_system.Cdc.Stream.{
  Poll, message, now, confirm, feedback_at, send_feedback, advance_lsn, finally, on_xlog_data,
  on_copy_message, pump, status_at,
}

module _ {F : Type 0} where
  -- A forced feedback whose calls succeed reports the position reached, once.
  forced-sent :
      (s : Consumer F)
      → s.outages ≡ []
      → (send_feedback true s).1.sent ≡ status_at (s.time s.readings) s.last_lsn ∷ s.sent
  unfolding send_feedback now feedback_at confirm call ◌>>=◌
  forced-sent s h = ground arith

  forced-published :
      (s : Consumer F) → s.outages ≡ [] → (send_feedback true s).1.published ≡ s.published
  unfolding send_feedback now feedback_at confirm call ◌>>=◌
  forced-published s h = ground arith

module _ {F : Type 0} (float_of : Text → Outcome F) where
  Reached : ℤ → Consumer F → Type 0
  Reached lsn s = le_ℤ lsn s.last_lsn ≡ true

  call_with-Reached :
      (lsn : ℤ) (l : List Bool) (e : Exception) (s : Consumer F)
      → Reached lsn s
      → Reached lsn (call_with l e s).1
  unfolding Reached
  call_with-Reached lsn [] e s h = h
  call_with-Reached lsn (true ∷ l) e s h = h
  call_with-Reached lsn (false ∷ l) e s h = h

  Keeps-call : (lsn : ℤ) (e : Exception) → Keeps (Reached lsn) (call e)
  unfolding call
  Keeps-call lsn e = record { at = λ s h. call_with-Reached lsn s.outages e s h }

  Keeps-emit_as :
      (lsn : ℤ) (t : Option EventType) (name : Text) (row : Row)
      → Keeps (Reached lsn) (emit_as float_of t name row)
  unfolding emit_as publish Reached Decode.message
  Keeps-emit_as lsn none name row = Keeps-pure tt
  Keeps-emit_as lsn (some t) name row =
      Keeps-bind (Keeps-lift (build_payload float_of name row)) (λ payload.
        Keeps-bind (record { at = λ s h. h })
          (λ m. Keeps-bind (Keeps-call lsn redis_error) (λ _. record { at = λ s h. h })))

  steps : (lsn : ℤ) → KeepsSteps float_of (Reached lsn)
  unfolding Reached now advance_lsn
  steps lsn = record {
    calls = Keeps-call lsn;
    clock = record { at = λ s h. h };
    caches = λ entry. record { at = λ s h. h };
    emits = λ name. Keeps-emit_as lsn (event_type_of name) name;
    confirming = λ t. record { at = λ s h. h };
    confirmed = λ t. record { at = λ s h. h };
    starts = λ t. record { at = λ s h. h };
    creates = record { at = λ s h. h };
  }

  raised-published :
      (s : Consumer F) (r : Outcome (Unit {0}) × Consumer F) (e : Exception)
      → r.0 ≡ raised e
      → Adds IsSound s.published r
      → r.1.published ≡ s.published
  unfolding Adds
  raised-published s (ok a, s₁) e h k = cc
  raised-published s (raised x, s₁) e h k = k

  -- What the message of a change runs, after its position is noted.
  unfoldable pub decoding : Bytes → ℤ → Consumer F → Outcome (Unit {0}) × Consumer F
  decoding msg wal_end s =
      decode_pgoutput float_of (slice msg (pos 25) (length_ℤ msg)) (advance_lsn wal_end s).1

  decoding-Reached :
      (msg : Bytes) (wal_end : ℤ) (s : Consumer F) → Reached wal_end (decoding msg wal_end s).1
  unfolding decoding Reached advance_lsn
  decoding-Reached msg wal_end s =
      (Keeps-decode_pgoutput (steps wal_end) (slice msg (pos 25) (length_ℤ msg))).at
        (advance_lsn wal_end s).1 (le_ℤ-max_right s.last_lsn wal_end)

  on_copy_message-xlog :
      (msg : Bytes) (s : Consumer F) (wal_end : ℤ)
      → slice msg (pos 0) (pos 1) ≡ codes "w"
      → unpack_from 8 (2 ^ 63) msg (pos 9) ≡ ok wal_end
      → on_copy_message float_of msg s ≡ decoding msg wal_end s
  unfolding on_copy_message on_xlog_data decoding advance_lsn ◌>>=◌
  on_copy_message-xlog msg s wal_end tag lsn = ground (arith, tag, lsn)

  pump-raised :
      (msg : Bytes) (polls : List Poll) (s : Consumer F) (r : Outcome (Unit {0}) × Consumer F)
      (e : Exception)
      → on_copy_message float_of msg s ≡ r
      → r.0 ≡ raised e
      → pump float_of (message msg ∷ polls) s ≡ (raised e, r.1)
  unfolding pump ◌>>=◌
  pump-raised msg polls s (ok a, s₁) e h k = cc
  pump-raised msg polls s (raised x, s₁) e h k = ground (arith, h, k)

  -- A run that raised with no event published, and whose last update still confirms `lsn`.
  pub record ConfirmsUnpublished (lsn : ℤ) (e : Exception) (s : Consumer F)
      (r : Outcome (Unit {0}) × Consumer F) : Type 0 where
    raises : r.0 ≡ raised e
    nothing_published : r.1.published ≡ s.published
    latest :
        (u : StatusUpdate) × (us : List StatusUpdate) × (r.1.sent ≡ u ∷ us)
        × (le_ℤ lsn u.written ≡ true)

  -- When the change in an XLogData message up to `wal_end` cannot be decoded or published, for
  -- instance since Redis is away, the loop raises, and no event is published. The update that `run`
  -- sends on the way out still confirms `wal_end`, if the calls to the primary then succeed.
  pub run-ConfirmsUnpublished :
      (msg : Bytes) (polls : List Poll) (s : Consumer F) (wal_end : ℤ) (e : Exception)
      → slice msg (pos 0) (pos 1) ≡ codes "w"
      → unpack_from 8 (2 ^ 63) msg (pos 9) ≡ ok wal_end
      → (decoding msg wal_end s).0 ≡ raised e
      → (decoding msg wal_end s).1.outages ≡ []
      → ConfirmsUnpublished wal_end e s
          (finally (pump float_of (message msg ∷ polls)) (send_feedback true) s)
  unfolding finally decoding advance_lsn Reached
  run-ConfirmsUnpublished msg polls s wal_end e tag lsn fails clear =
      let d = decoding msg wal_end s in
      let body = pump-raised msg polls s d e (on_copy_message-xlog msg s wal_end tag lsn) fails in
      rw body (record {
        raises = refl;
        nothing_published =
            forced-published d.1 clear
            ∙ raised-published s d e fails
                (decode_pgoutput-Adds float_of _ (advance_lsn wal_end s).1);
        latest = (
          status_at (d.1.time d.1.readings) d.1.last_lsn,
          d.1.sent,
          forced-sent d.1 clear,
          decoding-Reached msg wal_end s,
        );
      })
