-- ===== src/Cdc/Stream/Steps.antt =====
-- What keeps a property of the consumer: if its single steps keep it, a whole run does.
use fleet_telemetry_system.Prelude.{
  ℕ, ◌^◌, ◌||◌, Bool, true, false, List, [], ◌∷◌, Outcome, ok, raised, database_error,
  runtime_error, Exception, if◌then◌else◌, All, ◌++◌, ◌≡◌,
}
use fleet_telemetry_system.Prelude.Int.{ℤ, pos, eq_ℤ}
use fleet_telemetry_system.Prelude.Keeps.{
  Keeps, Keeps-pure, Keeps-lift, Keeps-if, Keeps-bind, Keeps-bind_answer,
}
use fleet_telemetry_system.Prelude.Effects.{pure}
use mathlib.Core.Path.{subst}
use fleet_telemetry_system.Text.{Text, codes, same_text}
use fleet_telemetry_system.Cdc.Bytes.{Bytes, unpack_from, slice, length_ℤ}
use fleet_telemetry_system.Cdc.Reader.{Reader, int32, char}
use fleet_telemetry_system.Cdc.Tuple.{read_tuple, read_relation}
use fleet_telemetry_system.Cdc.Event.{Row, event_type_of}
use fleet_telemetry_system.Cdc.Decode.{
  Consumer, Relation, call, relation, cache, cache_relation, read_tuple_of, emit_as, emit,
  emit_tuple, on_insert, skip_old, on_update, on_tag, decode_pgoutput,
}
use fleet_telemetry_system.Cdc.Stream.{
  Poll, nothing, ended, failed, message, ensure_slot, now, start_replication, confirm, feedback_at,
  too_early, send_feedback, advance_lsn, on_keepalive, finally, on_xlog_data, on_copy_message, pump,
  stream, run, push_status, set_feedback, set_streaming, add_slot,
}

pub record KeepsSteps {F : Type 0} (float_of : Text → Outcome F) (P : Consumer F → Type 0)
    : Type 0 where
  pub calls : (e : Exception) → Keeps P (call e)
  pub clock : Keeps P now
  pub caches : (entry : ℤ × Relation) → Keeps P (cache entry)
  pub emits : (name : Text) (row : Row) → Keeps P (emit_as float_of (event_type_of name) name row)
  pub confirming : (t : ℕ) → Keeps P (push_status t)
  pub confirmed : (t : ℕ) → Keeps P (set_feedback t)
  pub starts : (t : ℕ) → Keeps P (set_streaming t)
  pub creates : Keeps P add_slot

-- The position that a message of the replication stream reports: XLogData after its tag and its start, a
-- keepalive after its tag.
abbrev stated : Outcome ℤ → List ℤ
stated (ok lsn) = lsn ∷ []
stated (raised _) = []

abbrev pub position : Bytes → List ℤ
position msg =
    let tag = slice msg (pos 0) (pos 1) in
    if same_text tag (codes "w")
    then stated (unpack_from 8 (2 ^ 63) msg (pos 9))
    else if same_text tag (codes "k")
    then stated (unpack_from 8 (2 ^ 63) msg (pos 1))
    else []

-- The positions that are received until the stream ends.
abbrev pub received : List Poll → List ℤ
received [] = []
received (nothing readable ∷ polls) = received polls
received (ended ∷ polls) = []
received (failed ∷ polls) = []
received (message msg ∷ polls) = position msg ++ received polls

stated-Within :
    (Within : ℤ → Type 0) (r : Outcome ℤ) (lsn : ℤ)
    → All Within (stated r)
    → r ≡ ok lsn
    → Within lsn
stated-Within Within r lsn h e =
    let (here, _) = subst (λ (o : Outcome ℤ). All Within (stated o)) e h in here

All-append : (P : ℤ → Type 0) (xs ys : List ℤ) → All P (xs ++ ys) → All P xs × All P ys
All-append P [] ys h = (tt, h)
All-append P (x ∷ xs) ys (h, hs) = let (front, back) = All-append P xs ys hs in ((h, front), back)

pub All-any : (lsns : List ℤ) → All (λ _. Unit {0}) lsns
All-any [] = tt
All-any (lsn ∷ lsns) = (tt, All-any lsns)

module _ {F : Type 0} {float_of : Text → Outcome F} {P : Consumer F → Type 0}
    (steps : KeepsSteps float_of P) where
  Keeps-relation : (oid : ℤ) → Keeps P (relation oid)
  unfolding relation
  Keeps-relation oid = record { at = λ s h. h }

  Keeps-read_tuple_of : (r : Reader) (oid : ℤ) → Keeps P (read_tuple_of r oid)
  unfolding read_tuple_of
  Keeps-read_tuple_of r oid =
      Keeps-bind (Keeps-relation oid) (λ (name, columns). Keeps-lift (read_tuple columns r))

  Keeps-emit_tuple : (oid : ℤ) (r : Reader) → Keeps P (emit_tuple float_of oid r)
  unfolding emit_tuple emit
  Keeps-emit_tuple oid r =
      Keeps-bind (Keeps-read_tuple_of r oid)
        (λ (row, _). Keeps-bind (Keeps-relation oid) (λ (name, _). steps.emits name row))

  Keeps-skip_old : (oid : ℤ) (r : Reader) → Keeps P (skip_old float_of oid r)
  unfolding skip_old
  Keeps-skip_old oid r =
      Keeps-bind (Keeps-read_tuple_of r oid)
        (λ (_, r₁). Keeps-bind (Keeps-lift (char r₁)) (λ (_, r₂). Keeps-pure r₂))

  Keeps-on_insert : (r : Reader) → Keeps P (on_insert float_of r)
  unfolding on_insert
  Keeps-on_insert r =
      Keeps-bind (Keeps-lift (int32 r))
        (λ (oid, r₁). Keeps-bind (Keeps-lift (char r₁)) (λ (_, r₂). Keeps-emit_tuple oid r₂))

  Keeps-on_update : (r : Reader) → Keeps P (on_update float_of r)
  unfolding on_update
  Keeps-on_update r = Keeps-bind (Keeps-lift (int32 r)) (λ (oid, r₁).
      Keeps-bind (Keeps-lift (char r₁)) (λ (kind, r₂).
        Keeps-bind
          (Keeps-if (same_text kind (codes "K") || same_text kind (codes "O"))
            (Keeps-skip_old oid r₂) (Keeps-pure r₂))
          (Keeps-emit_tuple oid)))

  Keeps-on_tag : (tag : Bytes) (r : Reader) → Keeps P (on_tag float_of tag r)
  unfolding on_tag cache_relation
  Keeps-on_tag tag r =
      Keeps-if (same_text tag (codes "R")) (Keeps-bind (Keeps-lift (read_relation r)) steps.caches)
        (Keeps-if (same_text tag (codes "I")) (Keeps-on_insert r)
          (Keeps-if (same_text tag (codes "U")) (Keeps-on_update r) (Keeps-pure tt)))

  pub Keeps-decode_pgoutput : (payload : Bytes) → Keeps P (decode_pgoutput float_of payload)
  unfolding decode_pgoutput
  Keeps-decode_pgoutput payload =
      Keeps-bind (Keeps-lift (char (record { buf = payload; at = pos 0 })))
        (λ (tag, r). Keeps-on_tag tag r)

  Keeps-confirm : (t : ℕ) → Keeps P (confirm t)
  unfolding confirm
  Keeps-confirm t = Keeps-bind (steps.calls database_error) (λ _.
      Keeps-bind (steps.confirming t)
        (λ _. Keeps-bind (steps.calls database_error) (λ _. steps.confirmed t)))

  either :
      (b : Bool) (s : Consumer F) (r : Outcome (Unit {0}) × Consumer F)
      → P s
      → P r.1
      → P (if b then (ok tt, s) else r).1
  either true s r h k = h
  either false s r h k = k

  pub Keeps-send_feedback : (force : Bool) → Keeps P (send_feedback force)
  unfolding send_feedback feedback_at
  Keeps-send_feedback force = Keeps-bind steps.clock (λ t. record {
    at = λ s h. either (too_early force t s) s (confirm t s) h ((Keeps-confirm t).at s h);
  })

  pub Keeps-ensure_slot : Keeps P ensure_slot
  unfolding ensure_slot
  Keeps-ensure_slot = Keeps-bind (steps.calls database_error) (λ _.
      Keeps-bind (record { at = λ s h. h })
        (λ found.
          Keeps-if found (Keeps-pure tt)
            (Keeps-bind (steps.calls database_error) (λ _. steps.creates))))

  -- What is advanced to is among the positions that the messages report.
  module _ (Within : ℤ → Type 0)
      (advances : (lsn : ℤ) → Within lsn → Keeps P (advance_lsn lsn)) where
    Keeps-on_keepalive :
        (msg : Bytes)
        → All Within (stated (unpack_from 8 (2 ^ 63) msg (pos 1)))
        → Keeps P (on_keepalive msg)
    unfolding on_keepalive
    Keeps-on_keepalive msg h = Keeps-bind_answer (unpack_from 8 (2 ^ 63) msg (pos 1)) (λ wal_end e.
        Keeps-bind (Keeps-lift (unpack_from 8 (2 ^ 63) msg (pos 9))) (λ _.
          Keeps-bind (Keeps-lift (unpack_from 1 256 msg (pos 17))) (λ reply.
            Keeps-bind (advances wal_end (stated-Within Within _ wal_end h e))
              (λ _. Keeps-if (eq_ℤ reply (pos 0)) (Keeps-pure tt) (Keeps-send_feedback true)))))

    Keeps-on_xlog_data :
        (msg : Bytes)
        → All Within (stated (unpack_from 8 (2 ^ 63) msg (pos 9)))
        → Keeps P (on_xlog_data float_of msg)
    unfolding on_xlog_data
    Keeps-on_xlog_data msg h = Keeps-bind_answer (unpack_from 8 (2 ^ 63) msg (pos 9)) (λ wal_end e.
        Keeps-bind (advances wal_end (stated-Within Within _ wal_end h e))
          (λ _. Keeps-decode_pgoutput (slice msg (pos 25) (length_ℤ msg))))

    Keeps-tagged :
        (msg : Bytes) (b c : Bool)
        → All Within (
            if b
            then stated (unpack_from 8 (2 ^ 63) msg (pos 9))
            else if c
            then stated (unpack_from 8 (2 ^ 63) msg (pos 1))
            else [])
        → Keeps P (if b then on_xlog_data float_of msg else if c then on_keepalive msg else pure tt)
    Keeps-tagged msg true c h = Keeps-on_xlog_data msg h
    Keeps-tagged msg false true h = Keeps-on_keepalive msg h
    Keeps-tagged msg false false h = Keeps-pure tt

    Keeps-on_copy_message :
        (msg : Bytes) → All Within (position msg) → Keeps P (on_copy_message float_of msg)
    unfolding on_copy_message
    Keeps-on_copy_message msg h =
        Keeps-tagged msg (same_text (slice msg (pos 0) (pos 1)) (codes "w"))
          (same_text (slice msg (pos 0) (pos 1)) (codes "k")) h

    Keeps-pump : (polls : List Poll) → All Within (received polls) → Keeps P (pump float_of polls)
    unfolding pump
    Keeps-pump [] h = Keeps-pure tt
    Keeps-pump (ended ∷ polls) h = Keeps-pure tt
    Keeps-pump (failed ∷ polls) h = Keeps-lift (raised runtime_error)
    Keeps-pump (nothing readable ∷ polls) h =
        Keeps-bind (Keeps-if readable (steps.calls database_error) (Keeps-pure tt))
          (λ _. Keeps-bind (Keeps-send_feedback false) (λ _. Keeps-pump polls h))
    Keeps-pump (message msg ∷ polls) h =
        let (here, later) = All-append Within (position msg) (received polls) h in
        Keeps-bind (Keeps-on_copy_message msg here)
          (λ _. Keeps-bind (Keeps-send_feedback false) (λ _. Keeps-pump polls later))

    Keeps-stream :
        (enters : Bool) (polls : List Poll)
        → All Within (received polls)
        → Keeps P (stream float_of enters polls)
    unfolding stream start_replication
    Keeps-stream enters polls h =
        Keeps-bind
          (Keeps-if enters (Keeps-bind steps.clock steps.starts)
            (Keeps-lift (raised runtime_error)))
          (λ _. Keeps-pump polls h)

    pub Keeps-run :
        (connected enters : Bool) (polls : List Poll)
        → All Within (received polls)
        → Keeps P (run float_of connected enters polls)
    unfolding run finally
    Keeps-run connected enters polls h = Keeps-bind Keeps-ensure_slot (λ _.
        Keeps-if connected
          (record {
            at = λ s k. (Keeps-send_feedback true).at _ ((Keeps-stream enters polls h).at s k);
          })
          (Keeps-lift (raised runtime_error)))
