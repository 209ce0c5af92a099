-- ===== src/Cdc/Stream.antt =====
-- `ensure_slot`, `drop_slot` and the `CdcConsumer` of app/cdc_consumer.py around the decoder: `_start_replication`,
-- `_on_copy_message`, `_send_feedback`, `_pump` and `run`. Times are in microseconds.
pub mod Steps
pub mod Confirmed
pub mod Unpublished
pub mod Paced
pub mod Slot
use fleet_telemetry_system.Prelude.{
  ℕ, suc, ◌+◌, ◌*◌, ◌^◌, Bool, ◌&&◌, not, List, [], ◌∷◌, Outcome, ok, raised, database_error,
  runtime_error, true, false, ltb, if◌then◌else◌,
}
use fleet_telemetry_system.Prelude.Int.{ℤ, pos, eq_ℤ, max_ℤ, sub_ℕ}
use fleet_telemetry_system.Prelude.Effects.{Effect, pure, lift, ◌>>=◌, ◌>>◌}
use fleet_telemetry_system.Text.{Text, codes, same_text}
use fleet_telemetry_system.Cdc.Bytes.{Bytes, slice, unpack_from, length_ℤ}
use fleet_telemetry_system.Cdc.Decode.{Consumer, StatusUpdate, Consuming, call, decode_pgoutput}

abbrev pub pg_epoch_delta : ℕ
pg_epoch_delta = 946684800

-- What one `get_copy_data` leads to: nothing yet, after which the socket is readable or not; the end
-- of the stream; an error; a message.
pub data Poll : Type 0 where
  nothing : (readable : Bool) → Poll
  ended failed : Poll
  message : Bytes → Poll

abbrev pub status_at : ℕ → ℤ → StatusUpdate
status_at t lsn = record {
  written = lsn;
  flushed = lsn;
  applied = lsn;
  clock = sub_ℕ t (pg_epoch_delta * 1000000);
}

module _ {F : Type 0} where
  abbrev pub add_slot : Consuming F (Unit {0})
  add_slot s = (ok tt, record s { slot = true })

  abbrev pub slot_row : Consuming F Bool
  slot_row s = (ok s.slot, s)

  unfoldable pub ensure_slot : Consuming F (Unit {0})
  ensure_slot = do
    call database_error
    exists ← slot_row
    if exists then pure tt else (call database_error >> add_slot)

  abbrev pub remove_slot : Consuming F (Unit {0})
  remove_slot s = (ok tt, record s { slot = false })

  -- A slot that is not there is not selected, so that nothing is dropped.
  unfoldable pub drop_slot : Consuming F (Unit {0})
  drop_slot = do call database_error; remove_slot

  -- `time.time()`
  unfoldable pub now : Consuming F ℕ
  now s = (ok (s.time s.readings), record s { readings = suc s.readings })

  abbrev pub set_streaming : ℕ → Consuming F (Unit {0})
  set_streaming t s = (ok tt, record s { last_feedback = t; streaming = true })

  -- `enters`: the primary answers with CopyBoth.
  unfoldable pub start_replication : Bool → Consuming F (Unit {0})
  unfolding now
  start_replication enters = if enters then (now >>= set_streaming) else lift (raised runtime_error)

  abbrev pub set_feedback : ℕ → Consuming F (Unit {0})
  set_feedback t s = (ok tt, record s { last_feedback = t })

  abbrev pub push_status : ℕ → Consuming F (Unit {0})
  push_status t s = (ok tt, record s { sent = status_at t s.last_lsn ∷ s.sent })

  -- `put_copy_data` and `flush`, and the time of the feedback.
  unfoldable pub confirm : ℕ → Consuming F (Unit {0})
  unfolding call
  confirm t = do call database_error; push_status t; call database_error; set_feedback t

  -- Within a second of the last one, unless it is forced.
  abbrev pub too_early : Bool → ℕ → Consumer F → Bool
  too_early force t s = not force && ltb t (s.last_feedback + 1000000)

  unfoldable pub feedback_at : Bool → ℕ → Consuming F (Unit {0})
  unfolding confirm
  feedback_at force t s = if too_early force t s then (ok tt, s) else confirm t s

  unfoldable pub send_feedback : Bool → Consuming F (Unit {0})
  unfolding now feedback_at
  send_feedback force = now >>= feedback_at force

  -- `self._last_lsn = max(self._last_lsn, wal_end)`
  unfoldable pub advance_lsn : ℤ → Consuming F (Unit {0})
  advance_lsn lsn s = (ok tt, record s { last_lsn = max_ℤ s.last_lsn lsn })

  unfoldable pub on_keepalive : Bytes → Consuming F (Unit {0})
  unfolding advance_lsn send_feedback
  on_keepalive msg = do
    wal_end ← lift (unpack_from 8 (2 ^ 63) msg (pos 1))
    ts ← lift (unpack_from 8 (2 ^ 63) msg (pos 9))
    reply ← lift (unpack_from 1 256 msg (pos 17))
    advance_lsn wal_end
    if eq_ℤ reply (pos 0) then pure tt else send_feedback true

  -- `try: body finally: last`, where the exceptions of `last` are passed over.
  unfoldable pub finally : Consuming F (Unit {0}) → Consuming F (Unit {0}) → Consuming F (Unit {0})
  finally body last s = let (r, s₁) = body s in (r, (last s₁).1)

module _ {F : Type 0} (float_of : Text → Outcome F) where
  unfoldable pub on_xlog_data : Bytes → Consuming F (Unit {0})
  unfolding advance_lsn decode_pgoutput
  on_xlog_data msg = do
    wal_end ← lift (unpack_from 8 (2 ^ 63) msg (pos 9))
    advance_lsn wal_end
    decode_pgoutput float_of (slice msg (pos 25) (length_ℤ msg))

  unfoldable pub on_copy_message : Bytes → Consuming F (Unit {0})
  unfolding on_xlog_data on_keepalive
  on_copy_message msg =
      let tag = slice msg (pos 0) (pos 1) in
      if same_text tag (codes "w")
      then on_xlog_data msg
      else if same_text tag (codes "k")
      then on_keepalive msg
      else pure tt

  -- The list is what is polled until `stop` is set, which it is where the list ends.
  unfoldable pub pump : List Poll → Consuming F (Unit {0})
  unfolding on_copy_message send_feedback
  pump [] = pure tt
  pump (ended ∷ polls) = pure tt
  pump (failed ∷ polls) = lift (raised runtime_error)
  pump (nothing readable ∷ polls) = do
    (if readable then call database_error else pure tt)
    send_feedback false
    pump polls
  pump (message msg ∷ polls) = do on_copy_message msg; send_feedback false; pump polls

  unfoldable pub stream : Bool → List Poll → Consuming F (Unit {0})
  unfolding start_replication pump
  stream enters polls = start_replication enters >> pump polls

  -- `connected`: the replication connection is made.
  unfoldable pub run : Bool → Bool → List Poll → Consuming F (Unit {0})
  unfolding ensure_slot stream finally
  run connected enters polls = do
    ensure_slot
    if connected
        then finally (stream enters polls) (send_feedback true)
        else lift (raised runtime_error)
