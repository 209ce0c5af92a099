-- ===== src/Tests/OfCdc.antt =====
-- app/cdc_consumer.py on sample messages.
use fleet_telemetry_system.Prelude.{
  false, map, none, some, ◌+◌, true, false, List, [], ◌∷◌, ◌++◌, ◌≡◌, refl, arith, Outcome, ok,
  redis_error, All,
}
use fleet_telemetry_system.Prelude.Int.{ℤ, pos}
use fleet_telemetry_system.Text.{Text, codes}
use fleet_telemetry_system.Text.Numerals.{int_of}
use fleet_telemetry_system.Cdc.Bytes.{Bytes, slice, unpack_from}
use fleet_telemetry_system.Cdc.Decode.{Consumer, decode_pgoutput, read_tuple_of, publish}
use fleet_telemetry_system.Cdc.Decode
use fleet_telemetry_system.Cdc.Reader.{char, int16, int32, take_bytes}
use fleet_telemetry_system.Text.Utf8.{decode}
use fleet_telemetry_system.Text.Utf8.Encoded.{encode, ascii-IsScalar}
use fleet_telemetry_system.Cdc.Tuple.{read_tuple, read_cells, read_cell, text_cell}
use fleet_telemetry_system.Cdc.Event.{
  event_type_of, build_payload, dumps, Cell, text, zone_count, zone_count_changed,
  inject_trace_context,
}
use fleet_telemetry_system.Prelude.Effects.{◌>>=◌}
use fleet_telemetry_system.Cdc.Decode.Adds.{Adds}
use fleet_telemetry_system.Cdc.Decode.Published.{IsSound, decode_pgoutput-Adds}
use fleet_telemetry_system.Cdc.Decode.Encoded.{encode_insert, IsEncodable}
use fleet_telemetry_system.Cdc.Decode.Inserts.{decode_pgoutput-published}
use fleet_telemetry_system.Cdc.Stream.{
  nothing, message, finally, pump, run, send_feedback, advance_lsn,
}
use fleet_telemetry_system.Cdc.Stream.Paced.{IsPaced, pump-IsPaced}
use fleet_telemetry_system.Cdc.Stream.Confirmed.{IsConfirmed, ConfirmsTo, run-IsConfirmed}
use fleet_telemetry_system.Cdc.Stream.Unpublished.{
  ConfirmsUnpublished, decoding, run-ConfirmsUnpublished,
}
use fleet_telemetry_system.Cdc.Supervisor.{Pass, not_ready, attempt, not_yet, in_wait, run_forever}
use fleet_telemetry_system.Cdc.Supervisor.Backoff.{IsBounded, run_forever-IsBounded}

abbrev pub zone_columns : List Text
zone_columns = codes "zone_id" ∷ codes "entry_count" ∷ []

-- Relation 5 is `zone_counts`, and relation 6 is not watched.
abbrev pub consumer : Consumer ℤ
consumer = record {
  slot = true;
  streaming = true;
  relations = (pos 5, (codes "zone_counts", zone_columns)) ∷ (pos 6, (codes "vehicles", [])) ∷ [];
  last_lsn = pos 100;
  last_feedback = 0;
  time = λ n. 1000000000000000 + n;
  readings = 0;
  propagate = λ n. ok [];
  injections = 0;
  outages = [];
  published = [];
  sent = [];
}

-- An insert into relation 5 of the row `aisle_a`, `8`, and one into relation 6.
abbrev pub entered : List Cell
entered = text (codes "aisle_a") ∷ text (codes "8") ∷ []

abbrev pub insert : Bytes
insert = encode_insert 5 entered

-- Its XLogData message, up to position 200.
abbrev pub xlog : Bytes
xlog =
    codes "w"
    ++ (0 ∷ 0 ∷ 0 ∷ 0 ∷ 0 ∷ 0 ∷ 0 ∷ 190 ∷ [])
    ++ (0 ∷ 0 ∷ 0 ∷ 0 ∷ 0 ∷ 0 ∷ 0 ∷ 200 ∷ [])
    ++ (0 ∷ 0 ∷ 0 ∷ 0 ∷ 0 ∷ 0 ∷ 0 ∷ 0 ∷ [])
    ++ insert

abbrev pub float_of : Text → Outcome ℤ
float_of t = int_of t

decode_pgoutput-Adds_example : Adds IsSound [] (decode_pgoutput float_of insert consumer)
decode_pgoutput-Adds_example = decode_pgoutput-Adds float_of insert consumer

pub entered-IsEncodable : All IsEncodable entered
unfolding encode
entered-IsEncodable = (
  (ascii-IsScalar (codes "aisle_a") (ground arith), omega arith),
  ((ascii-IsScalar (codes "8") (ground arith), omega arith), tt),
)

decode_pgoutput-published_example :
    ((decode_pgoutput float_of insert consumer).0 ≡ ok tt)
    × ((decode_pgoutput float_of insert consumer).1.published
        ≡ inject_trace_context (ok []) (record {
          event_type = zone_count_changed;
          payload = zone_count (text (codes "aisle_a")) (some (pos 8));
          carrier = none;
        })
          ∷ [])
unfolding event_type_of build_payload
decode_pgoutput-published_example =
    decode_pgoutput-published float_of 5 entered (codes "zone_counts") zone_columns
      zone_count_changed (zone_count (text (codes "aisle_a")) (some (pos 8))) consumer (omega arith)
      (omega arith) refl entered-IsEncodable refl refl refl refl refl

-- Redis is away for the first call.
abbrev cut_off : Consumer ℤ
cut_off = record consumer { outages = true ∷ [] }

run-ConfirmsUnpublished_example :
    ConfirmsUnpublished float_of
      (pos 200)
      redis_error
      cut_off
      (finally (pump float_of (message xlog ∷ [])) (send_feedback true) cut_off)
unfolding slice unpack_from decoding decode_pgoutput ◌>>=◌ char int32 read_tuple_of advance_lsn
    read_tuple int16 read_cells read_cell text_cell take_bytes decode event_type_of build_payload
    fleet_telemetry_system.Cdc.Decode.message dumps inject_trace_context publish encode
run-ConfirmsUnpublished_example =
    run-ConfirmsUnpublished float_of xlog [] cut_off (pos 200) redis_error refl refl refl refl

-- The message reports position 200.
run-IsConfirmed_example :
    IsConfirmed (run float_of true true (message xlog ∷ []) consumer).1
    × ConfirmsTo (pos 200) (run float_of true true (message xlog ∷ []) consumer).1.sent
unfolding IsConfirmed ConfirmsTo slice encode unpack_from
run-IsConfirmed_example =
    run-IsConfirmed (pos 200) float_of true true (message xlog ∷ []) consumer tt refl (refl, tt)

pump-IsPaced_example :
    ((pump float_of (map nothing (false ∷ true ∷ [])) consumer).0 ≡ ok tt)
    × IsPaced consumer (pump float_of (map nothing (false ∷ true ∷ [])) consumer).1
pump-IsPaced_example = pump-IsPaced float_of (false ∷ true ∷ []) consumer refl

abbrev cold_start : List Pass
cold_start = not_ready ∷ not_ready ∷ attempt false ∷ attempt true ∷ []

run_forever-IsBounded_example :
    All IsBounded (run_forever ((not_ready, not_yet) ∷ (attempt true, in_wait) ∷ []))
run_forever-IsBounded_example =
    run_forever-IsBounded ((not_ready, not_yet) ∷ (attempt true, in_wait) ∷ [])
