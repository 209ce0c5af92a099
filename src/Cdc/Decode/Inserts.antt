-- ===== src/Cdc/Decode/Inserts.antt =====
-- What the decoder publishes for an insert.
use fleet_telemetry_system.Prelude.{
  ℕ, ◌^◌, ◌<◌, some, none, List, [], ◌∷◌, ◌++◌, ◌≡◌, refl, arith, Outcome, ok, length, All,
}
use fleet_telemetry_system.Prelude.Int.{ℤ, pos}
use fleet_telemetry_system.Prelude.Effects.{◌>>=◌}
use fleet_telemetry_system.Text.{Text}
use fleet_telemetry_system.Cdc.Reader.Reads.{IsAt, IsAt-append, char-IsAt, bytes4, int32-IsAt}
use fleet_telemetry_system.Cdc.Decode
use fleet_telemetry_system.Cdc.Decode.Published.{inject-payload}
use fleet_telemetry_system.Cdc.Event.{
  Cell, Row, event_type_of, EventType, Payload, Envelope, build_payload, dump_payload, dumps,
  inject_trace_context,
}
use fleet_telemetry_system.Cdc.Decode.{
  Consumer, find_relation, relation, read_tuple_of, emit, emit_as, publish, call, emit_tuple,
  on_insert, on_tag, decode_pgoutput,
}
use fleet_telemetry_system.Cdc.Decode.Encoded.{
  encode_tuple, encode_insert, IsEncodable, assign_all, read_tuple-IsAt,
}

module _ {F : Type 0} (float_of : Text → Outcome F) where
  pub emit-known :
      (oid : ℤ) (relname : Text) (names : List Text) (row : Row) (s : Consumer F)
      → find_relation oid s.relations ≡ some (relname, names)
      → emit float_of oid row s ≡ emit_as float_of (event_type_of relname) relname row s
  unfolding emit relation ◌>>=◌
  emit-known oid relname names row s cached = rw cached

  -- An encoded insert into a relation that the consumer knows is decoded to the row of its cells, which
  -- is what is then emitted.
  decode_pgoutput-insert :
      (oid : ℕ) (cs : List Cell) (relname : Text) (names : List Text) (s : Consumer F)
      → oid < 2 ^ 31
      → length cs < 2 ^ 15
      → length names ≡ length cs
      → All IsEncodable cs
      → find_relation (pos oid) s.relations ≡ some (relname, names)
      → decode_pgoutput float_of (encode_insert oid cs) s
        ≡ emit_as float_of (event_type_of relname) relname (assign_all names cs []) s
  unfolding decode_pgoutput on_tag on_insert emit_tuple read_tuple_of relation ◌>>=◌
  decode_pgoutput-insert oid cs relname names s small few n e cached =
      let buf = encode_insert oid cs in
      let start : IsAt buf 0 (73 ∷ (bytes4 oid ++ (78 ∷ encode_tuple cs))) = record {
        follows = refl;
        total = omega arith;
      } in
      let after_tag : IsAt buf 1 (bytes4 oid ++ (78 ∷ encode_tuple cs)) =
        IsAt-append buf 0 (73 ∷ []) _ start in
      let after_oid : IsAt buf 5 (78 ∷ encode_tuple cs) =
        IsAt-append buf 1 (bytes4 oid) _ after_tag in
      let after_marker : IsAt buf 6 (encode_tuple cs) = IsAt-append buf 5 (78 ∷ []) _ after_oid in
      let (j, row) = read_tuple-IsAt names cs buf 6 n few e after_marker in
      rw
        (
          char-IsAt buf 0 73 (bytes4 oid ++ (78 ∷ encode_tuple cs)) start,
          int32-IsAt oid buf 1 (78 ∷ encode_tuple cs) small after_tag,
          char-IsAt buf 5 78 (encode_tuple cs) after_oid,
          cached,
          row,
        )
        (emit-known (pos oid) relname names (assign_all names cs []) s cached)

  pub emit_as-published :
      (t : EventType) (relname : Text) (row : Row) (p : Payload F) (s : Consumer F)
      → build_payload float_of relname row ≡ ok p
      → dump_payload p ≡ ok tt
      → s.outages ≡ []
      → (emit_as float_of (some t) relname row s).0 ≡ ok tt
        × ((emit_as float_of (some t) relname row s).1.published
            ≡ inject_trace_context
                (s.propagate s.injections)
                (record { event_type = t; payload = p; carrier = none })
              ∷ s.published)
  unfolding emit_as fleet_telemetry_system.Cdc.Decode.message publish call dumps ◌>>=◌
  emit_as-published t relname row p s built printed up =
      let e : Envelope F = record { event_type = t; payload = p; carrier = none } in
      let same : (inject_trace_context (s.propagate s.injections) e).payload ≡ p =
        inject-payload (s.propagate s.injections) e in
      (rw (built, same, printed, up), rw (built, same, printed, up))

  -- An insert into a watched table, as pgoutput encodes it, publishes exactly one event, of the table's
  -- type and with its row as the payload. The relation is known with one column for each cell, each
  -- text has only Unicode scalar values, the numbers fit their fields, the row can be translated and printed, and Redis is up.
  pub decode_pgoutput-published :
      (oid : ℕ) (cs : List Cell) (relname : Text) (names : List Text) (t : EventType)
      (p : Payload F) (s : Consumer F)
      → oid < 2 ^ 31
      → length cs < 2 ^ 15
      → length names ≡ length cs
      → All IsEncodable cs
      → find_relation (pos oid) s.relations ≡ some (relname, names)
      → event_type_of relname ≡ some t
      → build_payload float_of relname (assign_all names cs []) ≡ ok p
      → dump_payload p ≡ ok tt
      → s.outages ≡ []
      → ((decode_pgoutput float_of (encode_insert oid cs) s).0 ≡ ok tt)
        × ((decode_pgoutput float_of (encode_insert oid cs) s).1.published
            ≡ inject_trace_context
                (s.propagate s.injections)
                (record { event_type = t; payload = p; carrier = none })
              ∷ s.published)
  decode_pgoutput-published oid cs relname names t p s small few n e cached watched built printed
        up =
      rw (decode_pgoutput-insert oid cs relname names s small few n e cached, watched)
        (emit_as-published t relname (assign_all names cs []) p s built printed up)

  -- Nothing else is changed by it that a later insert depends on.
  pub decode_pgoutput-keeps :
      (oid : ℕ) (cs : List Cell) (relname : Text) (names : List Text) (t : EventType)
      (p : Payload F) (s : Consumer F)
      → oid < 2 ^ 31
      → length cs < 2 ^ 15
      → length names ≡ length cs
      → All IsEncodable cs
      → find_relation (pos oid) s.relations ≡ some (relname, names)
      → event_type_of relname ≡ some t
      → build_payload float_of relname (assign_all names cs []) ≡ ok p
      → dump_payload p ≡ ok tt
      → s.outages ≡ []
      → ((decode_pgoutput float_of (encode_insert oid cs) s).1.relations ≡ s.relations)
        × ((decode_pgoutput float_of (encode_insert oid cs) s).1.outages ≡ [])
  unfolding emit_as fleet_telemetry_system.Cdc.Decode.message publish call dumps ◌>>=◌
  decode_pgoutput-keeps oid cs relname names t p s small few n e cached watched built printed up =
      let same =
        inject-payload (s.propagate s.injections)
          (record { event_type = t; payload = p; carrier = none }) in
      rw
        (
          decode_pgoutput-insert oid cs relname names s small few n e cached,
          watched,
          built,
          same,
          printed,
          up,
        )
        (refl, refl)

  -- An insert into any other table publishes nothing and changes nothing.
  pub decode_pgoutput-unwatched :
      (oid : ℕ) (cs : List Cell) (relname : Text) (names : List Text) (s : Consumer F)
      → oid < 2 ^ 31
      → length cs < 2 ^ 15
      → length names ≡ length cs
      → All IsEncodable cs
      → find_relation (pos oid) s.relations ≡ some (relname, names)
      → event_type_of relname ≡ none
      → decode_pgoutput float_of (encode_insert oid cs) s ≡ (ok tt, s)
  unfolding emit_as
  decode_pgoutput-unwatched oid cs relname names s small few n e cached watched =
      rw (decode_pgoutput-insert oid cs relname names s small few n e cached, watched)
