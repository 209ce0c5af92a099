-- ===== src/Cdc/Decode/Published.antt =====
-- The events that the decoder publishes.
use mathlib.Core.Path.{subst}
use fleet_telemetry_system.Prelude.{
  Bool, ◌||◌, Option, none, some, true, false, List, [], ◌∷◌, ◌≡◌, ◌≢◌, inr, refl, sym, Outcome, ok,
  raised, redis_error, Exception, arith,
}
use fleet_telemetry_system.Prelude.Int.{ℤ, pos}
use fleet_telemetry_system.Prelude.Keeps.{Keeps-pure, Keeps-lift, Keeps-if, Keeps-bind}
use fleet_telemetry_system.Text.{Text, codes, same_text}
use fleet_telemetry_system.Cdc.Bytes.{Bytes}
use fleet_telemetry_system.Cdc.Reader.{Reader, int32, char}
use fleet_telemetry_system.Cdc.Tuple.{read_tuple, read_relation}
use fleet_telemetry_system.Cdc.Event.{
  Row, Cell, unchanged, EventType, vehicle_state_changed, anomaly_detected, zone_count_changed,
  Payload, vehicle_state, anomaly, zone_count, Envelope, event_type_of, build_payload, dump_payload,
  vehicle_payload, anomaly_payload, zone_payload, dumps, inject_trace_context, Carrier,
}
use fleet_telemetry_system.Cdc.Decode.Adds.{
  Silent, Adds, Publishes, Publishes-Silent, Publishes-if, Publishes-bind_result, Publishes-bind,
}
use fleet_telemetry_system.Cdc.Decode.{
  Consumer, call, call_with, publish, message, relation, cache_relation, read_tuple_of, emit_as,
  emit, emit_tuple, on_insert, skip_old, on_update, on_tag, decode_pgoutput,
}

-- An event of the type that its payload is of, with no column passed on that pgoutput left out, and
-- with a carrier only if it is not empty.
abbrev pub type_of_payload : {F : Type 0} → Payload F → EventType
type_of_payload (vehicle_state _ _ _) = vehicle_state_changed
type_of_payload (anomaly _ _ _ _) = anomaly_detected
type_of_payload (zone_count _ _) = zone_count_changed

abbrev pub cells : {F : Type 0} → Payload F → List Cell
cells (vehicle_state v s _) = v ∷ s ∷ []
cells (anomaly v t d a) = v ∷ t ∷ d ∷ a ∷ []
cells (zone_count z _) = z ∷ []

abbrev pub AllPresent : List Cell → Type 0
AllPresent [] = Unit
AllPresent (c ∷ cs) = (c ≢ unchanged) × AllPresent cs

pub record IsSound {F : Type 0} (e : Envelope F) : Type 0 where
  pub typed : type_of_payload e.payload ≡ e.event_type
  pub present : AllPresent (cells e.payload)
  pub carried : e.carrier ≢ some []

dump_payload-AllPresent :
    {F : Type 0} (p : Payload F) → dump_payload p ≡ ok tt → AllPresent (cells p)
dump_payload-AllPresent (vehicle_state v s b) h = ground arith
dump_payload-AllPresent (anomaly v t d a) h = ground arith
dump_payload-AllPresent (zone_count z n) h = ground arith

pub dumps-ok :
    {F : Type 0} (e m : Envelope F) → dumps e ≡ ok m → (m ≡ e) × (dump_payload e.payload ≡ ok tt)
unfolding dumps
dumps-ok e m h = ground arith

inject-IsSound :
    {F : Type 0} (c : Outcome Carrier) (e : Envelope F)
    → type_of_payload e.payload ≡ e.event_type
    → AllPresent (cells e.payload)
    → e.carrier ≡ none
    → IsSound (inject_trace_context c e)
unfolding inject_trace_context
inject-IsSound (ok []) e h k n = record { typed = h; present = k; carried = cc }
inject-IsSound (ok (x ∷ c)) e h k n = record { typed = h; present = k; carried = λ e. cc }
inject-IsSound (raised x) e h k n = record { typed = h; present = k; carried = cc }

pub inject-payload :
    {F : Type 0} (c : Outcome Carrier) (e : Envelope F)
    → (inject_trace_context c e).payload ≡ e.payload
unfolding inject_trace_context
inject-payload (ok []) e = refl
inject-payload (ok (x ∷ c)) e = refl
inject-payload (raised x) e = refl

message-IsSound :
    {F : Type 0} (c : Outcome Carrier) (t : EventType) (p : Payload F) (m : Envelope F)
    → type_of_payload p ≡ t
    → dumps (inject_trace_context c (record { event_type = t; payload = p; carrier = none })) ≡ ok m
    → IsSound m
message-IsSound c t p m h k =
    let e : Envelope _ = record { event_type = t; payload = p; carrier = none } in
    let (same, printed) = dumps-ok (inject_trace_context c e) m k in
    let plain = subst (λ p. dump_payload p ≡ ok tt) (inject-payload c e) printed in
    subst IsSound (sym same) (inject-IsSound c e h (dump_payload-AllPresent p plain) refl)

module _ {F : Type 0} (float_of : Text → Outcome F) where
  vehicle_payload-type :
      (row : Row) (p : Payload F)
      → vehicle_payload float_of row ≡ ok p
      → type_of_payload p ≡ vehicle_state_changed
  unfolding vehicle_payload
  vehicle_payload-type row p h = ground arith

  anomaly_payload-type :
      (row : Row) (p : Payload F)
      → anomaly_payload float_of row ≡ ok p
      → type_of_payload p ≡ anomaly_detected
  unfolding anomaly_payload
  anomaly_payload-type row p h = ground arith

  zone_payload-type :
      (row : Row) (p : Payload F)
      → zone_payload float_of row ≡ ok p
      → type_of_payload p ≡ zone_count_changed
  unfolding zone_payload
  zone_payload-type row p h = ground arith

  build_payload-type :
      (name : Text) (row : Row) (t : EventType) (p : Payload F)
      → event_type_of name ≡ some t
      → build_payload float_of name row ≡ ok p
      → type_of_payload p ≡ t
  unfolding event_type_of build_payload
  build_payload-type name row t p h k =
      ground
        (arith, vehicle_payload-type row p, anomaly_payload-type row p, zone_payload-type row p)

  Silent-call : (e : Exception) → Silent (call {F = F} e)
  unfolding call
  Silent-call e l = record { at = λ s h. go s.outages s h }
    where
      go : (b : List Bool) (s : Consumer F) → s.published ≡ l → (call_with b e s).1.published ≡ l
      go [] s h = h
      go (true ∷ b) s h = h
      go (false ∷ b) s h = h

  Publishes-publish : (m : Envelope F) → IsSound m → Publishes IsSound (publish m)
  unfolding publish Adds
  Publishes-publish m h =
      Publishes-bind (Silent-call redis_error) (λ _. record { at = λ s. inr (m, refl, h) })

  pub Publishes-emit_as :
      (name : Text) (row : Row) (t : Option EventType)
      → event_type_of name ≡ t
      → Publishes IsSound (emit_as float_of t name row)
  unfolding emit_as message
  Publishes-emit_as name row none h = Publishes-Silent (λ l. Keeps-pure tt)
  Publishes-emit_as name row (some t) h =
      Publishes-bind_result (λ l. Keeps-lift (build_payload float_of name row))
        (λ _ p kp.
          Publishes-bind_result (λ l. record { at = λ s h. h })
            (λ s m km. Publishes-publish m (
              message-IsSound (s.propagate s.injections) t p m
                (build_payload-type name row t p h kp) km)))

  Silent-relation : (oid : ℤ) → Silent (relation {F = F} oid)
  unfolding relation
  Silent-relation oid l = record { at = λ s h. h }

  Silent-read_tuple_of : (r : Reader) (oid : ℤ) → Silent (read_tuple_of {F = F} r oid)
  unfolding read_tuple_of
  Silent-read_tuple_of r oid l =
      Keeps-bind (Silent-relation oid l) (λ (name, columns). Keeps-lift (read_tuple columns r))

  Publishes-emit_tuple : (oid : ℤ) (r : Reader) → Publishes IsSound (emit_tuple float_of oid r)
  unfolding emit_tuple emit
  Publishes-emit_tuple oid r = Publishes-bind (Silent-read_tuple_of r oid) (λ (row, _).
      Publishes-bind (Silent-relation oid)
        (λ (name, _). Publishes-emit_as name row (event_type_of name) refl))

  Silent-skip_old : (oid : ℤ) (r : Reader) → Silent (skip_old float_of oid r)
  unfolding skip_old
  Silent-skip_old oid r l =
      Keeps-bind (Silent-read_tuple_of r oid l)
        (λ (_, r₁). Keeps-bind (Keeps-lift (char r₁)) (λ (_, r₂). Keeps-pure r₂))

  Publishes-on_insert : (r : Reader) → Publishes IsSound (on_insert float_of r)
  unfolding on_insert
  Publishes-on_insert r =
      Publishes-bind (λ l. Keeps-lift (int32 r))
        (λ (oid, r₁).
          Publishes-bind (λ l. Keeps-lift (char r₁)) (λ (_, r₂). Publishes-emit_tuple oid r₂))

  Publishes-on_update : (r : Reader) → Publishes IsSound (on_update float_of r)
  unfolding on_update
  Publishes-on_update r =
      Publishes-bind (λ l. Keeps-lift (int32 r))
        (λ (oid, r₁).
          Publishes-bind (λ l. Keeps-lift (char r₁))
            (λ (kind, r₂).
              Publishes-bind
                (λ l.
                  Keeps-if (same_text kind (codes "K") || same_text kind (codes "O"))
                    (Silent-skip_old oid r₂ l) (Keeps-pure r₂))
                (Publishes-emit_tuple oid)))

  Publishes-on_tag : (tag : Bytes) (r : Reader) → Publishes IsSound (on_tag float_of tag r)
  unfolding on_tag cache_relation
  Publishes-on_tag tag r =
      Publishes-if (same_text tag (codes "R"))
        (Publishes-Silent
          (λ l. Keeps-bind (Keeps-lift (read_relation r)) (λ entry. record { at = λ s h. h })))
        (Publishes-if (same_text tag (codes "I")) (Publishes-on_insert r) (
          Publishes-if (same_text tag (codes "U")) (Publishes-on_update r)
            (Publishes-Silent (λ l. Keeps-pure tt))))

  -- Decoding one message publishes nothing if it raises, and at most one event if it returns. The type
  -- of that event is the one that its payload belongs to, no column that it passes on as it is, without
  -- making a number of it, is one that pgoutput left out, and it carries a trace context only if that is
  -- not empty.
  pub decode_pgoutput-Adds :
      (payload : Bytes) (s : Consumer F)
      → Adds IsSound s.published (decode_pgoutput float_of payload s)
  unfolding decode_pgoutput
  decode_pgoutput-Adds payload s =
      (Publishes-bind (λ l. Keeps-lift (char (record { buf = payload; at = pos 0 })))
          (λ (tag, r). Publishes-on_tag tag r)).at
        s
