-- ===== src/Cdc/Event.antt =====
-- The events of app/events.py, the watched tables of app/cdc.py, and `_build_payload`, `_as_float` and
-- `_as_int` of app/cdc_consumer.py. `float_of` is Python's `float(text)`.
use fleet_telemetry_system.Prelude.{
  String, Option, none, some, List, [], ◌∷◌, Outcome, ok, raised, key_error, type_error, ◌>>=◌,
  if◌then◌else◌,
}
use fleet_telemetry_system.Prelude.Int.{ℤ}
use fleet_telemetry_system.Text.{Text, codes, same_text}
use fleet_telemetry_system.Text.Numerals.{int_of}

-- A decoded column: SQL null, `_UNCHANGED`, or its text.
pub data Cell : Type 0 where
  null unchanged : Cell
  text : Text → Cell

abbrev pub Row : Type 0
Row = List (Text × Cell)

abbrev pub find_cell : Text → Row → Option Cell
find_cell k [] = none
find_cell k ((j, v) ∷ m) = let later = find_cell k m in if same_text j k then some v else later

-- `values[name] = cell`
abbrev pub assign : Text → Cell → Row → Row
assign k v [] = (k, v) ∷ []
assign k v ((j, w) ∷ m) =
    let later = assign k v m in if same_text j k then (j, v) ∷ m else (j, w) ∷ later

abbrev or_key_error : {A : Type 0} → Option A → Outcome A
or_key_error none = raised key_error
or_key_error (some a) = ok a

-- `v[name]`
abbrev pub column : String → Row → Outcome Cell
column name v = or_key_error (find_cell (codes name) v)

pub data EventType : Type 0 where
  vehicle_state_changed anomaly_detected zone_count_changed : EventType

-- `TABLE_EVENT_TYPES.get(relname)`
unfoldable pub event_type_of : Text → Option EventType
event_type_of relname =
    if same_text relname (codes "vehicle_current_state")
    then some vehicle_state_changed
    else if same_text relname (codes "anomalies")
    then some anomaly_detected
    else if same_text relname (codes "zone_counts")
    then some zone_count_changed
    else none

pub data Payload (F : Type 0) : Type 0 where
  vehicle_state : (vehicle_id status : Cell) (battery_pct : Option F) → Payload F
  anomaly : (vehicle_id anomaly_type detail detected_at : Cell) → Payload F
  zone_count : (zone_id : Cell) (entry_count : Option ℤ) → Payload F

module _ {F : Type 0} (float_of : Text → Outcome F) where
  unfoldable pub as_float : Cell → Outcome (Option F)
  as_float null = ok none
  as_float unchanged = ok none
  as_float (text t) = float_of t >>= λ x. ok (some x)

  unfoldable pub as_int : Cell → Outcome (Option ℤ)
  unfolding int_of
  as_int null = ok none
  as_int unchanged = ok none
  as_int (text t) = int_of t >>= λ n. ok (some n)

  unfoldable pub vehicle_payload : Row → Outcome (Payload F)
  unfolding as_float
  vehicle_payload v = do
    vehicle_id ← column "vehicle_id" v
    status ← column "status" v
    battery ← column "battery_pct" v
    battery_pct ← as_float battery
    ok (vehicle_state vehicle_id status battery_pct)

  unfoldable pub anomaly_payload : Row → Outcome (Payload F)
  anomaly_payload v = do
    vehicle_id ← column "vehicle_id" v
    anomaly_type ← column "anomaly_type" v
    detail ← column "detail" v
    detected_at ← column "detected_at" v
    ok (anomaly vehicle_id anomaly_type detail detected_at)

  unfoldable pub zone_payload : Row → Outcome (Payload F)
  unfolding as_int
  zone_payload v = do
    zone_id ← column "zone_id" v
    entries ← column "entry_count" v
    entry_count ← as_int entries
    ok (zone_count zone_id entry_count)

  unfoldable pub build_payload : Text → Row → Outcome (Payload F)
  unfolding vehicle_payload anomaly_payload zone_payload
  build_payload relname v =
      if same_text relname (codes "vehicle_current_state")
      then vehicle_payload v
      else if same_text relname (codes "anomalies")
      then anomaly_payload v
      else zone_payload v

-- What the W3C propagator writes for the active span.
abbrev pub Carrier : Type 0
Carrier = List (String × String)

pub record Envelope (F : Type 0) : Type 0 where
  pub event_type : EventType
  pub payload : Payload F
  -- Under `_trace`, where a carrier is attached.
  pub carrier : Option Carrier

abbrev dump_cell : Cell → Outcome (Unit {0})
dump_cell unchanged = raised type_error
dump_cell null = ok tt
dump_cell (text _) = ok tt

module _ {F : Type 0} where
  -- `inject_trace_context`, by what the propagator does: an exception of it is passed over.
  unfoldable pub inject_trace_context : Outcome Carrier → Envelope F → Envelope F
  inject_trace_context (ok []) e = e
  inject_trace_context (ok (x ∷ c)) e = record e { carrier = some (x ∷ c) }
  inject_trace_context (raised _) e = e

  abbrev pub dump_payload : Payload F → Outcome (Unit {0})
  dump_payload (vehicle_state v s _) = dump_cell v >>= λ _. dump_cell s
  dump_payload (anomaly v t d a) =
      dump_cell v >>= λ _. dump_cell t >>= λ _. dump_cell d >>= λ _. dump_cell a
  dump_payload (zone_count z _) = dump_cell z

  -- `json.dumps(envelope)`, of which only the exception is modelled: the message is the envelope.
  unfoldable pub dumps : Envelope F → Outcome (Envelope F)
  dumps e = dump_payload e.payload >>= λ _. ok e
