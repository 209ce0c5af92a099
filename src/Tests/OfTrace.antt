-- ===== src/Tests/OfTrace.antt =====
-- An event of `zone_counts` with its spans, from the consumer to the broadcast.
use Prim.Native.String.{count}
use fleet_telemetry_system.Prelude.{
  List, ℕ, String, Option, none, some, [], ◌∷◌, ◌≡◌, refl, arith, ok,
}
use fleet_telemetry_system.Prelude.Int.{ℤ, pos}
use fleet_telemetry_system.Prelude.Dict.{Dict}
use fleet_telemetry_system.Text.{codes}
use fleet_telemetry_system.Cdc.Event.{
  Row, zone_count_changed, Carrier, zone_count, Envelope, text, event_type_of, build_payload,
}
use fleet_telemetry_system.Cdc.Decode.{emit}
use fleet_telemetry_system.IngestionApi.{telemetry, vehicle_status}
use fleet_telemetry_system.IngestionApi.Traced.{
  Incoming, parents, serve_all_traced, serve_all_traced-serve_all,
}
use fleet_telemetry_system.Tests.Samples.{fixed, garage, parse_event, parse_update}
use fleet_telemetry_system.Trace.{Spans, Sdk, Propagates}
use fleet_telemetry_system.Cdc.Traced.{Traced, emit_traced}
use fleet_telemetry_system.Cdc.Traced.Erased.{erase, publish_context, emit_traced-emit}
use fleet_telemetry_system.Cdc.Traced.Opened.{decode_started, publish_started}
use fleet_telemetry_system.Frontend.{ConnectionRegistry, sends}
use fleet_telemetry_system.Frontend.Traced.{fan_out_traced}
use fleet_telemetry_system.Delivery.{Json, envelope_dict}
use fleet_telemetry_system.Delivery.Connected.{Connected, emit_traced-Connected}
use fleet_telemetry_system.Tests.OfCdc.{consumer, float_of}

-- A context is the carrier that it is written as: one entry, of the trace and the span.
abbrev start : ℕ → Carrier → String → Carrier
start n [] name = ("trace", name) ∷ []
start n ((trace, _) ∷ _) name = (trace, name) ∷ []

abbrev sdk : Sdk Carrier
sdk = record {
  empty = [];
  start = start;
  inject = λ c. ok c;
  extract = λ c. ok c;
  add = λ t. ok tt;
}

abbrev trace_of : Carrier → Option ℕ
trace_of [] = none
trace_of ((trace, _) ∷ _) = some (count trace)

abbrev span_of : Carrier → Option ℕ
span_of [] = none
span_of ((_, span) ∷ _) = some (count span)

start-trace :
    (n : ℕ) (c : Carrier) (name : String) (t : ℕ)
    → trace_of c ≡ some t
    → trace_of (start n c name) ≡ some t
start-trace n [] name t h = cc
start-trace n ((trace, span) ∷ rest) name t h = h

sdk-Propagates : Propagates sdk trace_of span_of
sdk-Propagates = record {
  child = start-trace;
  remote = λ c x rest h. (x ∷ rest, refl, ground (arith, h), ground (arith, h));
}

-- Only a carrier is a JSON object here.
abbrev json : Json ℤ (Option Carrier)
json = record { of_type = λ t. none; of_payload = λ p. none; of_carrier = λ c. some c }

abbrev row : Row
row = (codes "zone_id", text (codes "aisle_a")) ∷ (codes "entry_count", text (codes "8")) ∷ []

abbrev idle : Traced ℤ Carrier
idle = record {
  consumer = record consumer { propagate = λ n. ok (("trace", "cdc.publish") ∷ []) };
  spans = [];
  active = [];
  counted = [];
}

abbrev front : Spans Carrier
front = record { spans = []; active = [] }

abbrev client : ConnectionRegistry (Dict (Option Carrier))
client = record { connections = 1 ∷ []; delivered = []; broadcasts = 0 }

emit_traced-emit_example :
    erase (emit_traced sdk float_of (pos 5) row idle) ≡ emit float_of (pos 5) row idle.consumer
emit_traced-emit_example = emit_traced-emit sdk float_of (pos 5) row idle refl

emit_traced-Connected_example :
    let after = (emit_traced sdk float_of (pos 5) row idle).1 in
    (after.spans ≡ publish_started sdk idle ∷ decode_started sdk idle ∷ [])
    × (trace_of (publish_context sdk idle) ≡ some 5)
    × (e : Envelope ℤ) × (after.consumer.published ≡ e ∷ [])
    × Connected sdk trace_of span_of sdk-Propagates json
        (λ v. v)
        (λ c. refl)
        (λ e. ok (some e))
        (λ e. e)
        (λ e. refl)
        (publish_context sdk idle)
        5
        front
        (fan_out_traced sdk
          (λ v. v)
          (λ e. ok (some e))
          (λ e. e)
          (envelope_dict json e)
          (sends ∷ [])
          client
          front).1
unfolding event_type_of build_payload
emit_traced-Connected_example =
    emit_traced-Connected sdk trace_of span_of sdk-Propagates json (λ v. v) (λ c. refl)
      (λ e. ok (some e)) (λ e. e) (λ e. refl) float_of (pos 5) (codes "zone_counts")
      (codes "zone_id" ∷ codes "entry_count" ∷ []) row zone_count_changed
      (zone_count (text (codes "aisle_a")) (some (pos 8))) 5 ("trace", "cdc.publish") [] idle
      (sends ∷ []) client front refl refl refl refl refl refl refl refl

abbrev incoming : List (Incoming ℕ Carrier)
incoming =
    record { request = telemetry 0; context = ("first", "POST") ∷ [] }
    ∷ record { request = telemetry 2; context = ("second", "POST") ∷ [] }
    ∷ record { request = vehicle_status "v-1" 1; context = ("third", "POST") ∷ [] }
    ∷ []

-- Only the first request writes telemetry.
written_below :
    parents sdk fixed parse_event parse_update
      (serve_all_traced sdk fixed parse_event parse_update incoming
        (record { session = garage; tracing = front })).1
    ≡ (("first", "POST") ∷ []) ∷ []
written_below =
    (serve_all_traced-serve_all sdk fixed parse_event parse_update incoming
      (record { session = garage; tracing = front })).1
