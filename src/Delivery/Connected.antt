-- ===== src/Delivery/Connected.antt =====
-- The trace of an event, from the consumer to the broadcast to the clients.
use fleet_telemetry_system.Prelude.{
  ℕ, suc, String, Option, none, some, List, [], ◌∷◌, ◌≡◌, refl, sym, ap, ◌∙◌, length, Outcome, ok,
}
use fleet_telemetry_system.Prelude.Int.{ℤ}
use fleet_telemetry_system.Prelude.Dict.{Dict, lookup}
use fleet_telemetry_system.Cdc.Event.{
  Row, event_type_of, build_payload, dump_payload, EventType, Payload, Carrier, Envelope,
  inject_trace_context,
}
use fleet_telemetry_system.Frontend.{ConnectionRegistry, Turn}
use fleet_telemetry_system.Trace.{Spans, Sdk, Propagates, Started, extract_trace_context}
use fleet_telemetry_system.Frontend.Traced.{spans_in, parent_in, fan_out_traced}
use fleet_telemetry_system.Cdc.Traced.{Traced, emit_traced}
use fleet_telemetry_system.Cdc.Traced.Erased.{decode_context, publish_context, emit_traced-emit}
use fleet_telemetry_system.Cdc.Traced.Opened.{decode_started, publish_started, emit_traced-spans}
use fleet_telemetry_system.Cdc.Decode.{Consumer, find_relation, emit_as}
use fleet_telemetry_system.Cdc.Decode.Inserts.{emit-known, emit_as-published}
use fleet_telemetry_system.Text.{Text}
use mathlib.Core.Path.{subst}
use fleet_telemetry_system.Delivery.{Json, envelope_dict}

module _ {F V Raw Context : Type 0} (sdk : Sdk Context) (trace_of span_of : Context → Option ℕ)
    (laws : Propagates sdk trace_of span_of) (json : Json F V) (as_dict : V → Option Carrier)
    (reads_carrier : (c : Carrier) → as_dict (json.of_carrier c) ≡ some c)
    (loads : Raw → Outcome (Option (Dict V))) (dumps : Dict V → Raw)
    (reads : (e : Dict V) → loads (dumps e) ≡ ok (some e)) where
  -- The event with the carrier of a context.
  abbrev pub event_in : Context → EventType → Payload F → Envelope F
  event_in c t p =
      inject_trace_context (sdk.inject c) (record { event_type = t; payload = p; carrier = none })

  -- Two spans more than before: the broadcast's, in that of the subscription, which is in the trace and was
  -- started below the span of the context.
  pub record Connected (c : Context) (t : ℕ) (before after : Spans Context) : Type 0 where
    pub subscribe : Started Context
    pub broadcast : Started Context
    pub both : after.spans ≡ broadcast ∷ subscribe ∷ before.spans
    pub below : span_of subscribe.parent ≡ span_of c
    pub joined : trace_of subscribe.context ≡ some t
    pub nested : broadcast.parent ≡ subscribe.context
    pub same_trace : trace_of broadcast.context ≡ some t
    pub left : after.active ≡ before.active

  carried-context :
      (c : Context) (x : String × String) (rest : Carrier) (t : EventType) (p : Payload F)
      → sdk.inject c ≡ ok (x ∷ rest)
      → (d : Context) × (extract_trace_context sdk as_dict (envelope_dict json (event_in c t p))
          ≡ d)
        × (trace_of d ≡ trace_of c)
        × (span_of d ≡ span_of c)
  unfolding extract_trace_context inject_trace_context lookup
  carried-context c x rest t p h =
      let (d, e, same_trace, same_span) = laws.remote c x rest h in
      (d, rw (h, reads_carrier (x ∷ rest), e) refl, same_trace, same_span)

  spans_in-Connected :
      (c d : Context) (n : ℕ) (s : Spans Context)
      → trace_of d ≡ some n
      → span_of d ≡ span_of c
      → Connected c n s (spans_in sdk d s)
  spans_in-Connected c d n s traced same_span =
      let a = sdk.start (length s.spans) d "redis.subscribe" in
      let b = sdk.start (suc (length s.spans)) a "ws.broadcast" in
      let in_trace = laws.child (length s.spans) d "redis.subscribe" n traced in
      record {
        subscribe = record { name = "redis.subscribe"; parent = d; context = a };
        broadcast = record { name = "ws.broadcast"; parent = a; context = b };
        both = refl;
        below = same_span;
        joined = in_trace;
        nested = refl;
        same_trace = laws.child (suc (length s.spans)) a "ws.broadcast" n in_trace;
        left = refl;
      }

  fan_out_traced-Connected :
      (c : Context) (n : ℕ) (x : String × String) (rest : Carrier) (t : EventType) (p : Payload F)
      (turns : List Turn) (r : ConnectionRegistry Raw) (s : Spans Context)
      → trace_of c ≡ some n
      → sdk.inject c ≡ ok (x ∷ rest)
      → Connected c n s
          (fan_out_traced sdk as_dict loads dumps
            (dumps (envelope_dict json (event_in c t p)))
            turns
            r
            s).1
  unfolding fan_out_traced
  fan_out_traced-Connected c n x rest t p turns r s traced written =
      let (d, e, same_trace, same_span) = carried-context c x rest t p written in
      let parent =
        ap (parent_in sdk as_dict loads dumps s.active)
          (reads (envelope_dict json (event_in c t p)))
        ∙ e in
      subst (λ d. Connected c n s (spans_in sdk d s)) (sym parent)
        (spans_in-Connected c d n s (same_trace ∙ traced) same_span)

  module _ (float_of : Text → Outcome F) where
    -- An event is followed in one trace from the consumer to the clients. A call of `_emit` for a row of a
    -- watched table opens a decode span and in it a publish span, and publishes one event; when the text
    -- of that event is fanned out, the subscribe span is started below that publish span, and the
    -- broadcast span in it, and all four are in the trace of the decode span. The SDK works as it
    -- documents and writes a carrier, the row can be translated and printed, Redis is up, and `json.loads`
    -- reads what `json.dumps` prints.
    pub emit_traced-Connected :
        (oid : ℤ) (relname : Text) (columns : List Text) (values : Row) (t : EventType)
        (p : Payload F) (n : ℕ) (x : String × String) (rest : Carrier) (s : Traced F Context)
        (turns : List Turn) (r : ConnectionRegistry Raw) (front : Spans Context)
        → find_relation oid s.consumer.relations ≡ some (relname, columns)
        → event_type_of relname ≡ some t
        → build_payload float_of relname values ≡ ok p
        → dump_payload p ≡ ok tt
        → s.consumer.outages ≡ []
        → s.consumer.propagate s.consumer.injections ≡ sdk.inject (publish_context sdk s)
        → trace_of (decode_context sdk s) ≡ some n
        → sdk.inject (publish_context sdk s) ≡ ok (x ∷ rest)
        → let after = (emit_traced sdk float_of oid values s).1 in
          (after.spans ≡ publish_started sdk s ∷ decode_started sdk s ∷ s.spans)
          × (trace_of (publish_context sdk s) ≡ some n)
          × (e : Envelope F) × (after.consumer.published ≡ e ∷ s.consumer.published)
          × Connected
              (publish_context sdk s)
              n
              front
              (fan_out_traced sdk as_dict loads dumps
                (dumps (envelope_dict json e))
                turns
                r
                front).1
    emit_traced-Connected oid relname columns values t p n x rest s turns r front cached watched
          built printed up agrees traced written =
        let in_trace =
          laws.child (suc (length s.spans)) (decode_context sdk s) "cdc.publish" n traced in
        (
          emit_traced-spans sdk float_of oid relname columns values t p s cached watched built,
          in_trace,
          event_in (publish_context sdk s) t p,
          published_in,
          fan_out_traced-Connected (publish_context sdk s) n x rest t p turns r front in_trace
              written,
        )
      where
        published_in :
            (emit_traced sdk float_of oid values s).1.consumer.published
            ≡ event_in (publish_context sdk s) t p ∷ s.consumer.published
        published_in =
            ap (λ (y : Outcome (Unit {0}) × Consumer F). y.1.published)
              (emit_traced-emit sdk float_of oid values s agrees
                ∙ emit-known float_of oid relname columns values s.consumer cached
                ∙ ap (λ o. emit_as float_of o relname values s.consumer) watched)
            ∙ (emit_as-published float_of t relname values p s.consumer built printed up).1
            ∙ ap
                (λ w.
                  inject_trace_context w (record { event_type = t; payload = p; carrier = none })
                  ∷ s.consumer.published)
                agrees
