-- ===== src/Cdc/Traced/Erased.antt =====
-- Spans and metrics do not change what is published.
use fleet_telemetry_system.Prelude.{
  suc, Option, none, some, ◌≡◌, refl, ap, ◌∙◌, length, Outcome, ok, raised,
}
use fleet_telemetry_system.Prelude.Int.{ℤ}
use fleet_telemetry_system.Prelude.Effects.{continue, ◌>>=◌}
use fleet_telemetry_system.Text.{Text}
use fleet_telemetry_system.Cdc.Event.{
  Row, EventType, event_type_of, Payload, build_payload, Envelope,
}
use fleet_telemetry_system.Cdc.Decode.{
  Consumer, publish, relation, message, emit_as, emit, Relation,
}
use fleet_telemetry_system.Trace.{Sdk}
use fleet_telemetry_system.Cdc.Traced.{
  Traced, on_consumer, opened, start_as_current_span, traced_message, counted_if, record_metrics,
  publish_span, decode_span, emit_traced_as, emit_traced,
}

-- What is left of a traced call: its outcome, and the consumer.
abbrev pub erase : {F Context A : Type 0} → Outcome A × Traced F Context → Outcome A × Consumer F
erase (r, s) = (r, s.consumer)

module _ {F Context : Type 0} (sdk : Sdk Context) where
  abbrev pub decode_context : Traced F Context → Context
  decode_context s = sdk.start (length s.spans) s.active "cdc.decode"

  -- The context of the publish span of the next event.
  abbrev pub publish_context : Traced F Context → Context
  publish_context s = sdk.start (suc (length s.spans)) (decode_context s) "cdc.publish"

  erase-continue :
      (r : Outcome (Envelope F)) (s : Traced F Context)
      → erase (continue r (λ m. on_consumer (publish m)) s) ≡ continue r publish s.consumer
  erase-continue (ok m) s = refl
  erase-continue (raised e) s = refl

  publish_span-erase :
      (float_of : Text → Outcome F) (t : EventType) (payload : Payload F) (s : Traced F Context)
      → s.consumer.propagate s.consumer.injections ≡ sdk.inject s.active
      → erase (publish_span sdk float_of t payload s)
        ≡ (message (record { event_type = t; payload = payload; carrier = none }) >>= publish)
            s.consumer
  unfolding publish_span traced_message message ◌>>=◌
  publish_span-erase float_of t payload s h = rw h (erase-continue _ _)

  counted_if-consumer :
      (r : Outcome (Unit {0})) (t : EventType) (s : Traced F Context)
      → (counted_if sdk r t s).consumer ≡ s.consumer
  counted_if-consumer (ok _) t s = refl
  counted_if-consumer (raised _) t s = refl

  erase-record_metrics :
      (t : EventType) (x : Outcome (Unit {0}) × Traced F Context)
      → erase (continue x.0 (λ _. record_metrics sdk t) x.1) ≡ erase x
  erase-record_metrics t (ok tt, s) = ap (λ c. (ok tt, c)) (counted_if-consumer (sdk.add t) t s)
  erase-record_metrics t (raised e, s) = refl

  module _ (float_of : Text → Outcome F) where
    erase-decoded :
        (r : Outcome (Payload F)) (t : EventType) (s : Traced F Context)
        → s.consumer.propagate s.consumer.injections
          ≡ sdk.inject (sdk.start (length s.spans) s.active "cdc.publish")
        → erase (
            continue r
              (λ p. start_as_current_span sdk "cdc.publish" (publish_span sdk float_of t p))
              s)
          ≡ continue r
              (λ p. message (record { event_type = t; payload = p; carrier = none }) >>= publish)
              s.consumer
    unfolding start_as_current_span
    erase-decoded (ok p) t s h = publish_span-erase float_of t p (opened sdk "cdc.publish" s) h
    erase-decoded (raised e) t s h = refl

    emit_traced_as-erase :
        (o : Option EventType) (relname : Text) (values : Row) (s : Traced F Context)
        → s.consumer.propagate s.consumer.injections ≡ sdk.inject (publish_context s)
        → erase (emit_traced_as sdk float_of o relname values s)
          ≡ emit_as float_of o relname values s.consumer
    unfolding emit_traced_as emit_as start_as_current_span decode_span ◌>>=◌
    emit_traced_as-erase none relname values s h = refl
    emit_traced_as-erase (some t) relname values s h =
        erase-record_metrics t _
        ∙ unfold ◌>>=◌ in
          erase-decoded (build_payload float_of relname values) t (opened sdk "cdc.decode" s) h

    emit_traced-relation :
        (r : Outcome Relation) (values : Row) (s : Traced F Context)
        → s.consumer.propagate s.consumer.injections ≡ sdk.inject (publish_context s)
        → erase (continue r (λ x. emit_traced_as sdk float_of (event_type_of x.0) x.0 values) s)
          ≡ continue r (λ x. emit_as float_of (event_type_of x.0) x.0 values) s.consumer
    emit_traced-relation (ok (relname, columns)) values s h =
        emit_traced_as-erase (event_type_of relname) relname values s h
    emit_traced-relation (raised e) values s h = refl

    -- With its spans and metrics a call of `_emit` does to the consumer and the channel what it does
    -- without them, on every branch, whatever the SDK makes of the spans and even if the meter raises: no
    -- event more or less is published, and the same exceptions are raised. The propagator gives the call
    -- without spans what it writes for the publish span.
    pub emit_traced-emit :
        (oid : ℤ) (values : Row) (s : Traced F Context)
        → s.consumer.propagate s.consumer.injections ≡ sdk.inject (publish_context s)
        → erase (emit_traced sdk float_of oid values s) ≡ emit float_of oid values s.consumer
    unfolding emit_traced emit relation ◌>>=◌
    emit_traced-emit oid values s h = emit_traced-relation _ values s h
