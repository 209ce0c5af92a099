-- ===== src/Cdc/Traced/Opened.antt =====
-- The spans that an event opens.
use fleet_telemetry_system.Prelude.{some, List, ◌∷◌, ◌≡◌, refl, ◌∙◌, Outcome, ok, raised}
use fleet_telemetry_system.Prelude.Int.{ℤ}
use fleet_telemetry_system.Prelude.Effects.{continue, ◌>>=◌}
use fleet_telemetry_system.Text.{Text}
use fleet_telemetry_system.Cdc.Event.{
  Row, EventType, event_type_of, Payload, build_payload, Envelope,
}
use fleet_telemetry_system.Cdc.Decode.{publish, relation, find_relation}
use fleet_telemetry_system.Trace.{Sdk, Started}
use fleet_telemetry_system.Cdc.Traced.{
  Traced, on_consumer, opened, start_as_current_span, traced_message, counted_if, record_metrics,
  publish_span, decode_span, emit_traced_as, emit_traced,
}
use fleet_telemetry_system.Cdc.Traced.Erased.{decode_context, publish_context}

module _ {F Context : Type 0} (sdk : Sdk Context) where
  abbrev pub decode_started : Traced F Context → Started Context
  decode_started s = record {
    name = "cdc.decode";
    parent = s.active;
    context = decode_context sdk s;
  }

  abbrev pub publish_started : Traced F Context → Started Context
  publish_started s = record {
    name = "cdc.publish";
    parent = decode_context sdk s;
    context = publish_context sdk s;
  }

  spans-continue :
      (r : Outcome (Envelope F)) (s : Traced F Context)
      → (continue r (λ m. on_consumer (publish m)) s).1.spans ≡ s.spans
  spans-continue (ok m) s = refl
  spans-continue (raised e) s = refl

  spans-counted_if :
      (r : Outcome (Unit {0})) (t : EventType) (s : Traced F Context)
      → (counted_if sdk r t s).spans ≡ s.spans
  spans-counted_if (ok _) t s = refl
  spans-counted_if (raised _) t s = refl

  spans-record_metrics :
      (t : EventType) (x : Outcome (Unit {0}) × Traced F Context)
      → (continue x.0 (λ _. record_metrics sdk t) x.1).1.spans ≡ x.1.spans
  spans-record_metrics t (ok _, s) = spans-counted_if (sdk.add t) t s
  spans-record_metrics t (raised e, s) = refl

  module _ (float_of : Text → Outcome F) where
    spans-publish_span :
        (t : EventType) (p : Payload F) (s : Traced F Context)
        → (publish_span sdk float_of t p s).1.spans ≡ s.spans
    unfolding publish_span traced_message ◌>>=◌
    spans-publish_span t p s = spans-continue _ _

    -- An event that is watched and translated opens a decode span and in it a publish span, whether or not
    -- it can be published.
    pub emit_traced-spans :
        (oid : ℤ) (relname : Text) (columns : List Text) (values : Row) (t : EventType)
        (p : Payload F) (s : Traced F Context)
        → find_relation oid s.consumer.relations ≡ some (relname, columns)
        → event_type_of relname ≡ some t
        → build_payload float_of relname values ≡ ok p
        → (emit_traced sdk float_of oid values s).1.spans
          ≡ publish_started s ∷ decode_started s ∷ s.spans
    unfolding emit_traced emit_traced_as relation start_as_current_span decode_span ◌>>=◌
    emit_traced-spans oid relname columns values t p s cached watched built =
        rw (cached, watched, built)
          (spans-record_metrics t _
            ∙ spans-publish_span t p (opened sdk "cdc.publish" (opened sdk "cdc.decode" s)))
