-- ===== src/Cdc/Traced.antt =====
-- `_emit` of app/cdc_consumer.py with its spans and metrics.
pub mod Erased
pub mod Metered
pub mod Opened
use fleet_telemetry_system.Prelude.{
  ℕ, suc, String, Option, none, some, List, [], ◌∷◌, ◌≡◌, refl, ap, ◌∙◌, arith, length, Outcome, ok,
  raised, Exception,
}
use fleet_telemetry_system.Prelude.Int.{ℤ}
use fleet_telemetry_system.Prelude.Effects.{Effect, pure, lift, continue, ◌>>=◌, ◌>>◌}
use fleet_telemetry_system.Text.{Text}
use fleet_telemetry_system.Cdc.Event.{
  Row, EventType, event_type_of, Payload, build_payload, Envelope, inject_trace_context, dumps,
}
use fleet_telemetry_system.Cdc.Decode.{
  Consumer, Consuming, publish, relation, message, emit_as, emit,
}
use fleet_telemetry_system.Trace.{Sdk, Started}

-- The consumer, the spans that were started and the samples of `EVENT_COUNTER`, the latest first, and the
-- context that is active.
pub record Traced (F Context : Type 0) : Type 0 where
  pub consumer : Consumer F
  pub spans : List (Started Context)
  pub active : Context
  pub counted : List EventType

abbrev pub Tracing : Type 0 → Type 0 → Type 0 → Type 0
Tracing F Context A = Effect (Traced F Context) A

module _ {F Context A : Type 0} where
  abbrev pub with_consumer :
      Outcome A × Consumer F → Traced F Context → Outcome A × Traced F Context
  with_consumer (r, c) s = (r, record s { consumer = c })

  abbrev pub on_consumer : Consuming F A → Tracing F Context A
  on_consumer m s = with_consumer (m s.consumer) s

  abbrev pub leave : Context → Outcome A × Traced F Context → Outcome A × Traced F Context
  leave before (r, s) = (r, record s { active = before })

module _ {F Context : Type 0} (sdk : Sdk Context) where
  abbrev pub opened : String → Traced F Context → Traced F Context
  opened name s =
      let c = sdk.start (length s.spans) s.active name in
      record s {
        active = c;
        spans = record { name = name; parent = s.active; context = c } ∷ s.spans;
      }

  -- `with _tracer.start_as_current_span(name)`: an exception passes by it.
  unfoldable pub start_as_current_span :
      {A : Type 0} → String → Tracing F Context A → Tracing F Context A
  start_as_current_span name body s = leave s.active (body (opened name s))

  -- The carrier of the active context goes into the envelope, which is then printed.
  unfoldable pub traced_message : Envelope F → Tracing F Context (Envelope F)
  traced_message e s = (
    dumps (inject_trace_context (sdk.inject s.active) e),
    record s { consumer = record (s.consumer) { injections = suc s.consumer.injections } },
  )

  abbrev pub counted_if : Outcome (Unit {0}) → EventType → Traced F Context → Traced F Context
  counted_if (ok _) t s = record s { counted = t ∷ s.counted }
  counted_if (raised _) t s = s

  -- The counter, under `suppress(Exception)`.
  abbrev pub record_metrics : EventType → Tracing F Context (Unit {0})
  record_metrics t s = (ok tt, counted_if (sdk.add t) t s)

  module _ (float_of : Text → Outcome F) where
    unfoldable pub publish_span : EventType → Payload F → Tracing F Context (Unit {0})
    unfolding traced_message
    publish_span t payload = do
      m ← traced_message (record { event_type = t; payload = payload; carrier = none })
      on_consumer (publish m)

    unfoldable pub decode_span : EventType → Text → Row → Tracing F Context (Unit {0})
    unfolding publish_span start_as_current_span
    decode_span t relname values = do
      payload ← lift (build_payload float_of relname values)
      start_as_current_span "cdc.publish" (publish_span t payload)

    unfoldable pub emit_traced_as : Option EventType → Text → Row → Tracing F Context (Unit {0})
    unfolding decode_span start_as_current_span
    emit_traced_as none relname values = pure tt
    emit_traced_as (some t) relname values = do
      start_as_current_span "cdc.decode" (decode_span t relname values)
      record_metrics t

    unfoldable pub emit_traced : ℤ → Row → Tracing F Context (Unit {0})
    unfolding emit_traced_as
    emit_traced oid values = do
      (relname, columns) ← on_consumer (relation oid)
      emit_traced_as (event_type_of relname) relname values
