-- ===== src/Cdc/Traced/Metered.antt =====
-- The counter of published events.
use mathlib.Core.Path.{subst}
use fleet_telemetry_system.Prelude.{
  suc, Bool, true, false, Option, none, some, List, [], ◌∷◌, map, ◌≡◌, refl, sym, ap, ◌∙◌, arith,
  Outcome, ok, raised, redis_error,
}
use fleet_telemetry_system.Prelude.Int.{ℤ}
use fleet_telemetry_system.Prelude.Effects.{continue, ◌>>=◌}
use fleet_telemetry_system.Text.{Text}
use fleet_telemetry_system.Cdc.Event.{
  Row, EventType, event_type_of, Payload, build_payload, Carrier, Envelope, inject_trace_context,
  dumps,
}
use fleet_telemetry_system.Cdc.Decode.{call, call_with, push_event, publish, relation, Relation}
use fleet_telemetry_system.Cdc.Decode.Published.{dumps-ok}
use fleet_telemetry_system.Trace.{Sdk}
use fleet_telemetry_system.Cdc.Traced.{
  Traced, with_consumer, on_consumer, leave, opened, start_as_current_span, traced_message,
  record_metrics, publish_span, decode_span, emit_traced_as, emit_traced,
}

-- The samples are the types of the published events, in their order.
abbrev pub IsMetered : {F Context : Type 0} → Traced F Context → Type 0
IsMetered s = s.counted ≡ map (λ e. e.event_type) s.consumer.published

-- One event of the type is published more if the call returns, and none if it raises; no sample is added.
abbrev Once :
    {F Context : Type 0}
    → EventType
    → List (Envelope F)
    → List EventType
    → Outcome (Unit {0}) × Traced F Context
    → Type 0
Once t l k (ok _, s) =
    ((m : Envelope _) × (s.consumer.published ≡ m ∷ l) × (m.event_type ≡ t)) × (s.counted ≡ k)
Once t l k (raised _, s) = (s.consumer.published ≡ l) × (s.counted ≡ k)

inject-event_type :
    {F : Type 0} (c : Outcome Carrier) (e : Envelope F)
    → (inject_trace_context c e).event_type ≡ e.event_type
unfolding inject_trace_context
inject-event_type (ok []) e = refl
inject-event_type (ok (x ∷ c)) e = refl
inject-event_type (raised x) e = refl

module _ {F Context : Type 0} (sdk : Sdk Context) where
  push-Once :
      (b : List Bool) (m : Envelope F) (s : Traced F Context)
      → let (r, c) = call_with b redis_error s.consumer in
        Once m.event_type s.consumer.published s.counted
          (with_consumer (continue r (λ _. push_event m) c) s)
  push-Once [] m s = ((m, refl, refl), refl)
  push-Once (true ∷ b) m s = (refl, refl)
  push-Once (false ∷ b) m s = ((m, refl, refl), refl)

  publish-Once :
      (m : Envelope F) (s : Traced F Context)
      → Once m.event_type s.consumer.published s.counted (on_consumer (publish m) s)
  unfolding publish call ◌>>=◌
  publish-Once m s = push-Once s.consumer.outages m s

  message-Once :
      (r : Outcome (Envelope F)) (e : Envelope F) (s : Traced F Context)
      → dumps e ≡ r
      → Once e.event_type s.consumer.published s.counted
          (continue r (λ m. on_consumer (publish m)) s)
  message-Once (ok m) e s h =
      subst (λ t. Once t s.consumer.published s.counted (on_consumer (publish m) s))
        (ap (λ e. e.event_type) (dumps-ok e m h).0) (publish-Once m s)
  message-Once (raised x) e s h = (refl, refl)

  leave-Once :
      (t : EventType) (l : List (Envelope F)) (k : List EventType) (c : Context)
      (x : Outcome (Unit {0}) × Traced F Context)
      → Once t l k x
      → Once t l k (leave c x)
  leave-Once t l k c (ok _, s) h = h
  leave-Once t l k c (raised _, s) h = h

  record-IsMetered :
      (t : EventType) (s : Traced F Context) (x : Outcome (Unit {0}) × Traced F Context)
      → sdk.add t ≡ ok tt
      → IsMetered s
      → Once t s.consumer.published s.counted x
      → IsMetered (continue x.0 (λ _. record_metrics sdk t) x.1).1
  record-IsMetered t s (ok _, s') works h ((m, p, e), k) = rw works (ground (arith, p, e, k, h))
  record-IsMetered t s (raised _, s') works h (p, k) =
      k ∙ h ∙ ap (λ l. map (λ e. e.event_type) l) (sym p)

  module _ (float_of : Text → Outcome F) where
    publish_span-Once :
        (t : EventType) (payload : Payload F) (s : Traced F Context)
        → Once t s.consumer.published s.counted (publish_span sdk float_of t payload s)
    unfolding publish_span traced_message ◌>>=◌
    publish_span-Once t payload s =
        let e : Envelope F = record { event_type = t; payload = payload; carrier = none } in
        let s' : Traced F Context = record s {
          consumer = record (s.consumer) { injections = suc s.consumer.injections };
        } in
        subst
          (λ u. Once u s.consumer.published s.counted (
            continue (dumps (inject_trace_context (sdk.inject s.active) e))
              (λ m. on_consumer (publish m)) s'))
          (inject-event_type (sdk.inject s.active) e)
          (message-Once _ (inject_trace_context (sdk.inject s.active) e) s' refl)

    decoded-Once :
        (r : Outcome (Payload F)) (t : EventType) (s : Traced F Context)
        → Once t s.consumer.published s.counted (
            continue r
              (λ p. start_as_current_span sdk "cdc.publish" (publish_span sdk float_of t p))
              s)
    unfolding start_as_current_span
    decoded-Once (ok p) t s =
        leave-Once t _ _ s.active _ (publish_span-Once t p (opened sdk "cdc.publish" s))
    decoded-Once (raised e) t s = (refl, refl)

    emit_traced_as-IsMetered :
        (o : Option EventType) (relname : Text) (values : Row) (s : Traced F Context)
        → ((t : EventType) → sdk.add t ≡ ok tt)
        → IsMetered s
        → IsMetered (emit_traced_as sdk float_of o relname values s).1
    unfolding emit_traced_as start_as_current_span decode_span ◌>>=◌
    emit_traced_as-IsMetered none relname values s works h = h
    emit_traced_as-IsMetered (some t) relname values s works h =
        record-IsMetered t s _ (works t) h (
          leave-Once t _ _ s.active _
            (decoded-Once (build_payload float_of relname values) t (opened sdk "cdc.decode" s)))

    relation-IsMetered :
        (r : Outcome Relation) (values : Row) (s : Traced F Context)
        → ((t : EventType) → sdk.add t ≡ ok tt)
        → IsMetered s
        → IsMetered
            (continue r (λ x. emit_traced_as sdk float_of (event_type_of x.0) x.0 values) s).1
    relation-IsMetered (ok (relname, columns)) values s works h =
        emit_traced_as-IsMetered (event_type_of relname) relname values s works h
    relation-IsMetered (raised e) values s works h = h

    -- If the meter works, the samples of the counter of published events are the types of the events on
    -- the channel, each once and in their order: every call of `_emit` keeps this, for any table and row,
    -- also when it raises.
    pub emit_traced-IsMetered :
        (oid : ℤ) (values : Row) (s : Traced F Context)
        → ((t : EventType) → sdk.add t ≡ ok tt)
        → IsMetered s
        → IsMetered (emit_traced sdk float_of oid values s).1
    unfolding emit_traced relation ◌>>=◌
    emit_traced-IsMetered oid values s works h = relation-IsMetered _ values s works h
