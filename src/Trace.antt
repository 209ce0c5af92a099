-- ===== src/Trace.antt =====
-- Spans and their context, as app/cdc_consumer.py, app/events.py and app/frontend_api.py use them. The
-- OpenTelemetry SDK is a parameter: what it makes of a span, what its W3C propagator writes and reads,
-- and what its meter does.
use fleet_telemetry_system.Prelude.{
  ℕ, String, Option, none, some, List, ◌∷◌, ◌≡◌, length, Outcome, ok, raised,
}
use fleet_telemetry_system.Prelude.Dict.{Dict, lookup}
use fleet_telemetry_system.Cdc.Event.{EventType, Carrier}

pub record Sdk (Context : Type 0) : Type 0 where
  -- `Context()`
  pub empty : Context
  -- The context in which the n-th span of the process is active, that is started in a context.
  pub start : ℕ → Context → String → Context
  -- `_PROPAGATOR.inject(carrier)` in a context, and `_PROPAGATOR.extract(carrier, context=Context())`.
  pub inject : Context → Outcome Carrier
  pub extract : Carrier → Outcome Context
  -- `EVENT_COUNTER.add(1, attrs)`
  pub add : EventType → Outcome (Unit {0})

-- What the SDK documents: a span belongs to the trace of the span that is active where it is started,
-- and a context that was written into a carrier is read back as one with the same trace and span.
pub record Propagates {Context : Type 0} (sdk : Sdk Context) (trace_of span_of : Context → Option ℕ)
    : Type 0 where
  pub child :
      (n : ℕ) (c : Context) (name : String) (t : ℕ)
      → trace_of c ≡ some t
      → trace_of (sdk.start n c name) ≡ some t
  pub remote :
      (c : Context) (x : String × String) (rest : Carrier)
      → sdk.inject c ≡ ok (x ∷ rest)
      → (d : Context) × (sdk.extract (x ∷ rest) ≡ ok d)
        × (trace_of d ≡ trace_of c)
        × (span_of d ≡ span_of c)

-- A span that was started: its name, the context that it was started in, and its own.
pub record Started (Context : Type 0) : Type 0 where
  pub name : String
  pub parent : Context
  pub context : Context

-- The spans that were started, the latest first, and the context that is active.
pub record Spans (Context : Type 0) : Type 0 where
  pub spans : List (Started Context)
  pub active : Context

module _ {Context : Type 0} (sdk : Sdk Context) where
  abbrev pub started : String → Spans Context → Spans Context
  started name s =
      let c = sdk.start (length s.spans) s.active name in
      record {
        active = c;
        spans = record { name = name; parent = s.active; context = c } ∷ s.spans;
      }

-- JSON values are a parameter: `as_dict` is `isinstance(carrier, dict)`.
module _ {Context V : Type 0} (sdk : Sdk Context) (as_dict : V → Option Carrier) where
  abbrev pub or_empty : Outcome Context → Context
  or_empty (ok c) = c
  or_empty (raised _) = sdk.empty

  abbrev pub extract_from : Option Carrier → Context
  extract_from none = sdk.empty
  extract_from (some carrier) = or_empty (sdk.extract carrier)

  abbrev pub carried : Option V → Option Carrier
  carried none = none
  carried (some v) = as_dict v

  unfoldable pub extract_trace_context : Dict V → Context
  unfolding lookup
  extract_trace_context envelope = extract_from (carried (lookup "_trace" envelope))
