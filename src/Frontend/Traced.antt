-- ===== src/Frontend/Traced.antt =====
-- `_fan_out` of app/frontend_api.py with its spans, of which the first is started in the context that the
-- message carries. `extract_trace_context` of app/events.py is in Trace.
use fleet_telemetry_system.Prelude.{Option, none, some, List, Outcome, ok, raised}
use fleet_telemetry_system.Prelude.Dict.{Dict}
use fleet_telemetry_system.Cdc.Event.{Carrier}
use fleet_telemetry_system.Trace.{Sdk, Spans, started, extract_trace_context}
use fleet_telemetry_system.Frontend.{ConnectionRegistry, Turn, fan_out}

module _ {Context : Type 0} (sdk : Sdk Context) where
  -- Both spans, of which the first is started in the context `parent`: after they have ended the context is
  -- the one from before.
  abbrev pub spans_in : Context → Spans Context → Spans Context
  spans_in parent s =
      let s₁ = started sdk "redis.subscribe" (record s { active = parent }) in
      let s₂ = started sdk "ws.broadcast" s₁ in record s₂ { active = s.active }

module _ {Context V Raw : Type 0} (sdk : Sdk Context) (as_dict : V → Option Carrier)
    (loads : Raw → Outcome (Option (Dict V))) (dumps : Dict V → Raw) where
  -- The `parent` of the subscribe span: `None` stands for the context that is active.
  abbrev pub parent_in : Context → Outcome (Option (Dict V)) → Context
  parent_in active (ok (some envelope)) = extract_trace_context sdk as_dict envelope
  parent_in active (ok none) = active
  parent_in active (raised _) = active

  -- The registry after the broadcast, as in `fan_out`, and the spans.
  unfoldable pub fan_out_traced :
      Raw
      → List Turn
      → ConnectionRegistry Raw
      → Spans Context
      → Option (ConnectionRegistry Raw) × Spans Context
  unfolding fan_out extract_trace_context
  fan_out_traced raw turns r s =
      (fan_out loads dumps raw turns r, spans_in sdk (parent_in s.active (loads raw)) s)
