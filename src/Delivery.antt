-- ===== src/Delivery.antt =====
-- From the consumer of app/cdc_consumer.py to a client of app/frontend_api.py: what is published on the
-- channel, and what a connection is sent of it. JSON values are a parameter, as are the values of an
-- event's type, its payload and its carrier, and `json.loads` and `json.dumps`.
pub mod Connected
pub mod Alerts
use fleet_telemetry_system.Prelude.{
  ap, ◌∙◌, count, ℕ, ◌<◌, ◌^◌, true, Option, none, some, List, [], ◌∷◌, ◌≡◌, refl, arith, Outcome,
  ok, raised, All, length, eqb, any-eq_true,
}
use fleet_telemetry_system.Prelude.Int.{pos}
use fleet_telemetry_system.Prelude.Dict.{Dict, lookup}
use fleet_telemetry_system.Text.{Text}
use fleet_telemetry_system.Cdc.Event.{
  Cell, EventType, Payload, Carrier, Envelope, event_type_of, build_payload, dump_payload,
  inject_trace_context,
}
use fleet_telemetry_system.Cdc.Decode.{Consumer, find_relation, decode_pgoutput}
use fleet_telemetry_system.Cdc.Decode.Encoded.{encode_insert, IsEncodable, assign_all}
use fleet_telemetry_system.Cdc.Decode.Inserts.{decode_pgoutput-published}
use fleet_telemetry_system.Frontend.{
  ConnectionRegistry, Turn, member, strip_trace_context, has_carrier, forwarded, fan_out,
}
use fleet_telemetry_system.Frontend.Inbox.{inbox, broadcast-inbox}
use fleet_telemetry_system.Frontend.Membership.{HoldsOnce}

-- How values of Python are written as JSON.
pub record Json (F V : Type 0) : Type 0 where
  pub of_type : EventType → V
  pub of_payload : Payload F → V
  pub of_carrier : Carrier → V

module _ {F V : Type 0} (json : Json F V) where
  abbrev pub trace : Option Carrier → Dict V
  trace none = []
  trace (some c) = ("_trace", json.of_carrier c) ∷ []

  -- The dictionary that `_emit` prints.
  abbrev pub envelope_dict : Envelope F → Dict V
  envelope_dict e =
      ("type", json.of_type e.event_type) ∷ ("payload", json.of_payload e.payload) ∷ trace e.carrier

  -- The message of a client: an event's type and its payload.
  abbrev pub patch_dict : EventType → Payload F → Dict V
  patch_dict t p = ("type", json.of_type t) ∷ ("payload", json.of_payload p) ∷ []

  strip-envelope_dict :
      (t : EventType) (p : Payload F) (carrier : Option Carrier)
      → strip_trace_context
          (envelope_dict (record { event_type = t; payload = p; carrier = carrier }))
        ≡ patch_dict t p
  unfolding strip_trace_context
  strip-envelope_dict t p none = refl
  strip-envelope_dict t p (some c) = refl

  module _ {Raw : Type 0} (loads : Raw → Outcome (Option (Dict V))) (dumps : Dict V → Raw)
      (reads : (e : Dict V) → loads (dumps e) ≡ ok (some e)) where
    forwarded-patch :
        (t : EventType) (p : Payload F) (carrier : Option Carrier)
        → forwarded loads dumps
            (dumps (envelope_dict (record { event_type = t; payload = p; carrier = carrier })))
          ≡ dumps (patch_dict t p)
    unfolding forwarded strip_trace_context has_carrier lookup
    forwarded-patch t p none = rw (reads (patch_dict t p)) refl
    forwarded-patch t p (some c) =
        rw (reads (envelope_dict (record { event_type = t; payload = p; carrier = some c }))) refl

    inject-envelope :
        (r : Outcome Carrier) (t : EventType) (p : Payload F)
        → forwarded loads dumps (
            dumps (
              envelope_dict
                (inject_trace_context r (record { event_type = t; payload = p; carrier = none }))))
          ≡ dumps (patch_dict t p)
    unfolding inject_trace_context
    inject-envelope (ok []) t p = forwarded-patch t p none
    inject-envelope (ok (x ∷ c)) t p = forwarded-patch t p (some (x ∷ c))
    inject-envelope (raised _) t p = forwarded-patch t p none

-- The event that the consumer publishes of a payload.
abbrev pub emitted : {F : Type 0} → Consumer F → EventType → Payload F → Envelope F
emitted s t p =
    inject_trace_context (s.propagate s.injections)
      (record { event_type = t; payload = p; carrier = none })

module _ {F V Raw : Type 0} (float_of : Text → Outcome F) (json : Json F V)
    (loads : Raw → Outcome (Option (Dict V))) (dumps : Dict V → Raw)
    (reads : (e : Dict V) → loads (dumps e) ≡ ok (some e)) where
  -- A row that is inserted into a watched table is published as one event, and of its text on the channel
  -- a connection that is registered before and after the broadcast is sent one more message, which is
  -- read as the event's type and payload and nothing else, whichever carrier the event had and whichever
  -- clients come, leave or fail meanwhile. The row is as pgoutput encodes it, its payload is built and
  -- printed, no call of the consumer fails, and `json.loads` reads what `json.dumps` prints.
  pub insert-inbox :
      (oid : ℕ) (cs : List Cell) (relname : Text) (columns : List Text) (t : EventType)
      (p : Payload F) (s : Consumer F) (ws : ℕ) (turns : List Turn) (r r₁ : ConnectionRegistry Raw)
      → oid < 2 ^ 31
      → length cs < 2 ^ 15
      → length columns ≡ length cs
      → All IsEncodable cs
      → find_relation (pos oid) s.relations ≡ some (relname, columns)
      → event_type_of relname ≡ some t
      → build_payload float_of relname (assign_all columns cs []) ≡ ok p
      → dump_payload p ≡ ok tt
      → s.outages ≡ []
      → HoldsOnce r
      → member ws r.connections ≡ true
      → fan_out loads dumps (dumps (envelope_dict json (emitted s t p))) turns r ≡ some r₁
      → member ws r₁.connections ≡ true
      → ((decode_pgoutput float_of (encode_insert oid cs) s).1.published
          ≡ emitted s t p ∷ s.published)
        × (text : Raw) × (loads text ≡ ok (some (patch_dict json t p)))
        × (inbox ws r₁.delivered ≡ text ∷ inbox ws r.delivered)
  unfolding fan_out
  insert-inbox oid cs relname columns t p s ws turns r r₁ small few n e cached watched built printed
        up once here sent still =
      let one : count (eqb ws) r.connections ≡ 1 =
        omega (arith, once ws, any-eq_true (eqb ws) r.connections here) in
      (
        (decode_pgoutput-published float_of oid cs relname columns t p s small few n e cached
            watched built printed up).1,
        dumps (patch_dict json t p),
        reads (patch_dict json t p),
        broadcast-inbox ws (forwarded loads dumps (dumps (envelope_dict json (emitted s t p))))
              turns r r₁ one sent still
            ∙ ap (λ text. text ∷ inbox ws r.delivered)
                (inject-envelope json loads dumps reads (s.propagate s.injections) t p),
      )
