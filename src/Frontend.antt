-- ===== src/Frontend.antt =====
-- app/frontend_api.py: the registry of connections, and the fan-out of a message to them, with clients
-- that come and go between its sends. Of app/events.py, `strip_trace_context`.
pub mod Fanout
pub mod Inbox
pub mod Forwarded
pub mod Membership
pub mod Subscriber
pub mod WebSocket
pub mod Routes
pub mod Traced
pub mod Cors
pub mod Gauge
pub mod Observability
use fleet_telemetry_system.Prelude.{
  ℕ, suc, String, Bool, true, false, not, Option, none, some, List, [], ◌∷◌, ◌==◌, Outcome, ok,
  raised, any, select, length, eqb, if◌then◌else◌,
}
use fleet_telemetry_system.Prelude.Dict.{Dict, lookup}

-- Connections are numbered. `delivered` has what was sent to whom, the latest first.
pub record ConnectionRegistry (Message : Type 0) : Type 0 where
  pub connections : List ℕ
  pub delivered : List (ℕ × Message)
  pub broadcasts : ℕ

-- A broadcast between two sends: the registry, and the targets that are left or have failed.
pub record Sending (Message : Type 0) : Type 0 where
  pub registry : ConnectionRegistry Message
  pub message : Message
  pub pending : List ℕ
  pub dead : List ℕ

abbrev pub member : ℕ → List ℕ → Bool
member ws connections = any (eqb ws) connections

-- What happens next: another task adds or removes a connection, or the send to the next target works
-- or fails.
pub data Turn : Type 0 where
  joins leaves : ℕ → Turn
  sends fails : Turn

module _ {Message : Type 0} where
  unfoldable pub add : ℕ → ConnectionRegistry Message → ConnectionRegistry Message
  add ws r = record r {
    connections = if member ws r.connections then r.connections else ws ∷ r.connections;
  }

  unfoldable pub remove : ℕ → ConnectionRegistry Message → ConnectionRegistry Message
  remove ws r = record r { connections = select (λ c. not (eqb ws c)) r.connections }

  unfoldable pub size : ConnectionRegistry Message → ℕ
  size r = length r.connections

  -- `targets = list(self._connections)`
  abbrev pub begin : Message → ConnectionRegistry Message → Sending Message
  begin m r = record { registry = r; message = m; pending = r.connections; dead = [] }

  abbrev pub send_next : List ℕ → Sending Message → Sending Message
  send_next [] s = s
  send_next (ws ∷ rest) s = record s {
    pending = rest;
    registry = record (s.registry) { delivered = (ws, s.message) ∷ s.registry.delivered };
  }

  abbrev pub fail_next : List ℕ → Sending Message → Sending Message
  fail_next [] s = s
  fail_next (ws ∷ rest) s = record s { pending = rest; dead = ws ∷ s.dead }

  unfoldable pub turn : Turn → Sending Message → Sending Message
  unfolding add remove
  turn (joins ws) s = record s { registry = add ws s.registry }
  turn (leaves ws) s = record s { registry = remove ws s.registry }
  turn sends s = send_next s.pending s
  turn fails s = fail_next s.pending s

  unfoldable pub turns : List Turn → Sending Message → Sending Message
  unfolding turn
  turns [] s = s
  turns (t ∷ ts) s = turns ts (turn t s)

  -- `self._connections.difference_update(dead)`, and the metric.
  abbrev pub finish : List ℕ → Sending Message → Option (ConnectionRegistry Message)
  finish [] s = some (record (s.registry) {
    connections = select (λ c. not (member c s.dead)) s.registry.connections;
    broadcasts = suc s.registry.broadcasts;
  })
  finish (_ ∷ _) s = none

  -- A broadcast under the given turns; `none` while targets are left.
  unfoldable pub broadcast :
      Message → List Turn → ConnectionRegistry Message → Option (ConnectionRegistry Message)
  unfolding turns
  broadcast m ts r = let s = turns ts (begin m r) in finish s.pending s

-- Parsed envelopes have values `V`; `loads` is `json.loads`, where `ok none` is JSON that is no object.
module _ {V : Type 0} where
  -- `envelope.pop(TRACE_CONTEXT_KEY, None)`
  unfoldable pub strip_trace_context : Dict V → Dict V
  strip_trace_context [] = []
  strip_trace_context ((k, v) ∷ e) =
      if k == "_trace" then strip_trace_context e else (k, v) ∷ strip_trace_context e

  abbrev pub is_present : Option V → Bool
  is_present none = false
  is_present (some _) = true

  -- `TRACE_CONTEXT_KEY in envelope`
  unfoldable pub has_carrier : Dict V → Bool
  unfolding lookup
  has_carrier e = is_present (lookup "_trace" e)

module _ {V Raw : Type 0} (loads : Raw → Outcome (Option (Dict V))) (dumps : Dict V → Raw) where
  abbrev pub forward : Raw → Outcome (Option (Dict V)) → Raw
  forward raw (ok (some e)) = if has_carrier e then dumps (strip_trace_context e) else raw
  forward raw (ok none) = raw
  forward raw (raised _) = raw

  -- The text that `_fan_out` broadcasts.
  unfoldable pub forwarded : Raw → Raw
  unfolding has_carrier strip_trace_context
  forwarded raw = forward raw (loads raw)

  unfoldable pub fan_out :
      Raw → List Turn → ConnectionRegistry Raw → Option (ConnectionRegistry Raw)
  unfolding forwarded broadcast
  fan_out raw ts r = broadcast (forwarded raw) ts r
