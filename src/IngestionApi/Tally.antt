-- ===== src/IngestionApi/Tally.antt =====
-- The raw log and the zone counters count the accepted events, each once.
use mathlib.Core.Option
use fleet_telemetry_system.Prelude.{
  ℕ, suc, ◌+◌, String, Bool, true, false, Option, none, some, List, [], ◌∷◌, ◌≡◌, refl, ap, ◌∙◌,
  arith, length, length-append, Bool-cases, inl, inr, if◌then◌else◌,
}
use fleet_telemetry_system.Prelude.Dict.{lookup}
use fleet_telemetry_system.Models.{fault, same_status, TelemetryEvent, VehicleStatusUpdate}
use fleet_telemetry_system.Models.Floats.{Floats}
use fleet_telemetry_system.Store.{Db, Session}
use fleet_telemetry_system.Persistence.Ingest.Atomic.{Committed, enters}
use fleet_telemetry_system.Persistence.Fault.Transition.{Result}
use fleet_telemetry_system.Persistence.Fault.SetStatus.{StatusSet}
use fleet_telemetry_system.IngestionApi.{
  Response, accepted, applied, unprocessable, not_found, server_error, Request, telemetry,
  vehicle_status, serve, serve_all,
}
use fleet_telemetry_system.IngestionApi.Serving.{StatusChange, Change, serve-Change}

abbrev is_accepted : Response → Bool
is_accepted accepted = true
is_accepted _ = false

-- The number of 201 responses.
abbrev pub accepted_count : List Response → ℕ
accepted_count [] = 0
accepted_count (r ∷ rs) = if is_accepted r then suc (accepted_count rs) else accepted_count rs

abbrev event_enters : {F : Type 0} → String → Option (TelemetryEvent F) → Bool
event_enters z none = false
event_enters z (some e) = enters e.zone_entered z

module _ {F Body : Type 0} (parse_event : Body → Option (TelemetryEvent F)) where
  abbrev pub request_enters : String → Request Body → Response → Bool
  request_enters z (telemetry body) accepted = event_enters z (parse_event body)
  request_enters z _ _ = false

  -- The number of events with a 201 response that entered the zone.
  abbrev pub entries : String → List (Request Body) → List Response → ℕ
  entries z [] rs = 0
  entries z (request ∷ rest) [] = 0
  entries z (request ∷ rest) (r ∷ rs) =
      if request_enters z request r then suc (entries z rest rs) else entries z rest rs

abbrev pub plus : ℕ → Option ℕ → Option ℕ
plus k none = none
plus k (some n) = some (n + k)

plus_step :
    (b : Bool) (k : ℕ) (o : Option ℕ)
    → plus k (plus (if b then 1 else 0) o) ≡ plus (if b then suc k else k) o
plus_step true k none = refl
plus_step true k (some n) = ap some (omega arith)
plus_step false k none = refl
plus_step false k (some n) = ap some (omega arith)

plus-zero : (o : Option ℕ) → o ≡ plus 0 o
plus-zero none = refl
plus-zero (some n) = ap some (omega arith)

entered_plus :
    (b : Bool) (o : Option ℕ)
    → (if b then Option.map (λ n. n + 1) o else o) ≡ plus (if b then 1 else 0) o
entered_plus true none = refl
entered_plus true (some n) = refl
entered_plus false o = plus-zero o

module _ {F Body : Type 0} (fl : Floats F) (parse_event : Body → Option (TelemetryEvent F))
    (parse_update : Body → Option VehicleStatusUpdate) where
  -- What one request adds.
  record Adds (request : Request Body) (r : Response) (b b' : Db F) : Type 0 where
    raw : length b'.raw_events ≡ length b.raw_events + (if is_accepted r then 1 else 0)
    zones :
        (z : String)
        → lookup z b'.zone_counts
          ≡ plus (if request_enters parse_event z request r then 1 else 0) (lookup z b.zone_counts)

  no_entry :
      (request : Request Body) (r : Response) (z : String)
      → is_accepted r ≡ false
      → request_enters parse_event z request r ≡ false
  no_entry (telemetry body) accepted z h = cc
  no_entry (telemetry body) (applied _ _ _) z h = refl
  no_entry (telemetry body) unprocessable z h = refl
  no_entry (telemetry body) (not_found _) z h = refl
  no_entry (telemetry body) server_error z h = refl
  no_entry (vehicle_status v body) r z h = refl

  same-Adds :
      (request : Request Body) (r : Response) (b b' : Db F)
      → is_accepted r ≡ false
      → b'.raw_events ≡ b.raw_events
      → b'.zone_counts ≡ b.zone_counts
      → Adds request r b b'
  same-Adds request r b b' h raw zones = record {
    raw = rw (raw, h) (omega arith);
    zones = λ z. rw (zones, no_entry request r z h) (plus-zero (lookup z b.zone_counts));
  }

  Committed-Adds :
      (body : Body) (e : TelemetryEvent F) (at : ℕ) (b b' : Db F)
      → parse_event body ≡ some e
      → Committed fl e at b b'
      → Adds (telemetry body) accepted b b'
  Committed-Adds body e at b b' h t = record {
    raw = rw t.2.raw (length-append b.raw_events _);
    zones =
        λ z. rw h (t.2.zones z ∙ entered_plus (enters e.zone_entered z) (lookup z b.zone_counts));
  }

  status-Adds :
      (u : VehicleStatusUpdate) (v : String) (request : Request Body) (r : Response) (b b' : Db F)
      (done : Bool)
      → is_accepted r ≡ false
      → StatusChange u v b done b'
      → Adds request r b b'
  status-Adds u v request r b b' done h t = elim (Bool-cases (same_status u.status fault)) [
    | inl to_fault ↦ faulted done (rw to_fault at t)
    | inr other ↦ set done (rw other at t)
  ]
    where
      faulted : (done : Bool) → Result v u.reason b done b' → Adds request r b b'
      faulted true q = same-Adds request r b b' h q.3.raw q.3.zones
      faulted false q =
          same-Adds request r b b' h (ap (λ d. d.raw_events) q.1) (ap (λ d. d.zone_counts) q.1)

      set : (done : Bool) → StatusSet v u.status b done b' → Adds request r b b'
      set true q =
          same-Adds request r b b' h (ap (λ d. d.raw_events) q.3) (ap (λ d. d.zone_counts) q.3)
      set false q =
          same-Adds request r b b' h (ap (λ d. d.raw_events) q.1) (ap (λ d. d.zone_counts) q.1)

  unchanged-Adds :
      (request : Request Body) (r : Response) (b b' : Db F)
      → is_accepted r ≡ false
      → b' ≡ b
      → Adds request r b b'
  unchanged-Adds request r b b' h e =
      same-Adds request r b b' h (ap (λ d. d.raw_events) e) (ap (λ d. d.zone_counts) e)

  Change-Adds :
      (request : Request Body) (s : Session F) (r : Response) (b' : Db F)
      → Change fl parse_event parse_update request s r b'
      → Adds request r s.db b'
  Change-Adds (telemetry body) s accepted b' t = Committed-Adds body t.0 _ s.db b' t.1 t.2
  Change-Adds (telemetry body) s unprocessable b' t = unchanged-Adds _ _ s.db b' refl t
  Change-Adds (telemetry body) s server_error b' t = unchanged-Adds _ _ s.db b' refl t
  Change-Adds (telemetry body) s (applied _ _ _) b' t = absurd t
  Change-Adds (telemetry body) s (not_found _) b' t = absurd t
  Change-Adds (vehicle_status v body) s (applied w status done) b' t =
      status-Adds t.0 v _ _ s.db b' done refl t.4
  Change-Adds (vehicle_status v body) s (not_found w) b' t = unchanged-Adds _ _ s.db b' refl t.1
  Change-Adds (vehicle_status v body) s unprocessable b' t = unchanged-Adds _ _ s.db b' refl t
  Change-Adds (vehicle_status v body) s server_error b' t = unchanged-Adds _ _ s.db b' refl t
  Change-Adds (vehicle_status v body) s accepted b' t = absurd t

  -- Whatever requests are served and whatever statements fail, the raw log grows by one row for each
  -- 201 response, and no other request adds one.
  pub serve_all-raw_events :
      (requests : List (Request Body)) (s : Session F)
      → let (rs, s') = serve_all fl parse_event parse_update requests s in
        length s'.db.raw_events ≡ length s.db.raw_events + accepted_count rs
  unfolding serve_all
  serve_all-raw_events [] s = omega arith
  serve_all-raw_events (request ∷ rest) s =
      let (r, s') = serve fl parse_event parse_update request s in
      ground (
        arith,
        (Change-Adds request s r s'.db (serve-Change fl parse_event parse_update request s)).raw,
        serve_all-raw_events rest s',
      )

  -- Whatever requests are served and whatever statements fail, the counter of each zone that has a row
  -- advances by the number of events with a 201 response that entered it, and no zone gains a row.
  pub serve_all-zone_counts :
      (requests : List (Request Body)) (s : Session F) (z : String)
      → let (rs, s') = serve_all fl parse_event parse_update requests s in
        lookup z s'.db.zone_counts
        ≡ plus (entries parse_event z requests rs) (lookup z s.db.zone_counts)
  unfolding serve_all
  serve_all-zone_counts [] s z = plus-zero (lookup z s.db.zone_counts)
  serve_all-zone_counts (request ∷ rest) s z =
      let (r, s') = serve fl parse_event parse_update request s in
      let k = entries parse_event z rest (serve_all fl parse_event parse_update rest s').0 in
      serve_all-zone_counts rest s' z
      ∙ ap (plus k) (
          (Change-Adds request s r s'.db (serve-Change fl parse_event parse_update request s)).zones
            z)
      ∙ plus_step (request_enters parse_event z request r) k (lookup z s.db.zone_counts)
