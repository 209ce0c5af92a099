-- ===== src/IngestionApi/Serving.antt =====
-- What a request may have changed in the tables, by its response.
use fleet_telemetry_system.Prelude.{
  String, Bool, true, false, Option, none, some, ◌≡◌, refl, Outcome, ok, raised, lookup_error,
  key_error, index_error, if◌then◌else◌, Bool-cases, inl, inr,
}
use fleet_telemetry_system.Models.{fault, same_status, TelemetryEvent, VehicleStatusUpdate}
use fleet_telemetry_system.Models.Floats.{Floats}
use fleet_telemetry_system.Store.{Db, Session, pure, lift, ◌>>=◌, continue}
use fleet_telemetry_system.Store.Ensures.{Transacted}
use fleet_telemetry_system.Persistence.Ingest.{stamp, persist_telemetry}
use fleet_telemetry_system.Persistence.Ingest.Atomic.{Committed, persist_telemetry-Transacted}
use fleet_telemetry_system.Persistence.Fault.{transition_to_fault, set_vehicle_status}
use fleet_telemetry_system.Persistence.Fault.Transition.{Result, transition_to_fault-Transacted}
use fleet_telemetry_system.Persistence.Fault.SetStatus.{StatusSet, set_vehicle_status-Transacted}
use fleet_telemetry_system.IngestionApi.{
  Response, accepted, applied, unprocessable, not_found, server_error, Request, telemetry,
  vehicle_status, apply_status, answer_status, post_vehicle_status, post_telemetry, respond,
  route_event, route_update, serve,
}

module _ {F : Type 0} where
  abbrev pub StatusChange : VehicleStatusUpdate → String → Db F → Bool → Db F → Type 0
  StatusChange u v b done b' =
      if same_status u.status fault
      then Result v u.reason b done b'
      else StatusSet v u.status b done b'

  -- The tables after a status request. Outside the transition to fault, the answer is never `False`.
  abbrev StatusAnswered :
      VehicleStatusUpdate → String → Session F → Outcome Bool × Session F → Type 0
  StatusAnswered u v s (ok done, s') = StatusChange u v s.db done s'.db
  StatusAnswered u v s (raised _, s') = s'.db ≡ s.db

  set-StatusAnswered :
      (u : VehicleStatusUpdate) (v : String) (s : Session F) (r : Outcome Bool × Session F)
      → same_status u.status fault ≡ false
      → Transacted (StatusSet v u.status) s r
      → StatusAnswered u v s
          (continue r.0 (λ done. if done then pure true else lift (raised lookup_error)) r.1)
  set-StatusAnswered u v s (ok true, s') h t = rw h t
  set-StatusAnswered u v s (ok false, s') h t = t.1
  set-StatusAnswered u v s (raised _, s') h t = t

  transition-StatusAnswered :
      (u : VehicleStatusUpdate) (v : String) (s : Session F) (r : Outcome Bool × Session F)
      → same_status u.status fault ≡ true
      → Transacted (Result v u.reason) s r
      → StatusAnswered u v s r
  transition-StatusAnswered u v s (ok done, s') h t = rw h t
  transition-StatusAnswered u v s (raised _, s') h t = t

  apply_status-StatusAnswered :
      (v : String) (u : VehicleStatusUpdate) (s : Session F)
      → StatusAnswered u v s (apply_status v u s)
  unfolding apply_status ◌>>=◌
  apply_status-StatusAnswered v u s = elim (Bool-cases (same_status u.status fault)) [
    | inl yes_fault ↦ rw yes_fault (
        transition-StatusAnswered u v s (transition_to_fault v u.reason s) yes_fault
          (transition_to_fault-Transacted v u.reason s))
    | inr other ↦ rw other (
        set-StatusAnswered u v s (set_vehicle_status v u.status s) other
          (set_vehicle_status-Transacted v u.status s))
  ]

module _ {F Body : Type 0} (fl : Floats F) (parse_event : Body → Option (TelemetryEvent F))
    (parse_update : Body → Option VehicleStatusUpdate) where
  -- The tables after a request, by its response: 201 to a valid event that is recorded, 200 to a valid
  -- status update that is applied, and nothing at all for 404, 422 and 500. No other response is given.
  abbrev pub Change : Request Body → Session F → Response → Db F → Type 0
  Change (telemetry body) s accepted b' =
      (e : TelemetryEvent F) × (parse_event body ≡ some e) × Committed fl e (stamp e s) s.db b'
  Change (vehicle_status v body) s (applied w status done) b' =
      (u : VehicleStatusUpdate) × (parse_update body ≡ some u)
      × (w ≡ v)
      × (status ≡ u.status)
      × StatusChange u v s.db done b'
  Change request s unprocessable b' = b' ≡ s.db
  Change (vehicle_status v body) s (not_found w) b' = (w ≡ v) × (b' ≡ s.db)
  Change request s server_error b' = b' ≡ s.db
  Change _ _ _ _ = ⊥

  telemetry-Change :
      (body : Body) (e : TelemetryEvent F) (s : Session F) (r : Outcome (Unit {0}) × Session F)
      → parse_event body ≡ some e
      → Transacted (λ b _ b'. Committed fl e (stamp e s) b b') s r
      → Change
          (telemetry body)
          s
          (respond (continue r.0 (λ _. pure {S = Session F} accepted) r.1).0)
          (continue r.0 (λ _. pure {S = Session F} accepted) r.1).1.db
  telemetry-Change body e s (ok a, s') h t = (e, h, t)
  telemetry-Change body e s (raised x, s') h t = t

  status-Change :
      (v : String) (body : Body) (u : VehicleStatusUpdate) (s : Session F)
      (r : Outcome Bool × Session F)
      → parse_update body ≡ some u
      → StatusAnswered u v s r
      → Change (vehicle_status v body) s (respond (answer_status v u.status r.0)) r.1.db
  status-Change v body u s (ok done, s') h t = (u, h, refl, refl, t)
  status-Change v body u s (raised lookup_error, s') h t = (refl, t)
  status-Change v body u s (raised key_error, s') h t = (refl, t)
  status-Change v body u s (raised index_error, s') h t = (refl, t)
  status-Change v body u s (raised _, s') h t = t

  route_event-Change :
      (body : Body) (o : Option (TelemetryEvent F)) (s : Session F)
      → parse_event body ≡ o
      → let (r, s') = route_event fl parse_event parse_update o s in
        Change (telemetry body) s (respond r) s'.db
  unfolding post_telemetry ◌>>=◌
  route_event-Change body none s h = refl
  route_event-Change body (some e) s h =
      telemetry-Change body e s (persist_telemetry fl e s) h (persist_telemetry-Transacted fl e s)

  route_update-Change :
      (v : String) (body : Body) (o : Option VehicleStatusUpdate) (s : Session F)
      → parse_update body ≡ o
      → let (r, s') = route_update fl parse_event parse_update v o s in
        Change (vehicle_status v body) s (respond r) s'.db
  unfolding post_vehicle_status
  route_update-Change v body none s h = refl
  route_update-Change v body (some u) s h =
      status-Change v body u s (apply_status v u s) h (apply_status-StatusAnswered v u s)

  -- A request changes the tables as `Change` says by its response, whatever statement fails: only the
  -- responses 201 and 200 stand for a change, and every refused or failed request leaves all tables.
  pub serve-Change :
      (request : Request Body) (s : Session F)
      → let (response, s') = serve fl parse_event parse_update request s in
        Change request s response s'.db
  unfolding serve
  serve-Change (telemetry body) s = route_event-Change body (parse_event body) s refl
  serve-Change (vehicle_status v body) s = route_update-Change v body (parse_update body) s refl
