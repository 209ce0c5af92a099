-- ===== src/IngestionApi.antt =====
-- app/ingestion_api.py: the two write routes and the answers to requests. The
-- validation of a body by FastAPI and Pydantic is a parameter: `none` is a body that it refuses.
pub mod Serving
pub mod Tally
pub mod Consistent
pub mod Metrics
pub mod Traced
pub mod Observability
use fleet_telemetry_system.Prelude.{
  ℕ, String, Bool, true, false, not, Option, none, some, List, [], ◌∷◌, ◌++◌, Outcome, ok, raised,
  lookup_error, key_error, index_error, if◌then◌else◌,
}
use fleet_telemetry_system.Prelude.Exceptions.{Exception}
use fleet_telemetry_system.Models.{
  VehicleStatus, fault, same_status, TelemetryEvent, VehicleStatusUpdate,
}
use fleet_telemetry_system.Models.Floats.{Floats}
use fleet_telemetry_system.Store.{Session, Action, pure, lift, ◌>>=◌, ◌>>◌}
use fleet_telemetry_system.Persistence.Ingest.{persist_telemetry}
use fleet_telemetry_system.Persistence.Fault.{transition_to_fault, set_vehicle_status}

pub data Response : Type 0 where
  -- 201 with `{"status": "accepted"}`
  accepted : Response
  -- 200 with the vehicle, the status and whether the call changed the state
  applied : (vehicle_id : String) → VehicleStatus → Bool → Response
  -- 422, 404 and 500
  unprocessable : Response
  not_found : (vehicle_id : String) → Response
  server_error : Response

abbrev pub status_code : Response → ℕ
status_code accepted = 201
status_code (applied _ _ _) = 200
status_code unprocessable = 422
status_code (not_found _) = 404
status_code server_error = 500

pub data Request (Body : Type 0) : Type 0 where
  telemetry : Body → Request Body
  vehicle_status : (vehicle_id : String) → Body → Request Body

-- `except LookupError`, which has `KeyError` and `IndexError` below it.
abbrev pub is_lookup_error : Exception → Bool
is_lookup_error lookup_error = true
is_lookup_error key_error = true
is_lookup_error index_error = true
is_lookup_error _ = false

abbrev pub answer_status : String → VehicleStatus → Outcome Bool → Outcome Response
answer_status vehicle_id status (ok done) = ok (applied vehicle_id status done)
answer_status vehicle_id status (raised e) =
    if is_lookup_error e then ok (not_found vehicle_id) else raised e

module _ {F : Type 0} where
  -- The `try` block of `post_vehicle_status`.
  unfoldable pub apply_status : String → VehicleStatusUpdate → Action F Bool
  apply_status vehicle_id update =
      if same_status update.status fault then transition_to_fault vehicle_id update.reason else do
        done ← set_vehicle_status vehicle_id update.status
        if done then pure true else lift (raised lookup_error)

  unfoldable pub post_vehicle_status : String → VehicleStatusUpdate → Action F Response
  unfolding apply_status
  post_vehicle_status vehicle_id update s =
      let (r, s') = apply_status vehicle_id update s in
      (answer_status vehicle_id update.status r, s')

module _ {F : Type 0} (fl : Floats F) where
  unfoldable pub post_telemetry : TelemetryEvent F → Action F Response
  post_telemetry event = persist_telemetry fl event >> pure accepted

-- An exception that a handler lets pass is answered by 500.
abbrev pub respond : Outcome Response → Response
respond (ok r) = r
respond (raised _) = server_error

module _ {F Body : Type 0} (fl : Floats F) (parse_event : Body → Option (TelemetryEvent F))
    (parse_update : Body → Option VehicleStatusUpdate) where
  abbrev pub route_event : Option (TelemetryEvent F) → Action F Response
  route_event none = pure unprocessable
  route_event (some event) = post_telemetry fl event

  abbrev pub route_update : String → Option VehicleStatusUpdate → Action F Response
  route_update vehicle_id none = pure unprocessable
  route_update vehicle_id (some update) = post_vehicle_status vehicle_id update

  unfoldable pub call_next : Request Body → Action F Response
  call_next (telemetry body) = route_event (parse_event body)
  call_next (vehicle_status vehicle_id body) = route_update vehicle_id (parse_update body)

  -- One request: its response and the session after it.
  unfoldable pub serve : Request Body → Session F → Response × Session F
  unfolding call_next
  serve request s = let (r, s') = call_next request s in (respond r, s')

  -- Requests that are served one after another, with their responses.
  unfoldable pub serve_all : List (Request Body) → Session F → List Response × Session F
  serve_all [] s = ([], s)
  serve_all (request ∷ rest) s =
      let (r, s') = serve request s in let (rs, s'') = serve_all rest s' in (r ∷ rs, s'')
