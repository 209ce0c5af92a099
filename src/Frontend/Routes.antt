-- ===== src/Frontend/Routes.antt =====
-- The five read routes of app/frontend_api.py, the answers to requests, and `record_request_metrics`. The
-- session is one on the read replica. Parameters: the order of two texts in the database, `before`,
-- and how FastAPI reads the query of `GET /anomalies`, where `none` is a query that it refuses.
pub mod Answers
pub mod Bodies
use fleet_telemetry_system.Prelude.{
  ℕ, String, Bool, Option, none, some, List, [], ◌∷◌, ◌++◌, ◌==◌, Outcome, ok, raised,
  if◌then◌else◌,
}
use fleet_telemetry_system.Prelude.Dict.{Dict}
use fleet_telemetry_system.Models.Datetime.{Datetime, instant}
use fleet_telemetry_system.Store.{Session, Action, Anomaly, pure, ◌>>=◌}
use fleet_telemetry_system.Persistence.Reads.{
  StatusCounts, VehicleState, aggregate_fleet_state, current_vehicle_states,
  latest_anomaly_per_vehicle, zone_entry_counts, recent_anomalies,
}
use fleet_telemetry_system.Otel.{Route, route_template}

pub data Request (Query : Type 0) : Type 0 where
  fleet_state vehicles latest_anomalies zones_counts : Request Query
  anomalies : Query → Request Query
  -- A path of no route.
  other : (url_path : String) → Request Query

-- The body of a 200, or 404, 422 or 500.
pub data Answer (F : Type 0) : Type 0 where
  fleet : StatusCounts → Answer F
  states : List (VehicleState F) → Answer F
  found : List Anomaly → Answer F
  zones : Dict ℕ → Answer F
  not_found unprocessable server_error : Answer F

abbrev pub status_code : {F : Type 0} → Answer F → ℕ
status_code not_found = 404
status_code unprocessable = 422
status_code server_error = 500
status_code _ = 200

-- `app.router.routes`, the handlers by number.
abbrev pub routes : List Route
routes =
    record { endpoint = some 5; path = "/ws" }
    ∷ record { endpoint = some 0; path = "/fleet/state" }
    ∷ record { endpoint = some 1; path = "/vehicles" }
    ∷ record { endpoint = some 2; path = "/vehicles/anomalies/latest" }
    ∷ record { endpoint = some 3; path = "/zones/counts" }
    ∷ record { endpoint = some 4; path = "/anomalies" }
    ∷ []

-- `request.scope.get("endpoint")`, and the path of the URL.
abbrev pub resolved : {Query : Type 0} → Request Query → Option ℕ × String
resolved fleet_state = (some 0, "/fleet/state")
resolved vehicles = (some 1, "/vehicles")
resolved latest_anomalies = (some 2, "/vehicles/anomalies/latest")
resolved zones_counts = (some 3, "/zones/counts")
resolved (anomalies _) = (some 4, "/anomalies")
resolved (other url_path) = (none, url_path)

-- `route_template(app, request)`
abbrev pub label : {Query : Type 0} → Request Query → String
label request =
    let (endpoint, url_path) = resolved request in route_template routes endpoint url_path

-- The attributes of a sample but its method, which is GET.
pub record Sample : Type 0 where
  pub route : String
  pub status : ℕ

module _ {F : Type 0} where
  unfoldable pub get_fleet_state : Action F (Answer F)
  get_fleet_state = aggregate_fleet_state >>= λ counts. pure (fleet counts)

  unfoldable pub get_zone_counts : Action F (Answer F)
  get_zone_counts = zone_entry_counts >>= λ counts. pure (zones counts)

  unfoldable pub get_anomalies : String → Datetime → Datetime → Action F (Answer F)
  get_anomalies vehicle_id since until s =
      (recent_anomalies vehicle_id (instant s.local since) (instant s.local until) >>= λ rows.
      pure (found rows))
        s

module _ {F Query : Type 0} (before : String → String → Bool)
    (parse_query : Query → Option (String × Datetime × Datetime)) where
  unfoldable pub get_vehicles : Action F (Answer F)
  get_vehicles = current_vehicle_states before >>= λ rows. pure (states rows)

  unfoldable pub get_latest_anomalies : Action F (Answer F)
  get_latest_anomalies = latest_anomaly_per_vehicle before >>= λ rows. pure (found rows)

  -- `vehicle_id: str = Query(..., min_length=1)`
  abbrev pub route_anomalies : Option (String × Datetime × Datetime) → Action F (Answer F)
  route_anomalies none = pure unprocessable
  route_anomalies (some (vehicle_id, since, until)) =
      if vehicle_id == "" then pure unprocessable else get_anomalies vehicle_id since until

  unfoldable pub call_next : Request Query → Action F (Answer F)
  unfolding get_fleet_state get_vehicles get_latest_anomalies get_zone_counts get_anomalies
  call_next fleet_state = get_fleet_state
  call_next vehicles = get_vehicles
  call_next latest_anomalies = get_latest_anomalies
  call_next zones_counts = get_zone_counts
  call_next (anomalies query) = route_anomalies (parse_query query)
  call_next (other url_path) = pure not_found

  abbrev pub respond : Outcome (Answer F) → Answer F
  respond (ok a) = a
  respond (raised _) = server_error

  -- `record_request_metrics` adds a sample after `call_next` has returned; an exception passes by it.
  abbrev pub sample : Request Query → Outcome (Answer F) → List Sample → List Sample
  sample request (ok a) samples =
      samples ++ record { route = label request; status = status_code a } ∷ []
  sample request (raised _) samples = samples

  unfoldable pub record_request_metrics :
      Request Query → Session F → List Sample → Answer F × Session F × List Sample
  unfolding call_next route_template
  record_request_metrics request s samples =
      let (r, s') = call_next request s in (respond r, s', sample request r samples)
