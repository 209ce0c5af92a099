-- ===== src/IngestionApi/Metrics.antt =====
-- `record_request_metrics` of app/ingestion_api.py: the samples of the request counter, with their route
-- and status. Their method is always POST.
use fleet_telemetry_system.Prelude.{
  ℕ, ◌+◌, String, Bool, ◌&&◌, Option, some, List, [], ◌∷◌, ◌++◌, ◌≡◌, ◌≢◌, refl, ap, arith, Outcome,
  ok, raised, ◌==◌, eqb, count, count-append, if◌then◌else◌,
}
use fleet_telemetry_system.Models.{TelemetryEvent, VehicleStatusUpdate}
use fleet_telemetry_system.Models.Floats.{Floats}
use fleet_telemetry_system.Store.{Session}
use fleet_telemetry_system.Otel.{Route, route_template}
use fleet_telemetry_system.IngestionApi.{
  Response, Request, telemetry, vehicle_status, status_code, respond, call_next, serve, serve_all,
}

pub record Sample : Type 0 where
  pub route : String
  pub status : ℕ

-- `app.router.routes`, the handlers by number.
abbrev pub routes : List Route
routes =
    record { endpoint = some 0; path = "/telemetry" }
    ∷ record { endpoint = some 1; path = "/vehicles/{vehicle_id}/status" }
    ∷ []

-- `request.scope.get("endpoint")`
abbrev pub endpoint_of : {Body : Type 0} → Request Body → ℕ
endpoint_of (telemetry _) = 0
endpoint_of (vehicle_status _ _) = 1

-- `route_template(app, request)`: `url_path` is the path of the request's URL.
unfoldable pub label : {Body : Type 0} → (Request Body → String) → Request Body → String
unfolding route_template
label url_path request = route_template routes (some (endpoint_of request)) (url_path request)

module _ {F Body : Type 0} (fl : Floats F) (parse_event : Body → Option (TelemetryEvent F))
    (parse_update : Body → Option VehicleStatusUpdate) (url_path : Request Body → String) where
  -- A sample is added after `call_next` has returned; an exception passes by it.
  abbrev pub sample : Request Body → Outcome Response → List Sample → List Sample
  sample request (ok r) samples =
      samples ++ record { route = label url_path request; status = status_code r } ∷ []
  sample request (raised _) samples = samples

  unfoldable pub record_request_metrics :
      Request Body → Session F → List Sample → Response × Session F × List Sample
  unfolding call_next label
  record_request_metrics request s samples =
      let (r, s') = call_next fl parse_event parse_update request s in
      (respond r, s', sample request r samples)

  -- Requests that are served one after another.
  unfoldable pub record_all :
      List (Request Body) → Session F → List Sample → List Response × Session F × List Sample
  unfolding record_request_metrics
  record_all [] s samples = ([], s, samples)
  record_all (request ∷ rest) s samples =
      let (r, s', samples') = record_request_metrics request s samples in
      let (rs, s'', all) = record_all rest s' samples' in (r ∷ rs, s'', all)

-- The template of the route of a request.
abbrev pub template_of : {Body : Type 0} → Request Body → String
template_of (telemetry _) = "/telemetry"
template_of (vehicle_status _ _) = "/vehicles/{vehicle_id}/status"

-- The number of requests to a route that were answered with a status.
abbrev pub answered_with : {Body : Type 0} → String → ℕ → List (Request Body) → List Response → ℕ
answered_with route status [] rs = 0
answered_with route status (request ∷ rest) [] = 0
answered_with route status (request ∷ rest) (r ∷ rs) =
    (if template_of request == route && eqb (status_code r) status then 1 else 0)
    + answered_with route status rest rs

abbrev pub is_sample : String → ℕ → Sample → Bool
is_sample route status x = x.route == route && eqb x.status status

label-template_of :
    {Body : Type 0} (url_path : Request Body → String) (request : Request Body)
    → label url_path request ≡ template_of request
unfolding label
label-template_of url_path (telemetry _) = refl
label-template_of url_path (vehicle_status _ _) = refl

module _ {F Body : Type 0} (fl : Floats F) (parse_event : Body → Option (TelemetryEvent F))
    (parse_update : Body → Option VehicleStatusUpdate) (url_path : Request Body → String) where
  sample-count :
      (route : String) (status : ℕ) (request : Request Body) (r : Outcome Response)
      (samples : List Sample)
      → status ≢ 500
      → count
          (is_sample route status)
          (sample fl parse_event parse_update url_path request r samples)
        ≡ count (is_sample route status) samples
          + (if template_of request == route && eqb (status_code (respond r)) status then 1 else 0)
  sample-count route status request (ok r) samples h = ground (
    arith,
    label-template_of url_path request,
    count-append (is_sample route status) samples
        (record { route = label url_path request; status = status_code r } ∷ []),
  )
  sample-count route status request (raised e) samples h = ground (arith, h)

  -- Whatever requests are served and whatever statements fail, the middleware changes neither the
  -- responses nor the session, and for every route and every status but 500 the counter has one sample more for each
  -- request to the route that was answered with it, under the route's template, whichever vehicle the
  -- request names.
  pub record_all-serve_all :
      (requests : List (Request Body)) (s : Session F) (samples : List Sample) (route : String)
      (status : ℕ)
      → status ≢ 500
      → let (rs, s', all) = record_all fl parse_event parse_update url_path requests s samples in
        (serve_all fl parse_event parse_update requests s ≡ (rs, s'))
        × (count (is_sample route status) all
            ≡ count (is_sample route status) samples + answered_with route status requests rs)
  unfolding record_all serve_all serve
  record_all-serve_all [] s samples route status h = (refl, omega arith)
  record_all-serve_all (request ∷ rest) s samples route status h =
      let (r, s') = call_next fl parse_event parse_update request s in
      let samples' = sample fl parse_event parse_update url_path request r samples in
      let (same, later) = record_all-serve_all rest s' samples' route status h in
      (
        ap (λ x. (respond r ∷ x.0, x.1)) same,
        omega (arith, later, sample-count route status request r samples h),
      )
