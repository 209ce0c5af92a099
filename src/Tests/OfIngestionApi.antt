-- ===== src/Tests/OfIngestionApi.antt =====
-- app/ingestion_api.py on the sample fleet.
use fleet_telemetry_system.Prelude.{ℕ, List, [], ◌∷◌, ◌≡◌, arith}
use fleet_telemetry_system.Prelude.Dict.{lookup}
use fleet_telemetry_system.IngestionApi.{Request, telemetry, vehicle_status, serve, serve_all}
use fleet_telemetry_system.IngestionApi.Serving.{Change, serve-Change}
use fleet_telemetry_system.IngestionApi.Consistent.{IsConsistent, serve_all-IsConsistent}
use fleet_telemetry_system.Prelude.{String, ◌+◌, count}
use fleet_telemetry_system.IngestionApi.Metrics.{
  record_all, is_sample, answered_with, record_all-serve_all,
}
use fleet_telemetry_system.IngestionApi.Tally.{entries, plus, serve_all-zone_counts}
use fleet_telemetry_system.Tests.Samples.{fixed, garage, garage_tables, parse_event, parse_update}

-- An event, one that is refused, and a fault.
abbrev requests : List (Request ℕ)
requests = telemetry 0 ∷ telemetry 2 ∷ vehicle_status "v-1" 1 ∷ []

serve-Change_example :
    let (response, after) = serve fixed parse_event parse_update (vehicle_status "v-1" 1) garage in
    Change fixed parse_event parse_update (vehicle_status "v-1" 1) garage response after.db
serve-Change_example = serve-Change fixed parse_event parse_update (vehicle_status "v-1" 1) garage

garage-IsConsistent : IsConsistent garage_tables
garage-IsConsistent = record { one_active = λ v. ground arith; one_open = λ v. omega arith }

serve_all-IsConsistent_example :
    IsConsistent (serve_all fixed parse_event parse_update requests garage).1.db
serve_all-IsConsistent_example =
    serve_all-IsConsistent fixed parse_event parse_update requests garage garage-IsConsistent

serve_all-zone_counts_example :
    let (responses, after) = serve_all fixed parse_event parse_update requests garage in
    lookup "aisle_a" after.db.zone_counts
    ≡ plus
        (entries parse_event "aisle_a" requests responses)
        (lookup "aisle_a" garage_tables.zone_counts)
serve_all-zone_counts_example =
    serve_all-zone_counts fixed parse_event parse_update requests garage "aisle_a"

abbrev url_path : Request ℕ → String
url_path (telemetry _) = "/telemetry"
url_path (vehicle_status _ _) = "/vehicles/v-1/status"

record_all-serve_all_example :
    let (rs, s, all) = record_all fixed parse_event parse_update url_path requests garage [] in
    (serve_all fixed parse_event parse_update requests garage ≡ (rs, s))
    × (count (is_sample "/telemetry" 422) all ≡ 0 + answered_with "/telemetry" 422 requests rs)
record_all-serve_all_example =
    record_all-serve_all fixed parse_event parse_update url_path requests garage [] "/telemetry" 422
      (λ e. omega arith)
