-- ===== src/Tests/OfOtel.antt =====
-- app/otel.py, whose endpoint is set after the first call, and the start of app/frontend_api.py.
use fleet_telemetry_system.Prelude.{String, List, [], ◌∷◌, ◌≡◌, false}
use fleet_telemetry_system.Text.{codes}
use fleet_telemetry_system.Config.{Environ}
use fleet_telemetry_system.Prelude.{refl, true, some, none}
use fleet_telemetry_system.Prelude.Dict.{lookup}
use fleet_telemetry_system.Text.Spaces.{strip}
use fleet_telemetry_system.Otel.{not_configured, endpoint, configure_otel, configure_all, observed}
use fleet_telemetry_system.Frontend.Observability.{install_observability}
use fleet_telemetry_system.Frontend.Cors.{cors_origins, cors_headers, listed}
use fleet_telemetry_system.Text.Split.{split}

abbrev later : List (Environ × String)
later = (("OTEL_EXPORTER_OTLP_ENDPOINT", codes "http://alloy") ∷ [], "cdc-consumer") ∷ []

installs_nothing :
    configure_all (([], "cdc-consumer") ∷ later) not_configured
    ≡ (false ∷ false ∷ [], record not_configured { configured = true })
unfolding configure_all endpoint lookup strip
installs_nothing = refl

-- An app is whether it is instrumented.
starts :
    install_observability
      (λ app. true)
      (("OTEL_EXPORTER_OTLP_ENDPOINT", codes " http://alloy ") ∷ [])
      false
      not_configured
    ≡ (
      some "frontend-api",
      true,
      record {
        configured = true;
        tracer_provider = some "frontend-api";
        meter_provider = some "frontend-api";
      },
    )
unfolding install_observability observed configure_otel endpoint lookup strip
starts = refl

starts_without_endpoint :
    install_observability (λ app. true) [] false not_configured
    ≡ (none, true, record not_configured { configured = true })
unfolding install_observability observed configure_otel endpoint lookup strip
starts_without_endpoint = refl

default_origins : cors_origins [] ≡ codes "http://localhost:8080" ∷ []
unfolding cors_origins listed lookup strip split
default_origins = refl

default_headers : cors_headers [] ≡ codes "traceparent" ∷ codes "content-type" ∷ []
unfolding cors_headers listed lookup strip split
default_headers = refl

set_headers :
    cors_headers (("CORS_ALLOW_HEADERS", codes " traceparent , x-request-id") ∷ [])
    ≡ codes "traceparent" ∷ codes "x-request-id" ∷ []
unfolding cors_headers listed lookup strip split
set_headers = refl
