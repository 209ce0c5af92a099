-- ===== src/Otel.antt =====
-- app/otel.py: the bootstrap of the providers, the label of a route, and the instrumentation of an app. The SDK's providers are the
-- service name that they carry.
pub mod Configured
pub mod Labels
use fleet_telemetry_system.Prelude.{
  ℕ, String, Bool, true, false, Option, none, some, List, [], ◌∷◌, eqb, if◌then◌else◌,
}
use fleet_telemetry_system.Text.{Text, codes}
use fleet_telemetry_system.Text.Spaces.{is_empty, strip}
use fleet_telemetry_system.Config.{Environ, getenv}

-- `_configured`, and the service of the global tracer and meter provider.
pub record Providers : Type 0 where
  pub configured : Bool
  pub tracer_provider : Option String
  pub meter_provider : Option String

abbrev pub not_configured : Providers
not_configured = record { configured = false; tracer_provider = none; meter_provider = none }

unfoldable pub endpoint : Environ → Text
unfolding getenv strip
endpoint env = strip (getenv env "OTEL_EXPORTER_OTLP_ENDPOINT" (codes ""))

abbrev pub install : Bool → String → Providers → Bool × Providers
install true service_name p = (false, record p { configured = true })
install false service_name p = (
  true,
  record {
    configured = true;
    tracer_provider = some service_name;
    meter_provider = some service_name;
  },
)

unfoldable pub configure_otel : Environ → String → Providers → Bool × Providers
unfolding endpoint
configure_otel env service_name p =
    if p.configured then (false, p) else install (is_empty (endpoint env)) service_name p

-- Calls one after another, with what each returns.
unfoldable pub configure_all : List (Environ × String) → Providers → List Bool × Providers
unfolding configure_otel
configure_all [] p = ([], p)
configure_all ((env, service_name) ∷ calls) p =
    let (installed, p₁) = configure_otel env service_name p in
    let (rest, p₂) = configure_all calls p₁ in (installed ∷ rest, p₂)

-- Endpoints are numbered; a mount or another entry of the router may have none.
pub record Route : Type 0 where
  pub endpoint : Option ℕ
  pub path : String

abbrev pub is_endpoint : ℕ → Option ℕ → Bool
is_endpoint e none = false
is_endpoint e (some f) = eqb f e

abbrev pub matched : ℕ → String → List Route → String
matched e url_path [] = url_path
matched e url_path (r ∷ routes) =
    let later = matched e url_path routes in if is_endpoint e r.endpoint then r.path else later

-- `route_template`, of `app.router.routes`, the endpoint in the request's scope, and its URL's path.
unfoldable pub route_template : List Route → Option ℕ → String → String
route_template routes none url_path = url_path
route_template routes (some e) url_path = matched e url_path routes

-- `instrument_app` is `FastAPIInstrumentor.instrument_app`.
abbrev pub instrument_fastapi_app : {App : Type 0} → (App → App) → App → App
instrument_fastapi_app instrument_app app = instrument_app app

-- What both APIs do at their start, with the name of the service. Of the meter, its provider is kept.
unfoldable pub observed :
    {App : Type 0}
    → String
    → (App → App)
    → Environ
    → App
    → Providers
    → Option String × App × Providers
unfolding configure_otel
observed service_name instrument_app env app p =
    let (_, p₁) = configure_otel env service_name p in
    (p₁.meter_provider, instrument_fastapi_app instrument_app app, p₁)
