-- ===== src/IngestionApi/Observability.antt =====
-- `install_observability` of app/ingestion_api.py, which runs when the module is imported.
use fleet_telemetry_system.Prelude.{String, Option}
use fleet_telemetry_system.Config.{Environ}
use fleet_telemetry_system.Otel.{Providers, observed}

-- `instrument_app` is `FastAPIInstrumentor.instrument_app`.
unfoldable pub install_observability :
    {App : Type 0} → (App → App) → Environ → App → Providers → Option String × App × Providers
unfolding observed
install_observability instrument_app env app p = observed "ingestion-api" instrument_app env app p
