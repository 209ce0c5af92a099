-- ===== src/Lib.antt =====
-- A verification library for the fleet telemetry service: vehicles post telemetry and status changes
-- to an ingestion API, which writes them to Postgres and detects anomalies; a watchdog flags vehicles
-- that fall silent; a change-data-capture consumer turns the committed changes of three tables into
-- events on a Redis channel; and a dashboard API answers reads from a replica and sends the events to
-- its WebSocket clients.
--
-- Parts and files:
--   Models         app/models.py: statuses, zones, thresholds, the two bodies and their constraints,
--                  with floats (a parameter) and times (microseconds, with or without a zone).
--   Store          the tables of app/migrations as lists and keyed lists (Store/Tables), and what
--                  psycopg does: `execute` and `transaction` on a session (Store/Transactions).
--   Persistence    app/persistence.py: Detect is `detect_anomalies`, Ingest is `persist_telemetry`, also
--                  with calls that overlap on the pool's connections (Ingest/Overlap), Fault is
--                  `transition_to_fault`, also with calls that overlap, and
--                  `set_vehicle_status`, CommsLoss is `detect_comms_loss` with the sweeps of
--                  app/watchdog.py, Reads has the five reads. Each SQL statement is one function on
--                  the tables, named for what it does.
--   IngestionApi   app/ingestion_api.py: `post_telemetry`, `post_vehicle_status`, the answer to a
--                  request and to a list of requests; Metrics is `record_request_metrics`, Traced the span
--                  around the write of `post_telemetry`, Observability the bootstrap at the start.
--   Text           Python's text: code points, order, strict UTF-8, `strip()`, `int(text)`, `split(",")`.
--   Cdc            app/cdc_consumer.py, app/cdc.py and the carrier of app/events.py: Reader is `_Reader`,
--                  Tuple and Decode go from the bytes of a pgoutput message to the published envelope,
--                  Stream is `CdcConsumer` around them, Supervisor is the waits of `run_forever`, and
--                  Service is `run_forever` with `_publication_exists` and its consumers, and Main is
--                  `main` with the signal handlers (Signals).
--   Frontend       app/frontend_api.py: `ConnectionRegistry` with a broadcast whose sends other tasks come
--                  between, and what `_fan_out` forwards, with `strip_trace_context` of app/events.py;
--                  Subscriber is `_redis_subscriber` and the end of `lifespan`, WebSocket is
--                  `_build_snapshot` and `ws_endpoint`, Routes is the read routes and
--                  `record_request_metrics`, Cors the settings of the CORS middleware, Gauge the
--                  gauge of live connections, and Observability the bootstrap at the start.
--   Trace          the spans of the consumer and the frontend, and `extract_trace_context` of app/events.py;
--                  Cdc/Traced is `_emit` with its spans and its counter, Frontend/Traced is `_fan_out`
--                  with its spans.
--   Delivery       the consumer and the fan-out together, over the channel; the trace of an event across it
--                  (Connected); and an ingestion with the consumer, over the rows of anomalies that it
--                  commits (Alerts).
--   Migrate        `run_migrations` and `seed_zones` of app/migrate.py.
--   Config         app/config.py: what is read from the environment.
--   Db             app/db.py: the two pools, used in turn or by threads that overlap.
--   Otel           app/otel.py: `configure_otel`, `route_template` and `instrument_fastapi_app`.
--   ReplicationProbe  app/replication_probe.py: the lags, the gauges of `sample_once`, the loop, and `main`.
--   Signals        the handlers that `main` of app/cdc_consumer.py and of app/replication_probe.py install.
--   Prelude        shared helpers; Tests has sample data and runs.
--
-- State: a `Session` holds the tables, which of the next statements fail (any list of them), and the
-- session's time zone. Code that changes it is an `Effect`, from a state to an outcome and a state;
-- an exception is a value of `Exception`. A `Consumer` holds the fields of `CdcConsumer`, its clock,
-- which of the next calls fail, and what was published and sent so far, the latest first.
--
-- Loops are by recursion on their input: the findings of an event, the columns that a message counts,
-- the requests served, the ticks of the watchdog, and what the stream polls or a pass of the supervisor
-- comes to until `stop` is set, which it is where the list ends. So no fuel is needed, and every
-- definition is total. Bytes and widths are written out: a signed field of 2, 4 or 8 bytes is read by
-- two's complement, and a zone's counter fails above 2147483647.
--
-- What other tasks do while `ws_endpoint` awaits is a list in its `World`, with one entry for each await;
-- it may be any list of joins, leaves, sends, drops and changes that reach the replica.
--
-- Parameters: floats and `float(text)`; the validation of a body or a query by FastAPI and
-- Pydantic; the clock; the OpenTelemetry SDK; how Postgres prints an identity and a time in a row;
-- which calls to Postgres, Redis and a socket fail; how the database orders texts; what the SQL of
-- a migration does; whether `ConnectionPool` opens.
--
-- Not modelled: columns that `now()` fills and nothing reads; a COMMIT that fails; transactions
-- that run at the same time, but for overlapping ingestions (Persistence/Ingest/Overlap) and
-- transitions of one vehicle (Persistence/Fault/Concurrent); the spans around the reads of the
-- dashboard's API and in `ws_endpoint`, the attributes of spans, durations and logs; the text of a
-- JSON message, of which only the envelope and the exception are kept; digits and white space
-- beyond ASCII in `int(text)` and `strip()`. The clock is read in whole microseconds, not as a
-- float. Of the CORS middleware only the settings are modelled (Frontend/Cors).
-- `FastAPIInstrumentor` is a parameter, of which nothing is assumed.
pub mod Prelude
pub mod Models
pub mod Config
pub mod Db
pub mod Otel
pub mod Store
pub mod Persistence
pub mod IngestionApi
pub mod Text
pub mod Cdc
pub mod Frontend
pub mod Delivery
pub mod Trace
pub mod Signals
pub mod Migrate
pub mod ReplicationProbe
pub mod Tests
