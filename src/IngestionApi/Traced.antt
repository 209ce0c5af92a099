-- ===== src/IngestionApi/Traced.antt =====
-- `post_telemetry` of app/ingestion_api.py with the span around its write. The span of a request is one
-- that the instrumentation of the app starts: the context in which it is active is part of the request.
use fleet_telemetry_system.Prelude.{
  String, Option, none, some, List, [], ◌∷◌, ◌++◌, map, ◌≡◌, inl, inr, Option-cases, refl, ap, ◌∙◌,
  Outcome, ok, raised,
}
use fleet_telemetry_system.Prelude.Effects.{Effect, pure, continue, ◌>>=◌, ◌>>◌}
use fleet_telemetry_system.Models.{TelemetryEvent, VehicleStatusUpdate}
use fleet_telemetry_system.Models.Floats.{Floats}
use fleet_telemetry_system.Store.{Session, Action}
use fleet_telemetry_system.Persistence.Ingest.{persist_telemetry}
use fleet_telemetry_system.Trace.{Sdk, Spans, started}
use fleet_telemetry_system.IngestionApi.{
  Response, accepted, unprocessable, Request, telemetry, vehicle_status, post_telemetry,
  post_vehicle_status, call_next, respond, serve, serve_all,
}

pub record Traced (F Context : Type 0) : Type 0 where
  pub session : Session F
  pub tracing : Spans Context

abbrev pub Tracing : Type 0 → Type 0 → Type 0 → Type 0
Tracing F Context A = Effect (Traced F Context) A

-- A request, and the context in which its handler runs.
pub record Incoming (Body Context : Type 0) : Type 0 where
  pub request : Request Body
  pub context : Context

module _ {F Context A : Type 0} where
  abbrev pub with_session : Outcome A × Session F → Traced F Context → Outcome A × Traced F Context
  with_session (r, s) w = (r, record w { session = s })

  abbrev pub on_session : Action F A → Tracing F Context A
  on_session m w = with_session (m w.session) w

  abbrev pub leave : Context → Outcome A × Traced F Context → Outcome A × Traced F Context
  leave before (r, w) = (r, record w { tracing = record (w.tracing) { active = before } })

module _ {F Context : Type 0} (sdk : Sdk Context) (fl : Floats F) where
  -- `with _tracer.start_as_current_span(name)`: an exception passes by it.
  unfoldable pub start_as_current_span :
      {A : Type 0} → String → Tracing F Context A → Tracing F Context A
  start_as_current_span name body w =
      leave w.tracing.active (body (record w { tracing = started sdk name w.tracing }))

  unfoldable pub post_telemetry_traced : TelemetryEvent F → Tracing F Context Response
  unfolding start_as_current_span
  post_telemetry_traced event =
      start_as_current_span "db.write vehicle_current_state"
        (on_session (persist_telemetry fl event))
      >> pure accepted

  module _ {Body : Type 0} (parse_event : Body → Option (TelemetryEvent F))
      (parse_update : Body → Option VehicleStatusUpdate) where
    abbrev pub route_event_traced : Option (TelemetryEvent F) → Tracing F Context Response
    route_event_traced none = pure unprocessable
    route_event_traced (some event) = post_telemetry_traced event

    abbrev pub route_update_traced :
        String → Option VehicleStatusUpdate → Tracing F Context Response
    route_update_traced vehicle_id none = pure unprocessable
    route_update_traced vehicle_id (some update) =
        on_session (post_vehicle_status vehicle_id update)

    unfoldable pub call_next_traced : Request Body → Tracing F Context Response
    unfolding post_telemetry_traced
    call_next_traced (telemetry body) = route_event_traced (parse_event body)
    call_next_traced (vehicle_status vehicle_id body) =
        route_update_traced vehicle_id (parse_update body)

    -- One request, in the context of its span.
    unfoldable pub serve_traced :
        Incoming Body Context → Traced F Context → Response × Traced F Context
    unfolding call_next_traced
    serve_traced i w =
        let before = w.tracing.active in
        let (r, w') = leave before (
          call_next_traced i.request
            (record w { tracing = record (w.tracing) { active = i.context } })) in
        (respond r, w')

    unfoldable pub serve_all_traced :
        List (Incoming Body Context) → Traced F Context → List Response × Traced F Context
    unfolding serve_traced
    serve_all_traced [] w = ([], w)
    serve_all_traced (i ∷ rest) w =
        let (r, w') = serve_traced i w in let (rs, w'') = serve_all_traced rest w' in (r ∷ rs, w'')

    -- The contexts of the requests that are written: valid telemetry, also where the write fails.
    abbrev pub written : Option (TelemetryEvent F) → Context → List Context
    written none c = []
    written (some event) c = c ∷ []

    abbrev pub writes : Request Body → Context → List Context
    writes (telemetry body) c = written (parse_event body) c
    writes (vehicle_status v body) c = []

    -- Of requests one after another, the last one first, with those from before.
    abbrev pub writes_all : List (Incoming Body Context) → List Context → List Context
    writes_all [] before = before
    writes_all (i ∷ rest) before = writes_all rest (writes i.request i.context ++ before)

    abbrev pub parents : Traced F Context → List Context
    parents w = map (λ s. s.parent) w.tracing.spans

    -- A call with its spans, next to the call without them.
    record Erases (w : Traced F Context) (added : List Context) (x : Outcome Response × Session F)
        (y : Outcome Response × Traced F Context) : Type 0 where
      outcome : y.0 ≡ x.0
      session : y.1.session ≡ x.1
      opened : parents y.1 ≡ added ++ parents w

    same-Erases :
        (w : Traced F Context) (x : Outcome Response × Session F) → Erases w [] x (with_session x w)
    same-Erases w x = record { outcome = refl; session = refl; opened = refl }

    written-Erases :
        (event : TelemetryEvent F) (w : Traced F Context)
        → Erases w
            (w.tracing.active ∷ [])
            (post_telemetry fl event w.session)
            (post_telemetry_traced event w)
    unfolding post_telemetry post_telemetry_traced start_as_current_span ◌>>=◌
    written-Erases event w = go (persist_telemetry fl event w.session)
      where
        go :
            (x : Outcome Unit × Session F)
            → let y = leave w.tracing.active (
                with_session x (record w {
                  tracing = started sdk "db.write vehicle_current_state" w.tracing;
                })) in
              Erases w
                (w.tracing.active ∷ [])
                (continue x.0 (λ _. pure accepted) x.1)
                (continue y.0 (λ _. pure accepted) y.1)
        go (ok _, s) = record { outcome = refl; session = refl; opened = refl }
        go (raised e, s) = record { outcome = refl; session = refl; opened = refl }

    call_next-Erases :
        (request : Request Body) (w : Traced F Context)
        → Erases w
            (writes request w.tracing.active)
            (call_next fl parse_event parse_update request w.session)
            (call_next_traced request w)
    unfolding call_next call_next_traced
    call_next-Erases (telemetry body) w = elim (Option-cases (parse_event body)) [
      | inl refused ↦ rw refused (same-Erases w (ok unprocessable, w.session))
      | inr (event, valid) ↦ rw valid (written-Erases event w)
    ]
    call_next-Erases (vehicle_status v body) w = elim (Option-cases (parse_update body)) [
      | inl refused ↦ rw refused (same-Erases w (ok unprocessable, w.session))
      | inr (update, valid) ↦ rw valid (same-Erases w (post_vehicle_status v update w.session))
    ]

    -- Whatever requests are served and whatever statements fail: with the spans around their writes the
    -- responses and the session are what they are without them. One span is started for each telemetry
    -- request with a valid body, also if its write fails, below the span of its request, in the order of
    -- the requests; a change of status starts none; and the active context is again the one from before.
    pub serve_all_traced-serve_all :
        (is : List (Incoming Body Context)) (w : Traced F Context)
        → let (responses, w') = serve_all_traced is w in
          ((responses, w'.session)
            ≡ serve_all fl parse_event parse_update (map (λ i. i.request) is) w.session)
          × (parents w' ≡ writes_all is (parents w))
          × (w'.tracing.active ≡ w.tracing.active)
    unfolding serve_all serve_all_traced serve serve_traced
    serve_all_traced-serve_all [] w = (refl, refl, refl)
    serve_all_traced-serve_all (i ∷ rest) w =
        let e =
          call_next-Erases i.request
            (record w { tracing = record (w.tracing) { active = i.context } }) in
        let (same, opened, active) = serve_all_traced-serve_all rest (serve_traced i w).1 in
        let all : Session F → List Response × Session F =
          serve_all fl parse_event parse_update (map (λ i. i.request) rest) in
        let joined : Response → List Response × Session F → List Response × Session F =
          λ r p. (r ∷ p.0, p.1) in
        (
          ap (joined (serve_traced i w).0) same
              ∙ ap (λ r. joined (respond r) (all (serve_traced i w).1.session)) e.outcome
              ∙ ap
                  (λ s.
                    joined (respond (call_next fl parse_event parse_update i.request w.session).0)
                      (all s))
                  e.session,
          opened ∙ ap (writes_all rest) e.opened,
          active,
        )
