-- ===== src/Frontend/Routes/Answers.antt =====
-- The answers of the read routes.
use fleet_telemetry_system.Prelude.{
  ℕ, String, Bool, true, false, Option, none, some, List, [], ◌∷◌, ◌++◌, ◌==◌, ◌≡◌, refl, ok,
  if◌then◌else◌,
}
use fleet_telemetry_system.Prelude.Keeps.{Keeps, Keeps-pure, Keeps-bind}
use fleet_telemetry_system.Models.Datetime.{Datetime, instant}
use fleet_telemetry_system.Store.{Db, Session, Action, Statement, execute, attempt, pure, ◌>>=◌}
use fleet_telemetry_system.Persistence.Reads.{
  select_aggregate, aggregate_fleet_state, select_zone_counts, zone_entry_counts, select_recent,
  recent_anomalies, select_states, current_vehicle_states, select_latest,
  latest_anomaly_per_vehicle,
}
use fleet_telemetry_system.Frontend.Routes.{
  Request, fleet_state, vehicles, latest_anomalies, zones_counts, anomalies, other, Answer, fleet,
  states, found, zones, not_found, unprocessable, status_code, label, Sample, get_fleet_state,
  get_zone_counts, get_anomalies, get_vehicles, get_latest_anomalies, route_anomalies, call_next,
  record_request_metrics,
}

module _ {F : Type 0} where
  -- A statement that returns and changes nothing.
  IsRead : {A : Type 0} → Statement F A → Type 0
  IsRead {A} q = (db : Db F) → (x : A) × (q db ≡ ok (x, db))

  abbrev Same : Db F → Session F → Type 0
  Same db s = s.db ≡ db

  execute-Same :
      {A : Type 0} (q : Statement F A) (db : Db F) → IsRead q → Keeps (Same db) (execute q)
  unfolding execute IsRead
  execute-Same q db read = record { at = λ s h. go s.outages s h }
    where
      go : (l : List Bool) (s : Session F) → Same db s → Same db (attempt l q s).1
      go [] s h = rw (read s.db).1 h
      go (true ∷ l) s h = h
      go (false ∷ l) s h = rw (read s.db).1 h

  execute-calm :
      {A : Type 0} (q : Statement F A) (s : Session F)
      → IsRead q
      → s.outages ≡ []
      → (x : A) × (execute q s ≡ (ok x, s))
  unfolding execute IsRead
  execute-calm {A} q s read calm = go s.outages calm
    where
      go : (l : List Bool) → l ≡ [] → (x : A) × (attempt l q s ≡ (ok x, s))
      go [] h = let (x, e) = read s.db in (x, rw e refl)
      go (b ∷ l) h = cc

  -- Code that returns a result and leaves the session as it was, if no statement fails.
  abbrev Calm : {A : Type 0} → Action F A → Type 0
  Calm {A} m = (s : Session F) → s.outages ≡ [] → (x : A) × (m s ≡ (ok x, s))

  record IsReading {A : Type 0} (m : Action F A) : Type 0 where
    same : (db : Db F) → Keeps (Same db) m
    calm : Calm m

  execute-IsReading : {A : Type 0} (q : Statement F A) → IsRead q → IsReading (execute q)
  execute-IsReading q read = record {
    same = λ db. execute-Same q db read;
    calm = λ s h. execute-calm q s read h;
  }

  map-IsReading :
      {A B : Type 0} {m : Action F A} (f : A → B) → IsReading m → IsReading (m >>= λ x. pure (f x))
  unfolding ◌>>=◌
  map-IsReading f h = record {
    same = λ db. Keeps-bind (h.same db) (λ x. Keeps-pure (f x));
    calm = λ s k. let (x, e) = h.calm s k in (f x, rw e refl);
  }

  aggregate-IsReading : IsReading (aggregate_fleet_state {F = F})
  unfolding aggregate_fleet_state select_aggregate IsRead
  aggregate-IsReading = map-IsReading _ (execute-IsReading select_aggregate (λ db. (_, refl)))

  zone_counts-IsReading : IsReading (zone_entry_counts {F = F})
  unfolding zone_entry_counts select_zone_counts IsRead
  zone_counts-IsReading = execute-IsReading select_zone_counts (λ db. (_, refl))

  recent-IsReading :
      (v : String) (since until : ℕ) → IsReading (recent_anomalies {F = F} v since until)
  unfolding recent_anomalies select_recent IsRead
  recent-IsReading v since until = execute-IsReading (select_recent v since until) (λ db. (_, refl))

  states-IsReading :
      (before : String → String → Bool) → IsReading (current_vehicle_states {F = F} before)
  unfolding current_vehicle_states select_states IsRead
  states-IsReading before = execute-IsReading (select_states before) (λ db. (_, refl))

  latest-IsReading :
      (before : String → String → Bool) → IsReading (latest_anomaly_per_vehicle {F = F} before)
  unfolding latest_anomaly_per_vehicle select_latest IsRead
  latest-IsReading before = execute-IsReading (select_latest before) (λ db. (_, refl))

  -- A handler that reads, and answers with a status.
  record Replies (code : ℕ) (m : Action F (Answer F)) : Type 0 where
    same : (db : Db F) → Keeps (Same db) m
    replies :
        (s : Session F)
        → s.outages ≡ []
        → (a : Answer F) × (m s ≡ (ok a, s)) × (status_code a ≡ code)

  Replies-pure : (a : Answer F) → Replies (status_code a) (pure {S = Session F} a)
  Replies-pure a = record { same = λ db. Keeps-pure a; replies = λ s h. (a, refl, refl) }

  Replies-read :
      {A : Type 0} {m : Action F A} (f : A → Answer F)
      → ((x : A) → status_code (f x) ≡ 200)
      → IsReading m
      → Replies 200 (m >>= λ x. pure (f x))
  unfolding ◌>>=◌
  Replies-read f h read = record {
    same = (map-IsReading f read).same;
    replies = λ s k. let (x, e) = read.calm s k in (f x, rw e refl, h x);
  }

  Replies-get_anomalies :
      (v : String) (since until : Datetime) → Replies 200 (get_anomalies {F = F} v since until)
  unfolding get_anomalies
  Replies-get_anomalies v since until = record {
    same = λ db. record { at = λ s h. ((reply s.local).same db).at s h };
    replies = λ s h. (reply s.local).replies s h;
  }
    where
      reply :
          (local : ℕ → ℕ)
          → Replies 200 (
              recent_anomalies v (instant local since) (instant local until) >>= λ rows.
              pure (found rows))
      reply local = Replies-read found (λ _. refl) (recent-IsReading v _ _)

abbrev pub query_status : Option (String × Datetime × Datetime) → ℕ
query_status none = 422
query_status (some (vehicle_id, since, until)) = if vehicle_id == "" then 422 else 200

-- The status of a request that nothing keeps from an answer.
abbrev pub expected :
    {Query : Type 0} → (Query → Option (String × Datetime × Datetime)) → Request Query → ℕ
expected parse_query (anomalies query) = query_status (parse_query query)
expected parse_query (other _) = 404
expected parse_query _ = 200

module _ {F Query : Type 0} (before : String → String → Bool)
    (parse_query : Query → Option (String × Datetime × Datetime)) where
  Replies-route_anomalies :
      (parsed : Option (String × Datetime × Datetime))
      → Replies (query_status parsed) (route_anomalies {F = F} before parse_query parsed)
  Replies-route_anomalies none = Replies-pure unprocessable
  Replies-route_anomalies (some (vehicle_id, since, until)) =
      by_test (vehicle_id == "") (Replies-get_anomalies vehicle_id since until)
    where
      by_test :
          (b : Bool) {m : Action F (Answer F)}
          → Replies 200 m
          → Replies (if b then 422 else 200) (if b then pure unprocessable else m)
      by_test true h = Replies-pure unprocessable
      by_test false h = h

  Replies-call_next :
      (request : Request Query)
      → Replies (expected parse_query request) (call_next {F = F} before parse_query request)
  unfolding call_next get_fleet_state get_zone_counts get_vehicles get_latest_anomalies
  Replies-call_next fleet_state = Replies-read fleet (λ _. refl) aggregate-IsReading
  Replies-call_next vehicles = Replies-read states (λ _. refl) (states-IsReading before)
  Replies-call_next latest_anomalies = Replies-read found (λ _. refl) (latest-IsReading before)
  Replies-call_next zones_counts = Replies-read zones (λ _. refl) zone_counts-IsReading
  Replies-call_next (anomalies query) = Replies-route_anomalies (parse_query query)
  Replies-call_next (other url_path) = Replies-pure not_found

  -- A request to the dashboard's API changes no table, whatever fails.
  pub record_request_metrics-same :
      (request : Request Query) (s : Session F) (samples : List Sample)
      → (record_request_metrics before parse_query request s samples).1.db ≡ s.db
  unfolding record_request_metrics
  record_request_metrics-same request s samples = ((Replies-call_next request).same s.db).at s refl

  -- If no statement fails, a request to the dashboard's API is answered with 200, or with 422 for a query
  -- of `GET /anomalies` that FastAPI refuses or that names the empty vehicle, or with 404 for a path of
  -- no route. The session is left as it was, and the counter gets one sample, with the label of the
  -- route and that status.
  pub record_request_metrics-Answered :
      (request : Request Query) (s : Session F) (samples : List Sample)
      → s.outages ≡ []
      → (a : Answer F) × (record_request_metrics before parse_query request s samples
          ≡ (a, s, samples ++ record { route = label request; status = status_code a } ∷ []))
        × (status_code a ≡ expected parse_query request)
  unfolding record_request_metrics
  record_request_metrics-Answered request s samples h =
      let (a, e, code) = (Replies-call_next request).replies s h in (a, rw e refl, code)
