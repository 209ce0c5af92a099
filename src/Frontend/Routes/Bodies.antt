-- ===== src/Frontend/Routes/Bodies.antt =====
-- What the read routes answer.
use fleet_telemetry_system.Prelude.{
  ℕ, String, Bool, ◌&&◌, Option, none, some, List, ◌==◌, ◌≡◌, ok, count, if◌then◌else◌,
}
use fleet_telemetry_system.Prelude.Sorting.{IsAscending}
use fleet_telemetry_system.Models.Datetime.{Datetime, instant}
use fleet_telemetry_system.Store.{Session, Action, Anomaly}
use fleet_telemetry_system.Persistence.Reads.{VehicleState, in_range}
use fleet_telemetry_system.Persistence.Reads.Totals.{counts_of}
use fleet_telemetry_system.Persistence.Reads.Latest.{AreLatest}
use fleet_telemetry_system.Persistence.Reads.Listing.{IsListing}
use fleet_telemetry_system.Frontend.Routes.{
  Request, fleet_state, vehicles, latest_anomalies, zones_counts, anomalies, other, Answer, fleet,
  states, found, zones, not_found, unprocessable,
}

module _ {F : Type 0} where
  -- The anomalies of a vehicle in a range, ordered by their time.
  pub record AreInRange (s : Session F) (vehicle_id : String) (since until : ℕ)
      (rows : List Anomaly) : Type 0 where
    pub ordered : IsAscending (λ a. a.detected_at) rows
    pub complete :
        (p : Anomaly → Bool)
        → count p rows ≡ count (λ a. in_range vehicle_id since until a && p a) s.db.anomalies

  abbrev pub InRange : Session F → String → Datetime → Datetime → Answer F → Type 0
  InRange s vehicle_id since until a =
      (rows : List Anomaly) × (a ≡ found rows)
      × AreInRange s vehicle_id (instant s.local since) (instant s.local until) rows

  abbrev pub QueryAnswer : Session F → Option (String × Datetime × Datetime) → Answer F → Type 0
  QueryAnswer s none a = a ≡ unprocessable
  QueryAnswer s (some (vehicle_id, since, until)) a =
      if vehicle_id == "" then a ≡ unprocessable else InRange s vehicle_id since until a

module _ {F Query : Type 0} (before : String → String → Bool)
    (parse_query : Query → Option (String × Datetime × Datetime)) where
  -- What a request is answered from the tables of a session.
  abbrev pub IsAnswer : Session F → Request Query → Answer F → Type 0
  IsAnswer s fleet_state a = a ≡ fleet (counts_of s.db)
  IsAnswer s vehicles a =
      (rows : List (VehicleState F)) × (a ≡ states rows) × IsListing before s.db rows
  IsAnswer s latest_anomalies a =
      (rows : List Anomaly) × (a ≡ found rows) × AreLatest s.db.anomalies rows
  IsAnswer s zones_counts a = a ≡ zones s.db.zone_counts
  IsAnswer s (anomalies query) a = QueryAnswer s (parse_query query) a
  IsAnswer s (other url_path) a = a ≡ not_found

  abbrev Replied : Session F → (Answer F → Type 0) → Action F (Answer F) → Type 0
  Replied s Is m = (a : Answer F) × (m s ≡ (ok a, s)) × Is a
