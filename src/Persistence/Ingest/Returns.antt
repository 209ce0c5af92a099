-- ===== src/Persistence/Ingest/Returns.antt =====
-- When `persist_telemetry` returns, and when it raises although no statement fails.
use mathlib.Core.Path.{subst}
use fleet_telemetry_system.Prelude.{
  ◌++◌, ℕ, ◌<◌, String, Option, none, some, List, [], ◌∷◌, ◌≡◌, refl, sym, lt→ltb, ◌+◌, ok, raised,
  type_error,
}
use fleet_telemetry_system.Prelude.Dict.{Dict, lookup, upsert}
use fleet_telemetry_system.Prelude.Int.{sub_ℕ}
use fleet_telemetry_system.Models.{TelemetryEvent}
use fleet_telemetry_system.Models.Floats.{Floats}
use fleet_telemetry_system.Models.Datetime.{Datetime, aware, naive, subtract}
use fleet_telemetry_system.Store.{Db, Reading, Session, execute, transaction, Action, ◌>>=◌, ◌>>◌}
use fleet_telemetry_system.Store.Ensures.{transaction-ok}
use fleet_telemetry_system.Persistence.Detect.{Finding, stateless, stateful, detect_anomalies}
use fleet_telemetry_system.Persistence.Ingest.{
  max_integer, select_prior, insert_raw, upsert_current, increment_zone, insert_anomaly, enter_zone,
  insert_anomalies, advance, stamp, persist_body, persist_telemetry,
}

abbrev pub Below : Option ℕ → Type 0
Below none = Unit
Below (some n) = n < max_integer

-- The counter of the zone that the event enters can be advanced.
abbrev pub HasRoom : Option String → Dict ℕ → Type 0
HasRoom none counts = Unit
HasRoom (some zone_id) counts = Below (lookup zone_id counts)

module _ {F : Type 0} where
  -- The event's time can be compared with the reading before it.
  abbrev pub IsComparable : Datetime → Option (Reading F) → Type 0
  IsComparable (aware _) _ = Unit
  IsComparable (naive _) none = Unit
  IsComparable (naive _) (some _) = ⊥

  -- A session in which no statement fails.
  abbrev calm : Db F → (ℕ → ℕ) → Session F
  calm db local = record { db = db; outages = []; local = local }

  insert_anomalies-ok :
      (v : String) (at : ℕ) (fs : List Finding) (db : Db F) (local : ℕ → ℕ)
      → (insert_anomalies v at fs (calm db local)).0 ≡ ok tt
  unfolding insert_anomalies execute insert_anomaly ◌>>=◌
  insert_anomalies-ok v at [] db local = refl
  insert_anomalies-ok v at (f ∷ fs) db local = insert_anomalies-ok v at fs _ local

  advance-ok :
      (z : String) (o : Option ℕ) (db : Db F)
      → Below o
      → (db' : Db F) × (advance z o db ≡ ok (tt, db'))
  advance-ok z none db h = (db, refl)
  advance-ok z (some n) db h =
      (record db { zone_counts = upsert z (n + 1) db.zone_counts }, rw (lt→ltb n max_integer h))

  increment_zone-ok :
      (z : String) (db : Db F)
      → Below (lookup z db.zone_counts)
      → (db' : Db F) × (increment_zone z db ≡ ok (tt, db'))
  unfolding increment_zone
  increment_zone-ok z db h = advance-ok z (lookup z db.zone_counts) db h

  -- What follows the zone's statement returns, if it does on any tables.
  enter_zone-ok :
      (zone : Option String) (k : Action F (Unit {0})) (db : Db F) (local : ℕ → ℕ)
      → HasRoom zone db.zone_counts
      → ((db' : Db F) → (k (calm db' local)).0 ≡ ok tt)
      → ((enter_zone zone >> k) (calm db local)).0 ≡ ok tt
  unfolding enter_zone execute ◌>>=◌
  enter_zone-ok none k db local room rest = rest db
  enter_zone-ok (some z) k db local room rest =
      let (db', e) = increment_zone-ok z db room in rw e (rest db')

module _ {F : Type 0} (fl : Floats F) where
  detect_anomalies-ok :
      (e : TelemetryEvent F) (prior : Option (Reading F))
      → IsComparable e.recorded_at prior
      → (fs : List Finding) × (detect_anomalies fl e prior ≡ ok fs)
  unfolding detect_anomalies
  detect_anomalies-ok e none h = (_, refl)
  detect_anomalies-ok e (some p) h = go e.recorded_at refl h
    where
      go :
          (t : Datetime)
          → e.recorded_at ≡ t
          → IsComparable {F = F} t (some p)
          → (fs : List Finding) × (detect_anomalies fl e (some p) ≡ ok fs)
      go (aware t) q h = (
        stateless fl e ++ stateful fl e p (fl.total_seconds (sub_ℕ t p.recorded_at)),
        rw (q, subtract),
      )
      go (naive t) q h = absurd h

  detect_anomalies-naive :
      (e : TelemetryEvent F) (t : ℕ) (p : Reading F)
      → e.recorded_at ≡ naive t
      → detect_anomalies fl e (some p) ≡ raised type_error
  unfolding detect_anomalies
  detect_anomalies-naive e t p q = rw (q, subtract)

  persist_body-ok :
      (e : TelemetryEvent F) (at : ℕ) (db : Db F) (local : ℕ → ℕ)
      → IsComparable e.recorded_at (lookup e.vehicle_id db.vehicle_current_state)
      → HasRoom e.zone_entered db.zone_counts
      → (persist_body fl e at (calm db local)).0 ≡ ok tt
  unfolding persist_body execute ◌>>=◌ select_prior insert_raw upsert_current
  persist_body-ok e at db local comparable room =
      let (fs, detected) =
        detect_anomalies-ok e (lookup e.vehicle_id db.vehicle_current_state) comparable in
      rw detected (
        enter_zone-ok e.zone_entered (insert_anomalies e.vehicle_id at fs) _ local room
          λ db'. insert_anomalies-ok e.vehicle_id at fs db' local)

  -- If no statement fails, an event whose time can be compared with its vehicle's reading and whose
  -- zone's counter is below the largest INTEGER is persisted: the call returns.
  pub persist_telemetry-ok :
      (e : TelemetryEvent F) (s : Session F)
      → s.outages ≡ []
      → IsComparable e.recorded_at (lookup e.vehicle_id s.db.vehicle_current_state)
      → HasRoom e.zone_entered s.db.zone_counts
      → (persist_telemetry fl e s).0 ≡ ok tt
  unfolding persist_telemetry
  persist_telemetry-ok e s h comparable room =
      subst (λ o. (persist_telemetry fl e (record s { outages = o })).0 ≡ ok tt) (sym h)
        (transaction-ok (persist_body fl e (stamp e s)) (calm s.db s.local)
          (persist_body-ok e (stamp e s) s.db s.local comparable room))

  -- If no statement fails, an event whose time has no zone is refused for every vehicle that has a
  -- reading: the subtraction of the times raises `TypeError`, and no table is changed.
  pub persist_telemetry-naive :
      (e : TelemetryEvent F) (t : ℕ) (p : Reading F) (s : Session F)
      → s.outages ≡ []
      → e.recorded_at ≡ naive t
      → lookup e.vehicle_id s.db.vehicle_current_state ≡ some p
      → persist_telemetry fl e s ≡ (raised type_error, s)
  unfolding persist_telemetry execute transaction ◌>>=◌ select_prior
  persist_telemetry-naive e t p s h q r =
      subst
        (λ o.
          persist_telemetry fl e (record s { outages = o })
          ≡ (raised type_error, record s { outages = o }))
        (sym h) (rw (r, detect_anomalies-naive e t p q))
