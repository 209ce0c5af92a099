-- ===== src/Persistence/Ingest/Overlap/History.antt =====
-- The tables that overlapping calls have committed, and what each call knows of them.
use mathlib.Core.Option
use fleet_telemetry_system.Prelude.{
  ℕ, ◌+◌, String, true, false, Option, none, some, List, [], ◌∷◌, ◌++◌, map, ◌≡◌, ◌⊎◌, inl, inr,
  refl, ap, arith, eq_iff, ok, if◌then◌else◌,
}
use fleet_telemetry_system.Prelude.Dict.{Dict, lookup, lookup-upsert}
use fleet_telemetry_system.Models.{TelemetryEvent}
use fleet_telemetry_system.Models.Floats.{Floats}
use fleet_telemetry_system.Store.{Db}
use fleet_telemetry_system.Persistence.Detect.{Finding, detect_anomalies}
use fleet_telemetry_system.Persistence.Ingest.{advance, anomaly_of, reading_of}
use fleet_telemetry_system.Persistence.Ingest.Atomic.{enters, IsRecorded}
use fleet_telemetry_system.Persistence.Ingest.Overlap.{
  Stage, reads, appends, upserts, counts, finds, Txn, Commit, has, add_zone, at, committed,
}

module _ {F : Type 0} (db : Db F) where
  -- The tables after the last commit.
  abbrev pub latest : List (Commit F) → Db F
  latest [] = db
  latest (c ∷ cs) = c.after

  -- `b` was what is committed, at first or after one of the commits.
  abbrev pub WasCommitted : List (Commit F) → Db F → Type 0
  WasCommitted [] b = b ≡ db
  WasCommitted (c ∷ cs) b = (b ≡ c.after) ⊎ WasCommitted cs b

  pub WasCommitted-latest : (cs : List (Commit F)) → WasCommitted cs (latest cs)
  WasCommitted-latest [] = refl
  WasCommitted-latest (c ∷ cs) = inl refl

abbrev pub next : Option ℕ → Option ℕ
next = Option.map (λ n. n + 1)

module _ {F : Type 0} (fl : Floats F) (local : ℕ → ℕ) (db : Db F) where
  -- The findings are those against the reading in tables that were committed.
  abbrev pub Judged : List (Commit F) → TelemetryEvent F → List Finding → Type 0
  Judged cs e fs =
      (b : Db F) × WasCommitted db cs b
      × (detect_anomalies fl e (lookup e.vehicle_id b.vehicle_current_state) ≡ ok fs)

  -- Each commit has recorded its event and its findings in the tables of the commit before.
  abbrev pub IsChain : List (Commit F) → Type 0
  IsChain [] = Unit
  IsChain (c ∷ cs) =
      Judged cs c.event c.findings
      × IsRecorded c.event (at local c.event) c.findings (latest db cs) c.after
      × IsChain cs

  abbrev pub Version : Option String → Option ℕ → Dict ℕ → Type 0
  Version none counter rows = counter ≡ none
  Version (some z) counter rows = counter ≡ next (lookup z rows)

  -- What a transaction knows before its next statement.
  abbrev pub Fits : Stage → Txn F → List (Commit F) → Db F → Type 0
  Fits reads t cs b = (t.counter ≡ none) × (t.inserted ≡ [])
  Fits (finds rest) t cs b =
      Judged cs t.event t.findings
      × Version t.event.zone_entered t.counter b.zone_counts
      × (t.inserted ++ map (anomaly_of t.event.vehicle_id (at local t.event)) rest
          ≡ map (anomaly_of t.event.vehicle_id (at local t.event)) t.findings)
  Fits _ t cs b = Judged cs t.event t.findings × (t.counter ≡ none) × (t.inserted ≡ [])

  pub Fits-committed :
      (stage : Stage) (u : Txn F) (c : Commit F) (cs : List (Commit F)) (b : Db F)
      → (Version u.event.zone_entered u.counter b.zone_counts
          → Version u.event.zone_entered u.counter c.after.zone_counts)
      → Fits stage u cs b
      → Fits stage u (c ∷ cs) c.after
  Fits-committed reads u c cs b keep f = f
  Fits-committed appends u c cs b keep ((x, was, d), n, e) = ((x, inr was, d), n, e)
  Fits-committed upserts u c cs b keep ((x, was, d), n, e) = ((x, inr was, d), n, e)
  Fits-committed counts u c cs b keep ((x, was, d), n, e) = ((x, inr was, d), n, e)
  Fits-committed (finds rest) u c cs b keep ((x, was, d), v, r) = ((x, inr was, d), keep v, r)

  -- The row that one transaction has written is not the one that another has.
  pub Version-add_zone :
      (zone other : Option String) (n m : Option ℕ) (b : Db F)
      → Version zone n b.zone_counts
      → Version other m b.zone_counts
      → ((z : String) → has n ≡ true → has m ≡ true → enters zone z ≡ true → enters other z ≡ false)
      → Version zone n (add_zone other m b).zone_counts
  Version-add_zone none other n m b v w clear = v
  Version-add_zone (some z) none n m b v w clear = v
  Version-add_zone (some z) (some y) n none b v w clear = v
  Version-add_zone (some z) (some y) n (some k) b v w clear =
      ground (arith, lookup-upsert y z k b.zone_counts, eq_iff y z, eq_iff z z, clear z)

  add_zone-rest :
      (zone : Option String) (n : Option ℕ) (b : Db F)
      → add_zone zone n b ≡ record b { zone_counts = (add_zone zone n b).zone_counts }
  add_zone-rest none n b = refl
  add_zone-rest (some z) none b = refl
  add_zone-rest (some z) (some n) b = refl

  add_zone-zones :
      (zone : Option String) (n : Option ℕ) (b : Db F) (z : String)
      → Version zone n b.zone_counts
      → lookup z (add_zone zone n b).zone_counts
        ≡ (if enters zone z then next (lookup z b.zone_counts) else lookup z b.zone_counts)
  add_zone-zones none n b z v = refl
  add_zone-zones (some y) none b z v = ground (arith, v, eq_iff y z)
  add_zone-zones (some y) (some n) b z v =
      ground (arith, v, eq_iff y z, lookup-upsert y z n b.zone_counts)

  pub advance-next :
      (z : String) (o : Option ℕ) (b b' : Db F)
      → lookup z b.zone_counts ≡ o
      → advance z o b ≡ ok (tt, b')
      → lookup z b'.zone_counts ≡ next (lookup z b.zone_counts)
  advance-next z none b b' h e = ground (arith, h)
  advance-next z (some n) b b' h e =
      ground (arith, h, eq_iff z z, lookup-upsert z z (n + 1) b.zone_counts)

  pub committed-IsRecorded :
      (t : Txn F) (b : Db F)
      → Version t.event.zone_entered t.counter b.zone_counts
      → t.inserted ≡ map (anomaly_of t.event.vehicle_id (at local t.event)) t.findings
      → IsRecorded t.event (at local t.event) t.findings b (committed local t b)
  committed-IsRecorded t b v e = record {
    raw = refl;
    current = λ w.
        lookup-upsert t.event.vehicle_id w (reading_of t.event (at local t.event))
          b.vehicle_current_state;
    zones = λ z. add_zone-zones t.event.zone_entered t.counter b z v;
    found = ap (λ l. b.anomalies ++ l) e;
    vehicles = ap (λ d. d.vehicles) (add_zone-rest t.event.zone_entered t.counter b);
    missions = ap (λ d. d.missions) (add_zone-rest t.event.zone_entered t.counter b);
    maintenance = ap (λ d. d.maintenance_records) (add_zone-rest t.event.zone_entered t.counter b);
  }
