-- ===== src/Persistence/Ingest/Overlap.antt =====
-- Calls of `persist_telemetry` of app/persistence.py that overlap, each on one of the connections of
-- the pool. The isolation level is READ COMMITTED: a statement sees what is committed when it runs,
-- and what its own transaction has written. A row that a transaction has written stays locked until
-- it ends, and a statement that would write the row waits.
pub mod History
pub mod Invariant
pub mod Chain
pub mod InTurn
pub mod Counted
pub mod Unblocked
pub mod Ends
use fleet_telemetry_system.Prelude.{
  ℕ, zero, suc, ◌+◌, String, Bool, true, false, ◌&&◌, ◌||◌, not, Option, none, some, List, [], ◌∷◌,
  ◌++◌, Outcome, ok, raised, ◌==◌, eqb, ltb, if◌then◌else◌,
}
use fleet_telemetry_system.Prelude.Dict.{lookup, upsert}
use fleet_telemetry_system.Models.{TelemetryEvent}
use fleet_telemetry_system.Models.Floats.{Floats}
use fleet_telemetry_system.Models.Datetime.{instant}
use fleet_telemetry_system.Store.{Db, Anomaly, Reading}
use fleet_telemetry_system.Persistence.Detect.{Finding, detect_anomalies}
use fleet_telemetry_system.Persistence.Ingest.{increment_zone, anomaly_of, reading_of}
use fleet_telemetry_system.Persistence.Ingest.Atomic.{enters}

-- The statement that a transaction runs next: the SELECT, with `detect_anomalies`; the INSERT of the
-- raw event; the upsert; the UPDATE of the counter; the INSERTs of the findings, and the COMMIT after
-- the last of them.
pub data Stage : Type 0 where
  reads appends upserts counts : Stage
  finds : List Finding → Stage

pub record Txn (F : Type 0) : Type 0 where
  pub event : TelemetryEvent F
  pub findings : List Finding
  pub stage : Stage
  -- The version that it has written of the counter of its zone.
  pub counter : Option ℕ
  pub inserted : List Anomaly

-- A committed call: its event, its findings, and the tables right after it.
pub record Commit (F : Type 0) : Type 0 where
  pub event : TelemetryEvent F
  pub findings : List Finding
  pub after : Db F

-- What is committed, the transaction on each connection, and the commits, the last one first.
pub record Overlap (F : Type 0) : Type 0 where
  pub db : Db F
  pub running : ℕ → Option (Txn F)
  pub commits : List (Commit F)

-- A call begins on a connection, runs its next statement, or fails at it.
pub data Move (F : Type 0) : Type 0 where
  begins : ℕ → TelemetryEvent F → Move F
  proceeds breaks : ℕ → Move F

abbrev pub some_below : ℕ → (ℕ → Bool) → Bool
some_below zero p = false
some_below (suc n) p = p n || some_below n p

-- The other connections.
abbrev pub other_than : ℕ → ℕ → Bool
other_than i j = not (eqb i j)

abbrev pub update {ℓ} : {A : Type ℓ} → (ℕ → A) → ℕ → A → ℕ → A
update f i a j = if eqb i j then a else f j

abbrev pub has : Option ℕ → Bool
has none = false
has (some _) = true

-- The upsert has locked the row of the vehicle, also where it has inserted it.
abbrev pub past_upsert : Stage → Bool
past_upsert counts = true
past_upsert (finds _) = true
past_upsert _ = false

module _ {F : Type 0} where
  abbrev pub holds_vehicle : String → Option (Txn F) → Bool
  holds_vehicle v none = false
  holds_vehicle v (some t) = past_upsert t.stage && t.event.vehicle_id == v

  -- An UPDATE that has found no row has locked none.
  abbrev pub holds_zone : String → Option (Txn F) → Bool
  holds_zone z none = false
  holds_zone z (some t) = has t.counter && enters t.event.zone_entered z

  abbrev pub on : Move F → ℕ
  on (begins i e) = i
  on (proceeds i) = i
  on (breaks i) = i

  abbrev pub begun : TelemetryEvent F → Txn F
  begun e = record { event = e; findings = []; stage = reads; counter = none; inserted = [] }

  abbrev pub start : Db F → Overlap F
  start db = record { db = db; running = λ i. none; commits = [] }

  abbrev pub put : ℕ → Option (Txn F) → Overlap F → Overlap F
  put i t s = record s { running = update s.running i t }

  abbrev pub add_zone : Option String → Option ℕ → Db F → Db F
  add_zone none counter db = db
  add_zone (some z) none db = db
  add_zone (some z) (some n) db = record db { zone_counts = upsert z n db.zone_counts }

-- `local` is the time zone of the sessions.
module _ {F : Type 0} (local : ℕ → ℕ) where
  abbrev pub at : TelemetryEvent F → ℕ
  at e = instant local e.recorded_at

  -- What others see of a transaction once it is committed.
  abbrev pub committed : Txn F → Db F → Db F
  committed t db =
      let db₁ = add_zone t.event.zone_entered t.counter db in
      record db₁ {
        raw_events =
            db.raw_events
            ++ record {
              vehicle_id = t.event.vehicle_id;
              status = t.event.status;
              battery_pct = t.event.battery_pct;
              recorded_at = at t.event;
            }
              ∷ [];
        vehicle_current_state =
            upsert t.event.vehicle_id (reading_of t.event (at t.event)) db.vehicle_current_state;
        anomalies = db.anomalies ++ t.inserted;
      }

  abbrev pub commit : ℕ → Txn F → Overlap F → Overlap F
  commit i t s = record {
    db = committed t s.db;
    running = update s.running i none;
    commits =
        record { event = t.event; findings = t.findings; after = committed t s.db } ∷ s.commits;
  }

-- `slots` is the size of the pool.
module _ {F : Type 0} (fl : Floats F) (local : ℕ → ℕ) (slots : ℕ) where
  abbrev pub detected : ℕ → Txn F → Outcome (List Finding) → Overlap F → Overlap F
  detected i t (raised e) s = put i none s
  detected i t (ok fs) s = put i (some (record t { findings = fs; stage = appends })) s

  -- `increment_zone` on what is committed; of it, the transaction keeps the row of its zone.
  abbrev pub entered : ℕ → Txn F → String → Outcome (Unit {0} × Db F) → Overlap F → Overlap F
  entered i t z (raised e) s = put i none s
  entered i t z (ok (_, db)) s =
      put i (some (record t { counter = lookup z db.zone_counts; stage = finds t.findings })) s

  abbrev pub locked : ℕ → (Option (Txn F) → Bool) → Overlap F → Bool
  locked i holds s = some_below slots (λ j. other_than i j && holds (s.running j))

  abbrev pub enter : ℕ → Txn F → Option String → Overlap F → Overlap F
  enter i t none s = put i (some (record t { stage = finds t.findings })) s
  enter i t (some z) s =
      if locked i (holds_zone z) s then s else entered i t z (increment_zone z s.db) s

  unfoldable pub proceed : ℕ → Txn F → Stage → Overlap F → Overlap F
  proceed i t reads s =
      detected i t
        (detect_anomalies fl t.event (lookup t.event.vehicle_id s.db.vehicle_current_state)) s
  proceed i t appends s = put i (some (record t { stage = upserts })) s
  proceed i t upserts s =
      if locked i (holds_vehicle t.event.vehicle_id) s
      then s
      else put i (some (record t { stage = counts })) s
  proceed i t counts s = enter i t t.event.zone_entered s
  proceed i t (finds (f ∷ fs)) s =
      put i
        (some (record t {
          inserted = t.inserted ++ anomaly_of t.event.vehicle_id (at local t.event) f ∷ [];
          stage = finds fs;
        }))
        s
  proceed i t (finds []) s = commit local i t s

  abbrev pub proceed_at : ℕ → Option (Txn F) → Overlap F → Overlap F
  proceed_at i none s = s
  proceed_at i (some t) s = proceed i t t.stage s

  -- A connection that is in use is not given out.
  abbrev pub begin_at : ℕ → TelemetryEvent F → Option (Txn F) → Overlap F → Overlap F
  begin_at i e none s = put i (some (begun e)) s
  begin_at i e (some t) s = s

  abbrev pub act : Move F → Overlap F → Overlap F
  act (begins i e) s = begin_at i e (s.running i) s
  act (proceeds i) s = proceed_at i (s.running i) s
  act (breaks i) s = put i none s

  unfoldable pub move : Move F → Overlap F → Overlap F
  unfolding proceed
  move m s = if ltb (on m) slots then act m s else s

  -- A schedule of the calls.
  unfoldable pub moves : List (Move F) → Overlap F → Overlap F
  unfolding move
  moves [] s = s
  moves (m ∷ ms) s = moves ms (move m s)
