-- ===== src/Persistence/Fault/Concurrent.antt =====
-- Calls of `transition_to_fault` for one vehicle that overlap. Each takes the lock on the vehicle's row
-- first, and then runs its statements one by one; `FOR UPDATE` waits while another holds the lock. What
-- a transaction has written is seen by others once it commits.
pub mod Once
use fleet_telemetry_system.Prelude.{
  ℕ, String, Bool, true, false, Option, none, some, List, [], ◌∷◌, Outcome, ok, raised, Exception,
  lookup_error, database_error, if◌then◌else◌,
}
use fleet_telemetry_system.Models.{VehicleStatus, fault, same_status}
use fleet_telemetry_system.Store.{Db}
use fleet_telemetry_system.Persistence.Fault.{
  lock_vehicle, cancel_active_mission, insert_maintenance, update_status,
}

-- The statement that the holder of the lock runs next, or its COMMIT.
pub data Stage : Type 0 where
  cancels : Stage
  inserts : (mission_id : Option ℕ) → Stage
  flips commits : Stage

pub record Holder (F : Type 0) : Type 0 where
  pub call : ℕ
  pub reason : Option String
  pub stage : Stage
  -- The tables with what it has written.
  pub working : Db F

-- `db` is what is committed. Calls are numbered; `answers` has the latest first.
pub record Race (F : Type 0) : Type 0 where
  pub db : Db F
  pub holder : Option (Holder F)
  pub answers : List (ℕ × Outcome Bool)

-- A call asks for the lock; the holder runs its next statement; or that one fails.
pub data Move : Type 0 where
  asks : ℕ → Option String → Move
  proceeds breaks : Move

module _ {F : Type 0} where
  abbrev pub start : Db F → Race F
  start db = record { db = db; holder = none; answers = [] }

  abbrev pub answer : ℕ → Outcome Bool → Race F → Race F
  answer call r race = record race { holder = none; answers = (call, r) ∷ race.answers }

  abbrev pub hold : Holder F → Race F → Race F
  hold h race = record race { holder = some h }

  abbrev pub locked : ℕ → Option String → Outcome (Option VehicleStatus × Db F) → Race F → Race F
  locked call reason (raised e) race = answer call (raised e) race
  locked call reason (ok (none, db)) race = answer call (raised lookup_error) race
  locked call reason (ok (some status, db)) race =
      if same_status status fault
      then answer call (ok false) race
      else hold (record { call = call; reason = reason; stage = cancels; working = db }) race

  -- After a statement: on with the next one, or the transaction is rolled back.
  abbrev pub stage_on : {A : Type 0} → (A → Stage) → Holder F → Outcome (A × Db F) → Race F → Race F
  stage_on next h (raised e) race = answer h.call (raised e) race
  stage_on next h (ok (a, db)) race = hold (record h { stage = next a; working = db }) race

  unfoldable pub proceed : String → Stage → Holder F → Race F → Race F
  proceed v cancels h race = stage_on inserts h (cancel_active_mission v h.working) race
  proceed v (inserts mission_id) h race =
      stage_on (λ _. flips) h (insert_maintenance v mission_id h.reason h.working) race
  proceed v flips h race = stage_on (λ _. commits) h (update_status v fault h.working) race
  proceed v commits h race = answer h.call (ok true) (record race { db = h.working })

  abbrev pub ask : String → ℕ → Option String → Option (Holder F) → Race F → Race F
  ask v call reason none race = locked call reason (lock_vehicle v race.db) race
  ask v call reason (some h) race = race

  abbrev pub proceed_held : String → Option (Holder F) → Race F → Race F
  proceed_held v none race = race
  proceed_held v (some h) race = proceed v h.stage h race

  abbrev pub break_held : Option (Holder F) → Race F → Race F
  break_held none race = race
  break_held (some h) race = answer h.call (raised database_error) race

  unfoldable pub move : String → Move → Race F → Race F
  unfolding proceed
  move v (asks call reason) race = ask v call reason race.holder race
  move v proceeds race = proceed_held v race.holder race
  move v breaks race = break_held race.holder race

  -- A schedule of the calls.
  unfoldable pub moves : String → List Move → Race F → Race F
  unfolding move
  moves v [] race = race
  moves v (m ∷ ms) race = moves v ms (move v m race)
