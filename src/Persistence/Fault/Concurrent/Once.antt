-- ===== src/Persistence/Fault/Concurrent/Once.antt =====
-- Overlapping transitions of one vehicle come to one transition.
use mathlib.Core.Path.{subst}
use fleet_telemetry_system.Prelude.{
  suc, eq_iff, ℕ, String, Bool, false, Option, none, some, List, [], ◌∷◌, ◌≡◌, ◌⊎◌, inl, inr, refl,
  ap, ◌∙◌, arith, Outcome, ok, raised, count,
}
use fleet_telemetry_system.Prelude.Dict.{lookup}
use fleet_telemetry_system.Models.{VehicleStatus, fault}
use fleet_telemetry_system.Store.{Db, Session, execute, transaction, ◌>>=◌}
use fleet_telemetry_system.Persistence.Fault.{
  lock_vehicle, cancel_active_mission, insert_maintenance, update_status, to_fault_from,
  transition_to_fault,
}
use fleet_telemetry_system.Persistence.Fault.Transition.{IsFaulted, statements-IsFaulted}
use fleet_telemetry_system.Persistence.Fault.Concurrent.{
  Stage, cancels, inserts, flips, commits, Holder, Race, Move, asks, proceeds, breaks, start,
  locked, proceed, ask, proceed_held, break_held, move, moves,
}

abbrev pub is_true : ℕ × Outcome Bool → Bool
is_true (_, ok b) = b
is_true (_, raised _) = false

module _ {F : Type 0} (v : String) (db : Db F) where
  -- What the holder has written so far.
  abbrev Written : Stage → Holder F → Type 0
  Written cancels h = h.working ≡ db
  Written (inserts m) h = cancel_active_mission v db ≡ ok (m, h.working)
  Written flips h =
      (m : Option ℕ) × (b₁ : Db F) × (cancel_active_mission v db ≡ ok (m, b₁))
      × (insert_maintenance v m h.reason b₁ ≡ ok (tt, h.working))
  Written commits h = IsFaulted v h.reason db h.working

  abbrev MayHold : Option (Holder F) → Type 0
  MayHold none = Unit
  MayHold (some h) = (was : VehicleStatus) × (lookup v db.vehicles ≡ some was) × Written h.stage h

  -- No transition is committed; or exactly one is, whose call has answered `True`, and from then on
  -- none takes the lock but to find the vehicle in fault.
  data Progress (race : Race F) : Type 0 where
    none_yet : race.db ≡ db → count is_true race.answers ≡ 0 → MayHold race.holder → Progress race
    one_done :
        (reason : Option String)
        → IsFaulted v reason db race.db
        → count is_true race.answers ≡ 1
        → race.holder ≡ none
        → Progress race

  locked-Progress :
      (call : ℕ) (reason : Option String) (race : Race F) (row : Option VehicleStatus)
      → lookup v db.vehicles ≡ row
      → race.db ≡ db
      → count is_true race.answers ≡ 0
      → Progress (locked call reason (ok (row, race.db)) race)
  locked-Progress call reason race none here same zero = none_yet same zero tt
  locked-Progress call reason race (some fault) here same zero = none_yet same zero tt
  locked-Progress call reason race (some was) here same zero = none_yet same zero (was, here, same)

  in_fault :
      (reason : Option String) (b : Db F)
      → IsFaulted v reason db b
      → lookup v b.vehicles ≡ some fault
  in_fault reason b f = f.status v ∙ ground (arith, eq_iff v v)

  ask-Progress :
      (call : ℕ) (reason : Option String) (held : Option (Holder F)) (race : Race F)
      → race.holder ≡ held
      → Progress race
      → Progress (ask v call reason held race)
  unfolding lock_vehicle
  ask-Progress call reason (some h) race e p = p
  ask-Progress call reason none race e (none_yet same zero may) =
      rw (ap (λ b. lookup v b.vehicles) same)
        (locked-Progress call reason race (lookup v db.vehicles) refl same zero)
  ask-Progress call reason none race e (one_done r f one free) =
      rw (in_fault r race.db f) (one_done r f one refl)

  proceed-Progress :
      (stage : Stage) (h : Holder F) (race : Race F) (was : VehicleStatus)
      → race.db ≡ db
      → count is_true race.answers ≡ 0
      → lookup v db.vehicles ≡ some was
      → Written stage h
      → Progress (proceed v stage h race)
  unfolding proceed cancel_active_mission insert_maintenance update_status
  proceed-Progress cancels h race was same zero here w = none_yet same zero (was, here, rw w refl)
  proceed-Progress (inserts m) h race was same zero here w =
      none_yet same zero (was, here, (m, h.working, w, refl))
  proceed-Progress flips h race was same zero here (m, b₁, cancelled, opened) = none_yet same zero (
    was,
    here,
    statements-IsFaulted v h.reason was db b₁ h.working _ m _ here cancelled opened refl,
  )
  proceed-Progress commits h race was same zero here w =
      one_done h.reason w (ap (λ n. suc n) zero) refl

  proceed_held-Progress :
      (held : Option (Holder F)) (race : Race F)
      → race.holder ≡ held
      → Progress race
      → Progress (proceed_held v held race)
  proceed_held-Progress none race e p = p
  proceed_held-Progress (some h) race e (none_yet same zero may) =
      let (was, here, w) = subst MayHold e may in
      proceed-Progress h.stage h race was same zero here w
  proceed_held-Progress (some h) race e (one_done r f one free) = cc

  break_held-Progress :
      (held : Option (Holder F)) (race : Race F)
      → race.holder ≡ held
      → Progress race
      → Progress (break_held held race)
  break_held-Progress none race e p = p
  break_held-Progress (some h) race e (none_yet same zero may) = none_yet same zero tt
  break_held-Progress (some h) race e (one_done r f one free) = cc

  move-Progress : (m : Move) (race : Race F) → Progress race → Progress (move v m race)
  unfolding move
  move-Progress (asks call reason) race p = ask-Progress call reason race.holder race refl p
  move-Progress proceeds race p = proceed_held-Progress race.holder race refl p
  move-Progress breaks race p = break_held-Progress race.holder race refl p

  moves-Progress : (ms : List Move) (race : Race F) → Progress race → Progress (moves v ms race)
  unfolding moves
  moves-Progress [] race p = p
  moves-Progress (m ∷ ms) race p = moves-Progress ms (move v m race) (move-Progress m race p)

  -- The tables are as they were and no call has answered `True`; or one call has, and the tables have
  -- changed by its transition alone.
  abbrev pub AtMostOne : Race F → Type 0
  AtMostOne race =
      ((race.db ≡ db) × (count is_true race.answers ≡ 0))
      ⊎ ((reason : Option String) × IsFaulted v reason db race.db
          × (count is_true race.answers ≡ 1))

  Progress-AtMostOne : (race : Race F) → Progress race → AtMostOne race
  Progress-AtMostOne race (none_yet same zero may) = inl (same, zero)
  Progress-AtMostOne race (one_done reason f one free) = inr (reason, f, one)

  -- Any number of calls of `transition_to_fault` for one vehicle, interleaved and broken off in any way,
  -- come to at most one transition: one call at most answers `True`, and what is committed is the
  -- change of that call, or nothing.
  pub moves-AtMostOne : (ms : List Move) → AtMostOne (moves v ms (start db))
  moves-AtMostOne ms = Progress-AtMostOne _ (moves-Progress ms (start db) (none_yet refl refl tt))

-- The moves of a call that is alone.
abbrev pub alone : Option String → List Move
alone reason = asks 0 reason ∷ proceeds ∷ proceeds ∷ proceeds ∷ proceeds ∷ []

module _ {F : Type 0} where
  abbrev quiet : Db F → (ℕ → ℕ) → Session F
  quiet db local = record { db = db; outages = []; local = local }

  abbrev answered : Outcome Bool × Session F → Race F
  answered (r, s) = record { db = s.db; holder = none; answers = (0, r) ∷ [] }

  alone-from :
      (v : String) (reason : Option String) (db : Db F) (local : ℕ → ℕ) (row : Option VehicleStatus)
      → lookup v db.vehicles ≡ row
      → moves v (alone reason) (start db) ≡ answered (transition_to_fault v reason (quiet db local))
  unfolding moves move proceed lock_vehicle cancel_active_mission insert_maintenance update_status
      transition_to_fault to_fault_from execute transaction ◌>>=◌
  alone-from v reason db local none h = rw h refl
  alone-from v reason db local (some fault) h = rw h refl
  alone-from v reason db local (some was) h = ground (arith, h)

  -- A call that is alone does what `transition_to_fault` does on a session on which no statement fails.
  moves-alone :
      (v : String) (reason : Option String) (db : Db F) (local : ℕ → ℕ)
      → moves v (alone reason) (start db) ≡ answered (transition_to_fault v reason (quiet db local))
  moves-alone v reason db local = alone-from v reason db local (lookup v db.vehicles) refl
