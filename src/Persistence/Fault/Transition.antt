-- ===== src/Persistence/Fault/Transition.antt =====
-- What `transition_to_fault` does, by its outcome.
use mathlib.Core.Path.{subst}
use fleet_telemetry_system.Prelude.{
  ℕ, String, Bool, true, false, not, Option, none, some, List, [], ◌∷◌, ◌++◌, map, ◌≡◌, ◌≢◌, refl,
  sym, ◌==◌, ◌∙◌, arith, ok, count, select, any, head?, update_where, count-update_where_zero,
  select-update_where_other, map-update_where, if◌then◌else◌,
}
use fleet_telemetry_system.Prelude.Dict.{lookup, lookup-upsert}
use fleet_telemetry_system.Models.{VehicleStatus, fault}
use fleet_telemetry_system.Store.{
  Session, Db, Mission, MissionStatus, active, cancelled, MaintenanceRecord,
}
use fleet_telemetry_system.Store.Ensures.{
  Ensures, Ensures-pure, Ensures-execute, Ensures-bind, Transacted, transaction-Transacted,
}
use fleet_telemetry_system.Persistence.Fault.{
  cancel, is_active_of, is_open_of, lock_vehicle, cancel_active_mission, insert_maintenance,
  update_status, to_fault_from, transition_to_fault,
}

abbrev pub is_of_other : String → Mission → Bool
is_of_other v m = not (m.vehicle_id == v)

-- A mission after the transition of a vehicle: an active one of the vehicle is cancelled, any other is as
-- before, and nothing but the status is changed.
abbrev status_after : Bool → MissionStatus → MissionStatus
status_after true active = cancelled
status_after _ s = s

abbrev pub after_fault : String → Mission → Mission
after_fault v m = record {
  mission_id = m.mission_id;
  vehicle_id = m.vehicle_id;
  status = status_after (m.vehicle_id == v) m.status;
}

abbrev or_first : Bool → MissionStatus → ℕ → Option ℕ → Option ℕ
or_first true active id later = some id
or_first _ _ id later = later

-- The first active mission of a vehicle.
abbrev pub underway : String → List Mission → Option ℕ
underway v [] = none
underway v (m ∷ ms) = or_first (m.vehicle_id == v) m.status m.mission_id (underway v ms)

abbrev or_open : Bool → Option ℕ → Bool → Bool
or_open true none later = true
or_open _ _ later = later

-- A record of the vehicle that is not resolved.
abbrev pub has_open : String → List MaintenanceRecord → Bool
has_open v [] = false
has_open v (r ∷ rs) = or_open (r.vehicle_id == v) r.resolved_at (has_open v rs)

abbrev pub opened_for : String → Option ℕ → Option String → MaintenanceRecord
opened_for v mission reason = record {
  vehicle_id = v;
  mission_id = mission;
  reason = reason;
  resolved_at = none;
}

-- A vehicle's transition: it is in fault; each of its active missions is cancelled, and every other
-- mission, of this vehicle too, is as it was; one maintenance record is opened that names the first
-- mission that was cancelled, unless one is open; all else is as before.
pub record IsFaulted {F : Type 0} (v : String) (reason : Option String) (before after : Db F)
    : Type 0 where
  pub status :
      (w : String)
      → lookup w after.vehicles ≡ (if v == w then some fault else lookup w before.vehicles)
  pub missions : after.missions ≡ map (after_fault v) before.missions
  pub maintenance : after.maintenance_records ≡ (
      if has_open v before.maintenance_records
      then before.maintenance_records
      else before.maintenance_records ++ opened_for v (underway v before.missions) reason ∷ [])
  pub none_active : count (is_active_of v) after.missions ≡ 0
  pub others : select (is_of_other v) after.missions ≡ select (is_of_other v) before.missions
  pub same_ids : map (λ m. m.mission_id) after.missions ≡ map (λ m. m.mission_id) before.missions
  pub opened : after.maintenance_records ≡ (
      if any (is_open_of v) before.maintenance_records
      then before.maintenance_records
      else before.maintenance_records
        ++ record {
          vehicle_id = v;
          mission_id = head? (map (λ m. m.mission_id) (select (is_active_of v) before.missions));
          reason = reason;
          resolved_at = none;
        }
          ∷ [])
  pub readings : after.vehicle_current_state ≡ before.vehicle_current_state
  pub raw : after.raw_events ≡ before.raw_events
  pub zones : after.zone_counts ≡ before.zone_counts
  pub anomalies : after.anomalies ≡ before.anomalies

cancelled-not_active : (v : String) (m : Mission) → is_active_of v (cancel m) ≡ false
cancelled-not_active v m = ground arith

own-mission :
    (v : String) (m : Mission)
    → is_active_of v m ≡ true
    → (is_of_other v m ≡ false) × (is_of_other v (cancel m) ≡ false)
own-mission v m h = ground arith

update_where-after_fault :
    (v : String) (ms : List Mission)
    → update_where (is_active_of v) cancel ms ≡ map (after_fault v) ms
update_where-after_fault v [] = refl
update_where-after_fault v (m ∷ ms) = ground (arith, update_where-after_fault v ms)

head-underway :
    (v : String) (ms : List Mission)
    → head? (map (λ m. m.mission_id) (select (is_active_of v) ms)) ≡ underway v ms
head-underway v [] = refl
head-underway v (m ∷ ms) = ground (arith, head-underway v ms)

any-has_open : (v : String) (rs : List MaintenanceRecord) → any (is_open_of v) rs ≡ has_open v rs
any-has_open v [] = refl
any-has_open v (r ∷ rs) = ground (arith, any-has_open v rs)

module _ {F : Type 0} where
  pub statements-IsFaulted :
      (v : String) (reason : Option String) (was : VehicleStatus) (b b₁ b₂ b₃ : Db F) (m : Option ℕ)
      (n : ℕ)
      → lookup v b.vehicles ≡ some was
      → cancel_active_mission v b ≡ ok (m, b₁)
      → insert_maintenance v m reason b₁ ≡ ok (tt, b₂)
      → update_status v fault b₂ ≡ ok (n, b₃)
      → IsFaulted v reason b b₃
  unfolding cancel_active_mission insert_maintenance update_status
  statements-IsFaulted v reason was b b₁ b₂ b₃ m n here gone opened flipped = record {
    status = λ w. ground (arith, lookup-upsert v w fault b.vehicles);
    none_active = rw moved (
        count-update_where_zero (is_active_of v) cancel b.missions (λ m. cancelled-not_active v m));
    others = rw moved (
        select-update_where_other (is_active_of v) cancel (is_of_other v) b.missions
          (own-mission v));
    same_ids =
        rw moved
          (map-update_where (is_active_of v) cancel (λ m. m.mission_id) b.missions (λ m. refl));
    missions = moved ∙ update_where-after_fault v b.missions;
    maintenance = rw⁻¹ (head-underway v b.missions, any-has_open v b.maintenance_records) recorded;
    opened = recorded;
    readings = ground arith;
    raw = ground arith;
    zones = ground arith;
    anomalies = ground arith;
  }
    where
      moved : b₃.missions ≡ update_where (is_active_of v) cancel b.missions
      moved = ground arith

      recorded : b₃.maintenance_records ≡ (
          if any (is_open_of v) b.maintenance_records
          then b.maintenance_records
          else b.maintenance_records
            ++ opened_for v
                (head? (map (λ m. m.mission_id) (select (is_active_of v) b.missions)))
                reason
              ∷ [])
      recorded = ground arith

  -- The tables after a call that returns: `True` is a transition, and `False` means that the vehicle was
  -- in fault and nothing is changed.
  abbrev pub Result : String → Option String → Db F → Bool → Db F → Type 0
  Result v reason b true b' =
      (was : VehicleStatus) × (lookup v b.vehicles ≡ some was)
      × (was ≢ fault)
      × IsFaulted v reason b b'
  Result v reason b false b' = (lookup v b.vehicles ≡ some fault) × (b' ≡ b)

  abbrev Steps : String → Option String → Db F → Bool → Db F → Type 0
  Steps v reason b a b' =
      (m : Option ℕ) × (b₁ : Db F) × (cancel_active_mission v b ≡ ok (m, b₁))
      × ((_ : Unit {0}) × (b₂ : Db F) × (insert_maintenance v m reason b₁ ≡ ok (tt, b₂))
          × ((n : ℕ) × (b₃ : Db F) × (update_status v fault b₂ ≡ ok (n, b₃))
              × ((true ≡ a) × (b' ≡ b₃))))

  Steps-Result :
      (v : String) (reason : Option String) (was : VehicleStatus) (b b' : Db F) (a : Bool)
      → was ≢ fault
      → lookup v b.vehicles ≡ some was
      → Steps v reason b a b'
      → Result v reason b a b'
  Steps-Result v reason was b b' true ne here
        (m, b₁, gone, (_, b₂, opened, (n, b₃, flipped, (_, last)))) =
      (
        was,
        here,
        ne,
        subst (IsFaulted v reason b) (sym last)
            (statements-IsFaulted v reason was b b₁ b₂ b₃ m n here gone opened flipped),
      )
  Steps-Result v reason was b b' false ne here
        (m, b₁, gone, (_, b₂, opened, (n, b₃, flipped, (e, last)))) =
      cc

  in_fault :
      (v : String) (reason : Option String) (b : Db F) (a : Bool)
      → ok false ≡ ok a
      → lookup v b.vehicles ≡ some fault
      → Result v reason b a b
  in_fault v reason b true h here = cc
  in_fault v reason b false h here = (here, refl)

  to_fault_from-Ensures :
      (v : String) (reason : Option String) (row : Option VehicleStatus)
      → Ensures
          (to_fault_from v reason row)
          (λ b a b'. lookup v b.vehicles ≡ row → Result v reason b a b')
  unfolding to_fault_from
  to_fault_from-Ensures v reason none = record { at = λ s a h here. cc }
  to_fault_from-Ensures v reason (some fault) = record {
    at = λ s a h here. in_fault v reason s.db a h here;
  }
  to_fault_from-Ensures v reason (some was) = record {
    at = λ s a h here.
        Steps-Result v reason was s.db _ a (λ e. cc) here
          ((Ensures-bind (Ensures-execute (cancel_active_mission v)) (λ m.
              Ensures-bind (Ensures-execute (insert_maintenance v m reason)) (λ _.
                Ensures-bind (Ensures-execute (update_status v fault))
                  (λ _. Ensures-pure true)))).at
            s a h);
  }

  locked-Result :
      (v : String) (reason : Option String) (row : Option VehicleStatus) (b b₁ b' : Db F) (a : Bool)
      → lock_vehicle v b ≡ ok (row, b₁)
      → (lookup v b₁.vehicles ≡ row → Result v reason b₁ a b')
      → Result v reason b a b'
  unfolding lock_vehicle
  locked-Result v reason row b b₁ b' a read rest =
      let same : b₁ ≡ b = ground arith in
      subst (λ b. Result v reason b a b') same (rest (ground arith))

  -- A call of `transition_to_fault` that returns `True` has moved a vehicle that was not in fault into
  -- fault as `IsFaulted` says. One that returns `False` found it in fault and changed nothing. One that
  -- raises, for an unknown vehicle or at a failing statement, changed nothing.
  pub transition_to_fault-Transacted :
      (v : String) (reason : Option String) (s : Session F)
      → Transacted (Result v reason) s (transition_to_fault v reason s)
  unfolding transition_to_fault
  transition_to_fault-Transacted v reason s =
      transaction-Transacted {Q = Result v reason} s (record {
        at = λ s a h.
            let (row, b₁, read, rest) =
              (Ensures-bind (Ensures-execute (lock_vehicle v)) (to_fault_from-Ensures v reason)).at
                s a h in
            locked-Result v reason row s.db b₁ _ a read rest;
      })
