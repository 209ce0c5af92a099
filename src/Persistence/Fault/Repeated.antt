-- ===== src/Persistence/Fault/Repeated.antt =====
-- A fault that is reported again, and what a call returns when no statement fails.
use mathlib.Core.Path.{subst}
use text.Mathlib.TextPositions.{eq_refl}
use fleet_telemetry_system.Prelude.{
  String, Bool, true, false, Option, none, some, [], ◌≡◌, ◌≢◌, refl, sym, ap, ◌∙◌, Outcome, ok,
  raised, lookup_error,
}
use fleet_telemetry_system.Prelude.Dict.{lookup}
use fleet_telemetry_system.Models.{VehicleStatus, fault}
use fleet_telemetry_system.Store.{Session, execute, transaction, ◌>>=◌}
use fleet_telemetry_system.Store.Ensures.{Transacted}
use fleet_telemetry_system.Persistence.Fault.{
  lock_vehicle, cancel_active_mission, insert_maintenance, update_status, transition_to_fault,
}
use fleet_telemetry_system.Persistence.Fault.Transition.{Result, transition_to_fault-Transacted}

abbrev pub answer : Option VehicleStatus → Outcome Bool
answer none = raised lookup_error
answer (some fault) = ok false
answer (some _) = ok true

module _ {F : Type 0} where
  -- After a result the vehicle is in fault.
  returned-fault :
      (v : String) (reason : Option String) (s : Session F) (r : Outcome Bool × Session F)
      (b : Bool)
      → Transacted (Result v reason) s r
      → r.0 ≡ ok b
      → lookup v r.1.db.vehicles ≡ some fault
  returned-fault v reason s (ok true, s') b t h = t.3.status v ∙ rw (eq_refl v)
  returned-fault v reason s (ok false, s') b t h = ap (λ d. lookup v d.vehicles) t.1 ∙ t.0
  returned-fault v reason s (raised _, s') b t h = cc

  in_fault-unchanged :
      (v : String) (reason : Option String) (s : Session F) (r : Outcome Bool × Session F)
      → lookup v s.db.vehicles ≡ some fault
      → Transacted (Result v reason) s r
      → (r.0 ≢ ok true) × (r.1.db ≡ s.db)
  in_fault-unchanged v reason s (ok true, s') here t = absurd (t.2 (cc (t.1, here)))
  in_fault-unchanged v reason s (ok false, s') here t = ((λ e. cc), t.1)
  in_fault-unchanged v reason s (raised x, s') here t = ((λ e. cc), t)

  -- Once a call of `transition_to_fault` has returned, another one for the same vehicle does not report
  -- a transition and changes no table, whatever its reason is and whatever statement fails.
  pub transition_to_fault_twice :
      (v : String) (reason again : Option String) (s : Session F) (b : Bool)
      → (transition_to_fault v reason s).0 ≡ ok b
      → ((transition_to_fault v again (transition_to_fault v reason s).1).0 ≢ ok true)
        × ((transition_to_fault v again (transition_to_fault v reason s).1).1.db
            ≡ (transition_to_fault v reason s).1.db)
  transition_to_fault_twice v reason again s b h =
      let s' = (transition_to_fault v reason s).1 in
      in_fault-unchanged v again s' (transition_to_fault v again s')
        (returned-fault v reason s (transition_to_fault v reason s) b
          (transition_to_fault-Transacted v reason s) h)
        (transition_to_fault-Transacted v again s')

  -- If no statement fails, `transition_to_fault` raises `LookupError` for an unknown vehicle, returns
  -- `False` for one in fault and `True` for every other.
  pub transition_to_fault-answer :
      (v : String) (reason : Option String) (s : Session F)
      → s.outages ≡ []
      → (transition_to_fault v reason s).0 ≡ answer (lookup v s.db.vehicles)
  unfolding transition_to_fault transaction execute ◌>>=◌ lock_vehicle cancel_active_mission
      insert_maintenance update_status
  transition_to_fault-answer v reason s h =
      subst
        (λ o.
          (transition_to_fault v reason (record s { outages = o })).0
          ≡ answer (lookup v s.db.vehicles))
        (sym h) (go (lookup v s.db.vehicles) refl)
    where
      go :
          (row : Option VehicleStatus)
          → lookup v s.db.vehicles ≡ row
          → (transition_to_fault v reason (record s { outages = [] })).0 ≡ answer row
      go none q = rw q
      go (some fault) q = rw q
      go (some was) q = rw q
