-- ===== src/Persistence/Fault/SetStatus.antt =====
-- What `set_vehicle_status` does, by its outcome.
use mathlib.Core.Path.{subst}
use fleet_telemetry_system.Prelude.{
  ℕ, String, Bool, true, false, Option, none, some, ◌≡◌, refl, sym, ◌==◌, arith, ok, [], ltb,
  if◌then◌else◌,
}
use fleet_telemetry_system.Prelude.Dict.{lookup, lookup-upsert}
use fleet_telemetry_system.Models.{VehicleStatus}
use fleet_telemetry_system.Store.{Db, Session, execute, transaction, ◌>>=◌}
use fleet_telemetry_system.Store.Ensures.{
  Ensures-pure, Ensures-execute, Ensures-bind, Transacted, transaction-Transacted,
}
use fleet_telemetry_system.Persistence.Fault.{update_status, set_vehicle_status}

abbrev pub known : Option VehicleStatus → Bool
known none = false
known (some _) = true

module _ {F : Type 0} where
  -- `True`: the vehicle has a row, and its status alone is changed. `False`: it has none.
  abbrev pub StatusSet : String → VehicleStatus → Db F → Bool → Db F → Type 0
  StatusSet v status b true b' =
      (was : VehicleStatus) × (lookup v b.vehicles ≡ some was)
      × ((w : String)
          → lookup w b'.vehicles ≡ (if v == w then some status else lookup w b.vehicles))
      × (b' ≡ record b { vehicles = b'.vehicles })
  StatusSet v status b false b' = (lookup v b.vehicles ≡ none) × (b' ≡ b)

  updated-StatusSet :
      (v : String) (status : VehicleStatus) (row : Option VehicleStatus) (b b' b'' : Db F) (n : ℕ)
      (a : Bool)
      → lookup v b.vehicles ≡ row
      → update_status v status b ≡ ok (n, b')
      → (ltb 0 n ≡ a) × (b'' ≡ b')
      → StatusSet v status b a b''
  unfolding update_status
  updated-StatusSet v status none b b' b'' n true e h r = ground arith
  updated-StatusSet v status none b b' b'' n false e h r = ground arith
  updated-StatusSet v status (some was) b b' b'' n false e h r = ground arith
  updated-StatusSet v status (some was) b b' b'' n true e h r =
      (was, e, (λ w. ground (arith, lookup-upsert v w status b.vehicles)), ground arith)

  -- A call of `set_vehicle_status` that returns `True` has set the status of a vehicle that has a row
  -- and changed nothing else; one that returns `False` found no row; any other changed nothing.
  pub set_vehicle_status-Transacted :
      (v : String) (status : VehicleStatus) (s : Session F)
      → Transacted (StatusSet v status) s (set_vehicle_status v status s)
  unfolding set_vehicle_status
  set_vehicle_status-Transacted v status s =
      transaction-Transacted {Q = StatusSet v status} s (record {
        at = λ s a h.
            let (n, b', updated, rest) =
              (Ensures-bind (Ensures-execute (update_status v status))
                  (λ n. Ensures-pure (ltb 0 n))).at
                s a h in
            updated-StatusSet v status _ s.db b' _ n a refl updated rest;
      })

  -- If no statement fails, `set_vehicle_status` returns whether the vehicle has a row.
  pub set_vehicle_status-known :
      (v : String) (status : VehicleStatus) (s : Session F)
      → s.outages ≡ []
      → (set_vehicle_status v status s).0 ≡ ok (known (lookup v s.db.vehicles))
  unfolding set_vehicle_status transaction execute ◌>>=◌ update_status
  set_vehicle_status-known v status s h =
      subst
        (λ o.
          (set_vehicle_status v status (record s { outages = o })).0
          ≡ ok (known (lookup v s.db.vehicles)))
        (sym h) (go (lookup v s.db.vehicles) refl)
    where
      go :
          (row : Option VehicleStatus)
          → lookup v s.db.vehicles ≡ row
          → (set_vehicle_status v status (record s { outages = [] })).0 ≡ ok (known row)
      go none q = rw q
      go (some was) q = rw q
