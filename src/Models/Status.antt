-- ===== src/Models/Status.antt =====
-- `VehicleStatus` and `STATUSES` of app/models.py.
use fleet_telemetry_system.Prelude.{Bool, true, false, ◌≡◌, ◌↔◌, List, [], ◌∷◌, arith}

pub data VehicleStatus : Type 0 where
  idle moving charging fault : VehicleStatus

abbrev pub statuses : List VehicleStatus
statuses = idle ∷ moving ∷ charging ∷ fault ∷ []

-- Python's `==` on two status strings.
abbrev pub same_status : VehicleStatus → VehicleStatus → Bool
same_status idle idle = true
same_status moving moving = true
same_status charging charging = true
same_status fault fault = true
same_status _ _ = false

pub same_status_iff : (s t : VehicleStatus) → (same_status s t ≡ true) ↔ (s ≡ t)
same_status_iff s t = ground arith
