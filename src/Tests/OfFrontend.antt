-- ===== src/Tests/OfFrontend.antt =====
-- app/frontend_api.py on a small registry.
use fleet_telemetry_system.Prelude.{ℕ, ◌+◌, some, List, [], ◌∷◌, ◌≡◌, refl, arith, eqb}
use fleet_telemetry_system.Frontend.{
  ConnectionRegistry, Turn, joins, leaves, sends, fails, broadcast,
}
use fleet_telemetry_system.Frontend.Fanout.{sent_to, broadcast-sent_to}
use fleet_telemetry_system.Frontend.Membership.{HoldsOnce, broadcast-ends}

-- Messages are numbers.
abbrev registry : ConnectionRegistry ℕ
registry = record { connections = 1 ∷ 2 ∷ 3 ∷ []; delivered = []; broadcasts = 0 }

-- The send to 2 fails, 3 leaves and 4 joins.
abbrev busy : List Turn
busy = sends ∷ joins 4 ∷ fails ∷ leaves 3 ∷ sends ∷ []

abbrev registry_after : ConnectionRegistry ℕ
registry_after = record {
  connections = 4 ∷ 1 ∷ [];
  delivered = (3, 7) ∷ (1, 7) ∷ [];
  broadcasts = 1;
}

broadcast-sent_to_example :
    sent_to (eqb 7) 1 registry_after.delivered ≡ sent_to (eqb 7) 1 registry.delivered + 1
unfolding broadcast
broadcast-sent_to_example = broadcast-sent_to (eqb 7) 1 7 busy registry registry_after refl refl

broadcast-ends_example : (r : ConnectionRegistry ℕ) × (broadcast 7 busy registry ≡ some r)
broadcast-ends_example = broadcast-ends 7 busy registry (omega arith)

registry-HoldsOnce : HoldsOnce registry
registry-HoldsOnce ws = ground arith
