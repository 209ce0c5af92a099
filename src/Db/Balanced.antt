-- ===== src/Db/Balanced.antt =====
-- Calls one after another leave no pool behind.
use fleet_telemetry_system.Prelude.{
  ℕ, ◌+◌, Option, none, some, List, [], ◌∷◌, ◌≡◌, refl, arith, Outcome,
}
use fleet_telemetry_system.Prelude.Int.{ℤ}
use fleet_telemetry_system.Prelude.Effects.{◌>>=◌}
use fleet_telemetry_system.Text.{Text}
use fleet_telemetry_system.Config.{Environ}
use fleet_telemetry_system.Db.{
  Pools, ConnectionPool, Role, primary, replica, held, open_pool, create_pool, get_pool, close_pool,
  Use, gets, closes, use_pools,
}

abbrev pub one_if_held : Option ConnectionPool → ℕ
one_if_held none = 0
one_if_held (some _) = 1

-- Every pool that was opened is closed or held by its global.
pub record IsBalanced (p : Pools) : Type 0 where
  pub balance : p.opened ≡ p.closed + one_if_held p.pool + one_if_held p.replica_pool

close_pool-IsBalanced : (p : Pools) → IsBalanced p → IsBalanced (close_pool p)
unfolding close_pool
close_pool-IsBalanced p b = record { balance = ground (arith, b.balance) }

module _ (create : Text → ℤ → Outcome (Unit {0})) where
  create_pool-IsBalanced :
      (role : Role) (env : Environ) (p : Pools)
      → held role p ≡ none
      → IsBalanced p
      → IsBalanced (create_pool create role env p).1
  unfolding create_pool open_pool ◌>>=◌
  create_pool-IsBalanced primary env p h b = record { balance = ground (arith, b.balance, h) }
  create_pool-IsBalanced replica env p h b = record { balance = ground (arith, b.balance, h) }

  get_pool-IsBalanced :
      (role : Role) (env : Environ) (p : Pools)
      → IsBalanced p
      → IsBalanced (get_pool create role env p).1
  unfolding get_pool
  get_pool-IsBalanced role env p b = by_held (held role p) refl
    where
      by_held :
          (c : Option ConnectionPool) → held role p ≡ c → IsBalanced (get_pool create role env p).1
      by_held none h = rw h (create_pool-IsBalanced role env p h b)
      by_held (some c) h = rw h b

  -- However the pools are got and closed, one call after another, with any environment and any failing
  -- call: every pool that was opened was closed or is the one that its global holds.
  pub use_pools-IsBalanced :
      (uses : List Use) (p : Pools) → IsBalanced p → IsBalanced (use_pools create uses p)
  unfolding use_pools
  use_pools-IsBalanced [] p b = b
  use_pools-IsBalanced (gets role env ∷ uses) p b =
      use_pools-IsBalanced uses (get_pool create role env p).1 (get_pool-IsBalanced role env p b)
  use_pools-IsBalanced (closes ∷ uses) p b =
      use_pools-IsBalanced uses (close_pool p) (close_pool-IsBalanced p b)
