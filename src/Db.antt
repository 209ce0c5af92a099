-- ===== src/Db.antt =====
-- app/db.py: the two connection pools of a process. What `ConnectionPool(…)` does with its arguments is
-- a parameter: it opens a pool or raises.
pub mod Balanced
pub mod Race
use fleet_telemetry_system.Prelude.{
  zero, ℕ, suc, ◌+◌, Option, none, some, List, [], ◌∷◌, Outcome, ok, raised,
}
use fleet_telemetry_system.Prelude.Int.{ℤ}
use fleet_telemetry_system.Prelude.Effects.{Effect, pure, lift, ◌>>=◌, ◌>>◌}
use fleet_telemetry_system.Text.{Text}
use fleet_telemetry_system.Config.{Environ, get_dsn, get_replica_dsn, get_pool_max_size}

-- The pools of a process are numbered in the order in which they are opened.
pub record ConnectionPool : Type 0 where
  pub number : ℕ
  pub conninfo : Text
  pub max_size : ℤ

pub data Role : Type 0 where
  primary replica : Role

-- The two globals, and how many pools were opened and closed.
pub record Pools : Type 0 where
  pub pool : Option ConnectionPool
  pub replica_pool : Option ConnectionPool
  pub opened : ℕ
  pub closed : ℕ

abbrev pub no_pools : Pools
no_pools = record { pool = none; replica_pool = none; opened = 0; closed = 0 }

abbrev pub dsn_of : Role → Environ → Outcome Text
dsn_of primary = get_dsn
dsn_of replica = get_replica_dsn

abbrev pub held : Role → Pools → Option ConnectionPool
held primary p = p.pool
held replica p = p.replica_pool

abbrev pub hold : Role → Option ConnectionPool → Pools → Pools
hold primary c p = record p { pool = c }
hold replica c p = record p { replica_pool = c }

abbrev pub count_opened : Text → ℤ → Effect Pools ConnectionPool
count_opened conninfo max_size p = (
  ok (record { number = p.opened; conninfo = conninfo; max_size = max_size }),
  record p { opened = suc p.opened },
)

abbrev pub keep : Role → ConnectionPool → Effect Pools ConnectionPool
keep role c p = (ok c, hold role (some c) p)

abbrev pub close_held : Role → Option ConnectionPool → Pools → Pools
close_held role none p = p
close_held role (some c) p = hold role none (record p { closed = suc p.closed })

unfoldable pub close_pool : Pools → Pools
close_pool p = let p₁ = close_held primary p.pool p in close_held replica p₁.replica_pool p₁

pub data Use : Type 0 where
  gets : Role → Environ → Use
  closes : Use

-- Threads in `get_pool`: how many have found no pool and have not yet stored one.
pub record Threads : Type 0 where
  pub pools : Pools
  pub found_none : ℕ

-- A thread tests the global; or one that has found no pool opens one and stores it.
pub data ThreadStep : Type 0 where
  tests : ThreadStep
  stores : Environ → ThreadStep

module _ (create : Text → ℤ → Outcome (Unit {0})) where
  -- `ConnectionPool(conninfo=…, min_size=1, max_size=…, open=True)`
  unfoldable pub open_pool : Role → Environ → Effect Pools ConnectionPool
  open_pool role env = do
    conninfo ← lift (dsn_of role env)
    max_size ← lift (get_pool_max_size env)
    lift (create conninfo max_size)
    count_opened conninfo max_size

  -- What a caller does that has found no pool.
  unfoldable pub create_pool : Role → Environ → Effect Pools ConnectionPool
  unfolding open_pool
  create_pool role env = open_pool role env >>= keep role

  abbrev pub pool_or_new : Role → Environ → Option ConnectionPool → Effect Pools ConnectionPool
  pool_or_new role env none = create_pool role env
  pool_or_new role env (some c) = pure c

  -- `get_pool` and `get_replica_pool`
  unfoldable pub get_pool : Role → Environ → Effect Pools ConnectionPool
  unfolding create_pool
  get_pool role env p = pool_or_new role env (held role p) p

  -- Calls one after another.
  unfoldable pub use_pools : List Use → Pools → Pools
  unfolding get_pool close_pool
  use_pools [] p = p
  use_pools (gets role env ∷ uses) p = use_pools uses (get_pool role env p).1
  use_pools (closes ∷ uses) p = use_pools uses (close_pool p)

  abbrev pub noted : Option ConnectionPool → Threads → Threads
  noted none t = record t { found_none = suc t.found_none }
  noted (some c) t = t

  abbrev pub store_for : ℕ → Role → Environ → Threads → Threads
  store_for zero role env t = t
  store_for (suc n) role env t = record { pools = (create_pool role env t.pools).1; found_none = n }

  unfoldable pub thread_step : Role → ThreadStep → Threads → Threads
  unfolding create_pool
  thread_step role tests t = noted (held role t.pools) t
  thread_step role (stores env) t = store_for t.found_none role env t

  -- Calls of `get_pool` by threads, interleaved.
  unfoldable pub race : Role → List ThreadStep → Threads → Threads
  unfolding thread_step
  race role [] t = t
  race role (step ∷ steps) t = race role steps (thread_step role step t)
