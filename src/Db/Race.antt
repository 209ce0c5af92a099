-- ===== src/Db/Race.antt =====
-- Threads that all find no pool before the first of them has stored one.
use fleet_telemetry_system.Prelude.{
  ◌++◌, ℕ, zero, suc, ◌+◌, Option, none, some, List, [], ◌∷◌, ◌≡◌, refl, ap, ◌∙◌, arith, Outcome,
  ok,
}
use fleet_telemetry_system.Prelude.Int.{ℤ}
use fleet_telemetry_system.Prelude.Effects.{◌>>=◌}
use fleet_telemetry_system.Text.{Text}
use fleet_telemetry_system.Config.{Environ, get_pool_max_size}
use fleet_telemetry_system.Db.{
  Pools, ConnectionPool, Role, primary, replica, dsn_of, held, hold, open_pool, create_pool,
  Threads, ThreadStep, tests, stores, noted, thread_step, race,
}
use fleet_telemetry_system.Db.Balanced.{one_if_held, IsBalanced}

-- The pools that are closed or held.
abbrev pub accounted : Pools → ℕ
accounted p = p.closed + one_if_held p.pool + one_if_held p.replica_pool

hold-accounted :
    (role : Role) (c : ConnectionPool) (n : ℕ) (p : Pools)
    → accounted (hold role (some c) (record p { opened = n })) + one_if_held (held role p)
      ≡ accounted p + 1
hold-accounted primary c n p = ground arith
hold-accounted replica c n p = ground arith

held-hold :
    (role : Role) (c : Option ConnectionPool) (p : Pools)
    → (held role (hold role c p) ≡ c) × ((hold role c p).opened ≡ p.opened)
held-hold primary c p = (refl, refl)
held-hold replica c p = (refl, refl)

module _ (create : Text → ℤ → Outcome (Unit {0})) where
  -- One creation after another.
  unfoldable create_all : Role → List Environ → Pools → Pools
  create_all role [] p = p
  create_all role (env ∷ envs) p = create_all role envs (create_pool create role env p).1

abbrev pub repeat : ℕ → ThreadStep → List ThreadStep
repeat zero step = []
repeat (suc n) step = step ∷ repeat n step

module _ (create : Text → ℤ → Outcome (Unit {0})) (role : Role) (env : Environ) (conninfo : Text)
    (max_size : ℤ) (dsn : dsn_of role env ≡ ok conninfo)
    (size : get_pool_max_size env ≡ ok max_size) (opens : create conninfo max_size ≡ ok tt) where
  abbrev new_pool : Pools → ConnectionPool
  new_pool p = record { number = p.opened; conninfo = conninfo; max_size = max_size }

  created :
      (p : Pools)
      → create_pool create role env p
        ≡ (ok (new_pool p), hold role (some (new_pool p)) (record p { opened = suc p.opened }))
  unfolding create_pool open_pool ◌>>=◌
  created p = rw (dsn, size, opens)

  abbrev pub threads : ℕ → List Environ
  threads zero = []
  threads (suc n) = env ∷ threads n

  abbrev after : Pools → Pools
  after p = hold role (some (new_pool p)) (record p { opened = suc p.opened })

  race-step :
      (n : ℕ) (p : Pools)
      → create_all create role (threads (suc n)) p ≡ create_all create role (threads n) (after p)
  unfolding create_all
  race-step n p = ap (λ r. create_all create role (threads n) r.1) (created p)

  race-zero : (p : Pools) → create_all create role (threads zero) p ≡ p
  unfolding create_all
  race-zero p = refl

  after-held : (p : Pools) → one_if_held (held role (after p)) ≡ 1
  after-held p =
      ap one_if_held (held-hold role (some (new_pool p)) (record p { opened = suc p.opened })).0

  after-opened : (p : Pools) → (after p).opened ≡ suc p.opened
  after-opened p = (held-hold role (some (new_pool p)) (record p { opened = suc p.opened })).1

  after-accounted : (p : Pools) → accounted (after p) + one_if_held (held role p) ≡ accounted p + 1
  after-accounted p = hold-accounted role (new_pool p) (suc p.opened) p

  -- With a pool held, each thread more opens one that takes the place of the one held.
  race-held :
      (n : ℕ) (p : Pools)
      → one_if_held (held role p) ≡ 1
      → ((create_all create role (threads n) p).opened ≡ p.opened + n)
        × (accounted (create_all create role (threads n) p) ≡ accounted p)
  race-held zero p h = rw (race-zero p) (omega arith, refl)
  race-held (suc n) p h =
      let (opened, held) = race-held n (after p) (after-held p) in
      rw (race-step n p)
        (omega (arith, opened, after-opened p), omega (arith, held, h, after-accounted p))

  race-append :
      (xs ys : List ThreadStep) (t : Threads)
      → race create role (xs ++ ys) t ≡ race create role ys (race create role xs t)
  unfolding race
  race-append [] ys t = refl
  race-append (x ∷ xs) ys t = race-append xs ys (thread_step create role x t)

  race-tests :
      (n : ℕ) (t : Threads)
      → held role t.pools ≡ none
      → race create role (repeat n tests) t
        ≡ record { pools = t.pools; found_none = n + t.found_none }
  unfolding race thread_step
  race-tests zero t h = ap (λ k. record { pools = t.pools; found_none = k }) (omega arith)
  race-tests (suc n) t h =
      let next : Threads = record { pools = t.pools; found_none = suc t.found_none } in
      ap (λ c. race create role (repeat n tests) (noted create c t)) h
      ∙ race-tests n next h
      ∙ ap (λ k. record { pools = t.pools; found_none = k }) (omega arith)

  race-stores :
      (n : ℕ) (p : Pools)
      → race create role (repeat n (stores env)) (record { pools = p; found_none = n })
        ≡ record { pools = create_all create role (threads n) p; found_none = 0 }
  unfolding race thread_step create_all
  race-stores zero p = refl
  race-stores (suc n) p = race-stores n (create_pool create role env p).1

  -- All test the global before any of them stores a pool.
  abbrev pub overlap : ℕ → List ThreadStep
  overlap n = repeat n tests ++ repeat n (stores env)

  overlap-create_all :
      (n : ℕ) (p : Pools)
      → held role p ≡ none
      → (race create role (overlap n) (record { pools = p; found_none = 0 })).pools
        ≡ create_all create role (threads n) p
  overlap-create_all n p h =
      ap (λ t. t.pools)
        (race-append (repeat n tests) (repeat n (stores env)) (record { pools = p; found_none = 0 })
          ∙ ap (race create role (repeat n (stores env))) (
              race-tests n (record { pools = p; found_none = 0 }) h
              ∙ ap (λ k. record { pools = p; found_none = k }) (omega arith))
          ∙ race-stores n p)

  -- When threads that use a pool for the first time overlap, so that each of them has found none before
  -- the first has stored one, each opens a pool: all but one of these are neither closed nor held.
  -- Before, every pool was closed or held; the environment is in order and `ConnectionPool` opens.
  pub race-leaks :
      (n : ℕ) (p : Pools)
      → IsBalanced p
      → held role p ≡ none
      → (race create role (overlap (suc n)) (record { pools = p; found_none = 0 })).pools.opened
        ≡ accounted
            (race create role (overlap (suc n)) (record { pools = p; found_none = 0 })).pools
          + n
  race-leaks n p b h =
      let (opened, held) = race-held n (after p) (after-held p) in
      rw (overlap-create_all (suc n) p h, race-step n p)
        (omega
          (arith, opened, held, after-opened p, after-accounted p, ap one_if_held h, b.balance))
