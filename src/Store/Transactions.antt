-- ===== src/Store/Transactions.antt =====
-- A connection from the pool of app/db.py as psycopg presents it: `conn.execute` and
-- `conn.transaction()`. `outages` says of the next statements which ones fail: where the list has
-- ended, none does.
use fleet_telemetry_system.Prelude.{
  ℕ, Bool, true, false, List, [], ◌∷◌, Outcome, ok, raised, database_error,
}
use fleet_telemetry_system.Prelude.Effects.{Effect}
unfoldable pub use fleet_telemetry_system.Prelude.Effects.{pure, lift, continue, ◌>>=◌, ◌>>◌}
use fleet_telemetry_system.Store.Tables.{Db}

pub record Session (F : Type 0) : Type 0 where
  pub db : Db F
  pub outages : List Bool
  -- How the session's time zone reads a time without a zone.
  pub local : ℕ → ℕ

abbrev pub Action : Type 0 → Type 0 → Type 0
Action F A = Effect (Session F) A

-- The effect of one statement on the tables, and its result.
abbrev pub Statement : Type 0 → Type 0 → Type 0
Statement F A = Db F → Outcome (A × Db F)

module _ {F A : Type 0} where
  abbrev pub settle : Outcome (A × Db F) → Session F → Outcome A × Session F
  settle (ok (a, db)) s = (ok a, record s { db = db })
  settle (raised e) s = (raised e, s)

  abbrev pub attempt : List Bool → Statement F A → Action F A
  attempt [] q s = settle (q s.db) s
  attempt (true ∷ rest) q s = (raised database_error, record s { outages = rest })
  attempt (false ∷ rest) q s = settle (q s.db) (record s { outages = rest })

  -- `conn.execute(q)`
  unfoldable pub execute : Statement F A → Action F A
  execute q s = attempt s.outages q s

  abbrev pub finish : Db F → Outcome A × Session F → Outcome A × Session F
  finish before (ok a, s) = (ok a, s)
  finish before (raised e, s) = (raised e, record s { db = before })

  -- `with conn.transaction(): body`
  unfoldable pub transaction : Action F A → Action F A
  transaction body s = finish s.db (body s)
