-- ===== src/Migrate.antt =====
-- app/migrate.py. A migration file is its name and what the SQL in it does to the tables; the other
-- names and contents of `MIGRATIONS_DIR` are a parameter of the run.
pub mod Seeded
pub mod Pending
pub mod Applied
pub mod Rerun
use fleet_telemetry_system.Prelude.{
  ℕ, String, Bool, true, false, not, Option, none, some, List, [], ◌∷◌, ◌++◌, ok, raised,
  database_error, any, ◌==◌, if◌then◌else◌,
}
use fleet_telemetry_system.Prelude.Exceptions.{Outcome}
use fleet_telemetry_system.Prelude.Effects.{Effect}
use fleet_telemetry_system.Prelude.Dict.{Dict, lookup, upsert}
use fleet_telemetry_system.Prelude.Sorting.{sort_with}
use fleet_telemetry_system.Text.{codes}
use fleet_telemetry_system.Text.Order.{le_text}
use fleet_telemetry_system.Models.Zones.{zones}
use fleet_telemetry_system.Store.{
  Session, Action, Statement, pure, execute, transaction, ◌>>◌, ◌>>=◌,
}

abbrev pub with_row : String → Option ℕ → Dict ℕ → Dict ℕ
with_row zone_id none counts = upsert zone_id 0 counts
with_row zone_id (some _) counts = counts

module _ {F : Type 0} where
  -- INSERT … ON CONFLICT (zone_id) DO NOTHING
  unfoldable pub seed_zone : String → Statement F Unit
  seed_zone zone_id db = ok (
    tt,
    record db { zone_counts = with_row zone_id (lookup zone_id db.zone_counts) db.zone_counts },
  )

  -- The `for` loop over the zones.
  unfoldable pub seed_all : List String → Action F Unit
  unfolding seed_zone
  seed_all [] = pure tt
  seed_all (zone_id ∷ rest) = execute (seed_zone zone_id) >> seed_all rest

  unfoldable pub seed_zones : Action F Unit
  unfolding seed_all
  seed_zones = transaction (seed_all zones)

abbrev pub is_among : String → List String → Bool
is_among z zs = any (λ y. y == z) zs

pub record Migration (F : Type 0) : Type 0 where
  pub name : String
  pub script : Statement F Unit

-- A session, and the versions in `schema_migrations`, if the table exists.
pub record Ledger (F : Type 0) : Type 0 where
  pub session : Session F
  pub versions : Option (List String)

-- The order of `sorted` on the paths of one directory: by code points of the name.
abbrev pub by_name : {F : Type 0} → Migration F → Migration F → Bool
by_name a b = le_text (codes a.name) (codes b.name)

-- CREATE TABLE IF NOT EXISTS
abbrev pub created : Option (List String) → Option (List String)
created none = some []
created (some versions) = some versions

abbrev pub rows_of : Option (List String) → Outcome (List String)
rows_of none = raised database_error
rows_of (some versions) = ok versions

module _ {F : Type 0} where
  unfoldable pub migration_files : List (Migration F) → List (Migration F)
  migration_files found = sort_with by_name found

  -- A statement on the other tables.
  abbrev pub on_tables : {A : Type 0} → Action F A → Effect (Ledger F) A
  on_tables action l =
      let (r, s) = action l.session in (r, record { session = s; versions = l.versions })

  abbrev pub reach : Action F Unit
  reach = execute (λ db. ok (tt, db))

  abbrev pub create_table : Effect (Ledger F) Unit
  create_table l = (ok tt, record { session = l.session; versions = created l.versions })

  abbrev pub read_versions : Effect (Ledger F) (List String)
  read_versions l = (rows_of l.versions, l)

  -- INSERT INTO schema_migrations, of which the version is the primary key.
  abbrev pub with_version : String → Option (List String) → Ledger F → Outcome (Unit {0}) × Ledger F
  with_version version none l = (raised database_error, l)
  with_version version (some versions) l =
      if is_among version versions
      then (raised database_error, l)
      else (ok tt, record { session = l.session; versions = some (versions ++ version ∷ []) })

  abbrev pub insert_version : String → Effect (Ledger F) Unit
  insert_version version l = with_version version l.versions l

  -- One pass of the loop whose version is not `done`.
  unfoldable pub apply_migration : Migration F → Effect (Ledger F) Unit
  apply_migration m = do on_tables (execute m.script); on_tables reach; insert_version m.name

  -- The `for` loop over the files.
  unfoldable pub apply_pending :
      List String → List (Migration F) → List String → Effect (Ledger F) (List String)
  unfolding apply_migration
  apply_pending done [] applied = pure applied
  apply_pending done (m ∷ files) applied =
      if is_among m.name done
      then apply_pending done files applied
      else (apply_migration m >> apply_pending done files (applied ++ m.name ∷ []))

  -- `with conn.transaction()`: an exception takes back what was done to all tables.
  abbrev pub rolled_back : {A : Type 0} → Ledger F → Outcome A × Ledger F → Outcome A × Ledger F
  rolled_back before (ok a, l) = (ok a, l)
  rolled_back before (raised e, l) = (
    raised e,
    record { session = record (l.session) { db = before.session.db }; versions = before.versions },
  )

  unfoldable pub migrate_all : List (Migration F) → Effect (Ledger F) (List String)
  unfolding apply_pending
  migrate_all files = do
    on_tables reach
    create_table
    on_tables reach
    done ← read_versions
    apply_pending done files []

  unfoldable pub run_migrations : List (Migration F) → Effect (Ledger F) (List String)
  unfolding migrate_all seed_zones migration_files
  run_migrations found = do
    applied ← (λ l. rolled_back l (migrate_all (migration_files found) l))
    on_tables seed_zones
    pure applied
