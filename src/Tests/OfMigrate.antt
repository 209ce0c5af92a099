-- ===== src/Tests/OfMigrate.antt =====
-- app/migrate.py on two migrations.
use fleet_telemetry_system.Prelude.{
  ◌==◌, false, ℕ, none, some, List, [], ◌∷◌, ◌≡◌, refl, ok, arith, eq_iff, map,
}
use fleet_telemetry_system.Prelude.Effects.{◌>>=◌}
use fleet_telemetry_system.Prelude.Sorting.{Pairwise}
use fleet_telemetry_system.Models.Zones.{zones}
use fleet_telemetry_system.Store.{execute, transaction}
use fleet_telemetry_system.Prelude.Dict.{lookup, upsert}
use fleet_telemetry_system.Tests.Samples.{garage_tables}
use fleet_telemetry_system.Prelude.Int.{ℤ}
use fleet_telemetry_system.Migrate.{
  Migration, Ledger, by_name, run_migrations, migrate_all, migration_files, apply_pending,
  apply_migration, seed_zones, seed_all, seed_zone,
}
use fleet_telemetry_system.Migrate.Pending.{AreDistinct, run_scripts, calm}
use fleet_telemetry_system.Migrate.Applied.{migrated, to_apply, seeded, run_migrations-migrated}
use fleet_telemetry_system.Migrate.Rerun.{run_migrations-rerun}

-- One adds a vehicle, the other renames nothing; they are found out of order.
abbrev second_file : Migration ℤ
second_file = record {
  name = "0002_second.sql";
  script = λ db. ok (tt, record db { missions = [] });
}

abbrev first_file : Migration ℤ
first_file = record { name = "0001_first.sql"; script = λ db. ok (tt, db) }

abbrev directory : List (Migration ℤ)
directory = second_file ∷ first_file ∷ []

directory-AreDistinct : AreDistinct directory
directory-AreDistinct w =
    let other : "0001_first.sql" == "0002_second.sql" ≡ false = refl in
    ground (
      arith,
      eq_iff "0001_first.sql" w,
      eq_iff "0002_second.sql" w,
      eq_iff "0001_first.sql" "0002_second.sql",
      other,
    )

abbrev local : ℕ → ℕ
local t = t

run_migrations-migrated_example :
    (run_migrations directory (calm garage_tables local none)
      ≡ migrated
          (calm garage_tables local none)
          (to_apply directory none)
          (run_scripts (to_apply directory none) garage_tables))
    × Pairwise by_name (to_apply directory none)
run_migrations-migrated_example =
    run_migrations-migrated directory garage_tables local none directory-AreDistinct

in_order : map (λ m. m.name) (to_apply directory none) ≡ "0001_first.sql" ∷ "0002_second.sql" ∷ []
unfolding migration_files
in_order = refl

-- The first of the files is applied.
abbrev ledger : Ledger ℤ
ledger = calm garage_tables local (some ("0001_first.sql" ∷ []))

abbrev after_run : Ledger ℤ
after_run =
    calm (seeded zones (record garage_tables { missions = [] })) local
      (some ("0001_first.sql" ∷ "0002_second.sql" ∷ []))

run_migrations-rerun_example : run_migrations directory after_run ≡ (ok [], after_run)
unfolding run_migrations migrate_all migration_files apply_pending apply_migration seed_zones
    seed_all seed_zone execute transaction ◌>>=◌ lookup upsert
run_migrations-rerun_example =
    run_migrations-rerun directory garage_tables local (some ("0001_first.sql" ∷ []))
      ("0002_second.sql" ∷ []) after_run directory-AreDistinct refl
