-- ===== src/Migrate/Applied.antt =====
-- What a run of the migrations comes to.
use fleet_telemetry_system.Prelude.{
  ℕ, ◌≡◌, refl, String, not, Option, none, some, List, [], ◌∷◌, ◌++◌, ok, raised, arith,
}
use fleet_telemetry_system.Prelude.Exceptions.{Outcome}
use fleet_telemetry_system.Prelude.Effects
use fleet_telemetry_system.Prelude.Dict.{lookup}
use fleet_telemetry_system.Prelude.Sorting.{
  IsTotalOrder, Pairwise, select-Pairwise, sort_with-Pairwise, count-sort_with,
}
use fleet_telemetry_system.Text.{codes}
use fleet_telemetry_system.Text.Order.{le_text-IsTotalOrder}
use fleet_telemetry_system.Models.Zones.{zones}
use fleet_telemetry_system.Store.{Db, execute, transaction}
use fleet_telemetry_system.Migrate.{
  Migration, Ledger, is_among, by_name, on_tables, migration_files, apply_pending, migrate_all,
  run_migrations, with_row, seed_zone, seed_all, seed_zones,
}
use fleet_telemetry_system.Migrate.Pending.{
  AreDistinct, is_named, pending, names, run_scripts, calm, committed, loop-committed,
}

abbrev pub recorded : Option (List String) → List String
recorded none = []
recorded (some versions) = versions

module _ {F : Type 0} where
  abbrev pub seeded : List String → Db F → Db F
  seeded [] db = db
  seeded (z ∷ zs) db =
      seeded zs (record db { zone_counts = with_row z (lookup z db.zone_counts) db.zone_counts })

  pub seed_all-seeded :
      (zs : List String) (db : Db F) (local : ℕ → ℕ)
      → seed_all zs (record { db = db; outages = []; local = local })
        ≡ (ok tt, record { db = seeded zs db; outages = []; local = local })
  unfolding seed_all execute seed_zone Effects.◌>>=◌
  seed_all-seeded [] db local = refl
  seed_all-seeded (z ∷ zs) db local = seed_all-seeded zs _ local

  -- What a run comes to on a database on which no statement fails, given what the scripts come to.
  abbrev pub migrated :
      Ledger F → List (Migration F) → Outcome (Db F) → Outcome (List String) × Ledger F
  migrated before files (raised e) = (raised e, before)
  migrated before files (ok db) = (
    ok (names files),
    calm (seeded zones db) before.session.local (some (recorded before.versions ++ names files)),
  )

  after_transaction :
      (before : Ledger F) (files : List (Migration F)) (r : Outcome (Db F))
      → before.session.outages ≡ []
      → Effects.continue
          (committed before (names files) (recorded before.versions ++ names files) r).0
          (λ applied. Effects.◌>>◌ (on_tables seed_zones) (Effects.pure applied))
          (committed before (names files) (recorded before.versions ++ names files) r).1
        ≡ migrated before files r
  unfolding seed_zones transaction Effects.◌>>=◌
  after_transaction before files (raised e) calm = rw calm refl
  after_transaction before files (ok db) calm =
      rw (seed_all-seeded zones db before.session.local) refl

  AreDistinct-migration_files :
      (found : List (Migration F)) → AreDistinct found → AreDistinct (migration_files found)
  unfolding migration_files
  AreDistinct-migration_files found h w =
      omega (arith, h w, count-sort_with by_name (is_named w) found)

  table_made :
      (found : List (Migration F)) (db : Db F) (local : ℕ → ℕ) (versions : Option (List String))
      → migrate_all (migration_files found) (calm db local versions)
        ≡ apply_pending
            (recorded versions)
            (migration_files found)
            []
            (calm db local (some (recorded versions)))
  unfolding migrate_all execute Effects.◌>>=◌
  table_made found db local none = refl
  table_made found db local (some versions) = refl

  -- The migrations that a run has to apply, in their order.
  abbrev pub to_apply : List (Migration F) → Option (List String) → List (Migration F)
  to_apply found versions = pending (recorded versions) (migration_files found)

  by_name-IsTotalOrder : IsTotalOrder (by_name {F = F})
  by_name-IsTotalOrder = record {
    total = λ a b. le_text-IsTotalOrder.total (codes a.name) (codes b.name);
    trans = λ a b c. le_text-IsTotalOrder.trans (codes a.name) (codes b.name) (codes c.name);
  }

  sorted : (found : List (Migration F)) → Pairwise by_name (migration_files found)
  unfolding migration_files
  sorted found = sort_with-Pairwise by_name found by_name-IsTotalOrder

  -- On a database on which no statement fails but perhaps a script, a run applies the files that have
  -- no version yet, in the order of their names, returns their names and records them, and gives a
  -- counter to each zone; or, when a script fails, it raises and leaves everything as it was.
  -- The files have different names.
  pub run_migrations-migrated :
      (found : List (Migration F)) (db : Db F) (local : ℕ → ℕ) (versions : Option (List String))
      → AreDistinct found
      → (run_migrations found (calm db local versions)
          ≡ migrated
              (calm db local versions)
              (to_apply found versions)
              (run_scripts (to_apply found versions) db))
        × Pairwise by_name (to_apply found versions)
  unfolding run_migrations Effects.◌>>=◌
  run_migrations-migrated found db local versions once =
      let before = calm db local versions in
      let done = recorded versions in
      (
        rw
            (
              table_made found db local versions,
              loop-committed done before (migration_files found) [] done db
                  (AreDistinct-migration_files found once) (λ w h. refl),
            )
            (after_transaction before (to_apply found versions)
              (run_scripts (to_apply found versions) db) refl),
        select-Pairwise by_name (λ m. not (is_among m.name done)) (migration_files found)
            (sorted found),
      )
