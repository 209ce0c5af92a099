-- ===== src/Migrate/Rerun.antt =====
-- A second run of the migrations.
use mathlib.Core.Path.{subst}
use fleet_telemetry_system.Prelude.{
  ℕ, ◌<◌, ◌≡◌, refl, sym, ap, ◌∙◌, String, true, false, ◌||◌, Option, none, some, List, [], ◌∷◌,
  ◌++◌, append-nil, ok, raised, any-append, ◌==◌, eq_iff, arith, count, Bool-cases, inl, inr,
}
use fleet_telemetry_system.Prelude.Exceptions.{Outcome}
use fleet_telemetry_system.Prelude.Dict.{lookup}
use fleet_telemetry_system.Models.Zones.{zones}
use fleet_telemetry_system.Store.{Db, Session}
use fleet_telemetry_system.Migrate.{Migration, Ledger, is_among, migration_files, run_migrations}
use fleet_telemetry_system.Migrate.Seeded.{or_zero, seed_all-Ensures, IsSeeded}
use fleet_telemetry_system.Migrate.Pending.{
  AreDistinct, is_named, pending, names, run_scripts, calm,
}
use fleet_telemetry_system.Migrate.Applied.{
  recorded, seeded, seed_all-seeded, migrated, to_apply, run_migrations-migrated,
}

seeded_value : (o : Option ℕ) → (n : ℕ) × (or_zero true o ≡ some n)
seeded_value none = (0, refl)
seeded_value (some n) = (n, refl)

module _ {F : Type 0} where
  abbrev HasRows : List String → Db F → Type 0
  HasRows zs db = (z : String) → is_among z zs ≡ true → (n : ℕ) × (lookup z db.zone_counts ≡ some n)

  seeded-same : (zs : List String) (db : Db F) → HasRows zs db → seeded zs db ≡ db
  seeded-same [] db h = refl
  seeded-same (z ∷ zs) db h =
      let (n, found) = h z (ground (arith, eq_iff z z)) in
      rw found (seeded-same zs db (λ y k. h y (ground (arith, k))))

  seeded-HasRows : (zs : List String) (db : Db F) (local : ℕ → ℕ) → HasRows zs (seeded zs db)
  seeded-HasRows zs db local z k =
      let calm_session : Session F = record { db = db; outages = []; local = local } in
      let after = seed_all-seeded zs db local in
      let rows : IsSeeded zs db (seeded zs db) =
        subst (λ r. IsSeeded zs db r.1.db) after
          ((seed_all-Ensures zs).at calm_session tt (ap (λ r. r.0) after)) in
      let (n, h) = seeded_value (lookup z db.zone_counts) in
      (n, rows.counters z ∙ ap (λ b. or_zero b (lookup z db.zone_counts)) k ∙ h)

  is_among-pending :
      (done : List String) (files : List (Migration F)) (w : String)
      → 0 < count (is_named w) files
      → is_among w done ≡ false
      → is_among w (names (pending done files)) ≡ true
  is_among-pending done [] w h k = absurd (omega arith)
  is_among-pending done (m ∷ files) w h k =
      ground (arith, eq_iff m.name w, is_among-pending done files w)

  pending-none :
      (versions : List String) (files : List (Migration F))
      → ((w : String) → 0 < count (is_named w) files → is_among w versions ≡ true)
      → pending versions files ≡ []
  pending-none versions [] h = refl
  pending-none versions (m ∷ files) h =
      rw (h m.name (ground (arith, eq_iff m.name m.name)))
        (pending-none versions files (λ w k. h w (ground (arith, k))))

  nothing_left :
      (done : List String) (files : List (Migration F))
      → pending (done ++ names (pending done files)) files ≡ []
  nothing_left done files = pending-none _ files (λ w h.
      any-append (λ y. y == w) done (names (pending done files))
      ∙ elim (Bool-cases (is_among w done)) [
        | inl old ↦ ap (λ b. b || is_among w (names (pending done files))) old
        | inr new ↦ rw (new, is_among-pending done files w h new) refl
      ])

  -- A second run, right after one that returned, applies nothing and changes nothing: the versions, the
  -- counters and the other tables stay. The files are the same, no two have one name, and no
  -- statement but a script fails.
  pub run_migrations-rerun :
      (found : List (Migration F)) (db : Db F) (local : ℕ → ℕ) (versions : Option (List String))
      (applied : List String) (after : Ledger F)
      → AreDistinct found
      → run_migrations found (calm db local versions) ≡ (ok applied, after)
      → run_migrations found after ≡ (ok [], after)
  run_migrations-rerun found db local versions applied after once first =
      go (run_scripts files db)
        (sym (run_migrations-migrated found db local versions once).0 ∙ first)
    where
      files : List (Migration F)
      files = to_apply found versions

      again :
          (db' : Db F)
          → run_migrations found
              (calm (seeded zones db') local (some (recorded versions ++ names files)))
            ≡ (ok [], calm (seeded zones db') local (some (recorded versions ++ names files)))
      again db' =
          (run_migrations-migrated found (seeded zones db') local
            (some (recorded versions ++ names files)) once).0
          ∙ rw
              (
                nothing_left (recorded versions) (migration_files found),
                append-nil (recorded versions ++ names files),
                seeded-same zones (seeded zones db') (seeded-HasRows zones db' local),
              )
              refl

      go :
          (r : Outcome (Db F))
          → migrated (calm db local versions) files r ≡ (ok applied, after)
          → run_migrations found after ≡ (ok [], after)
      go (raised e) h = cc
      go (ok db') h = subst (λ l. run_migrations found l ≡ (ok [], l)) (ap (λ r. r.1) h) (again db')
