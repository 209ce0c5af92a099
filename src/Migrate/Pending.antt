-- ===== src/Migrate/Pending.antt =====
-- The loop of a run: which files it applies.
use fleet_telemetry_system.Prelude.{
  ℕ, ◌≤◌, ◌<◌, ◌≡◌, refl, sym, ◌∙◌, String, Bool, false, not, Option, some, List, [], ◌∷◌, ◌++◌,
  map, append_assoc, append-nil, ok, raised, any-append, ◌==◌, eq_iff, arith, select, count,
  Bool-cases, inl, inr,
}
use fleet_telemetry_system.Prelude.Exceptions.{Outcome, ◌>>=◌}
use fleet_telemetry_system.Prelude.Effects
use fleet_telemetry_system.Store.{Db, execute}
use fleet_telemetry_system.Migrate.{
  Migration, Ledger, is_among, apply_migration, apply_pending, rolled_back,
}

module _ {F : Type 0} where
  abbrev pub is_named : String → Migration F → Bool
  is_named w m = m.name == w

  -- As in a directory: no two files have one name.
  abbrev pub AreDistinct : List (Migration F) → Type 0
  AreDistinct files = (w : String) → count (is_named w) files ≤ 1

  abbrev pub pending : List String → List (Migration F) → List (Migration F)
  pending done files = select (λ m. not (is_among m.name done)) files

  abbrev pub names : List (Migration F) → List String
  names files = map (λ m. m.name) files

  abbrev pub run_scripts : List (Migration F) → Db F → Outcome (Db F)
  run_scripts [] db = ok db
  run_scripts (m ∷ files) db = m.script db >>= λ (_, db'). run_scripts files db'

  -- A session on which no statement fails.
  abbrev pub calm : Db F → (ℕ → ℕ) → Option (List String) → Ledger F
  calm db local versions = record {
    session = record { db = db; outages = []; local = local };
    versions = versions;
  }

  -- What the transaction comes to, given what the scripts come to.
  abbrev pub committed :
      Ledger F → List String → List String → Outcome (Db F) → Outcome (List String) × Ledger F
  committed before applied versions (ok db) =
      (ok applied, calm db before.session.local (some versions))
  committed before applied versions (raised e) =
      (raised e, calm before.session.db before.session.local before.versions)

  abbrev Agree : List String → List String → List (Migration F) → Type 0
  Agree versions done files =
      (w : String) → 0 < count (is_named w) files → is_among w versions ≡ is_among w done

  module _ (done : List String) (before : Ledger F) where
    -- What remains of the loop once the script of a pending migration is run.
    abbrev after_script :
        Migration F
        → List (Migration F)
        → List String
        → List String
        → Outcome (Unit {0} × Db F)
        → Outcome (List String) × Ledger F
    after_script m files applied versions (raised e) = committed before applied versions (raised e)
    after_script m files applied versions (ok (_, db)) = rolled_back before (
        apply_pending done files (applied ++ m.name ∷ [])
          (calm db before.session.local (some (versions ++ m.name ∷ []))))

    first_pending :
        (m : Migration F) (files : List (Migration F)) (applied versions : List String) (db : Db F)
        → is_among m.name done ≡ false
        → is_among m.name versions ≡ false
        → rolled_back before
            (apply_pending done (m ∷ files) applied (calm db before.session.local (some versions)))
          ≡ after_script m files applied versions (m.script db)
    unfolding apply_pending apply_migration execute Effects.◌>>=◌
    first_pending m files applied versions db new free = go (m.script db) refl
      where
        go :
            (r : Outcome (Unit {0} × Db F))
            → m.script db ≡ r
            → rolled_back before (
                apply_pending done
                  (m ∷ files)
                  applied
                  (calm db before.session.local (some versions)))
              ≡ after_script m files applied versions r
        go (ok (x, db')) h = rw (new, h, free) refl
        go (raised e) h = rw (new, h) refl

    Agree-tail :
        (m : Migration F) (files : List (Migration F)) (versions : List String)
        → Agree versions done (m ∷ files)
        → Agree versions done files
    Agree-tail m files versions h w k = h w (ground (arith, k))

    AreDistinct-tail :
        (m : Migration F) (files : List (Migration F)) → AreDistinct (m ∷ files) → AreDistinct files
    AreDistinct-tail m files h w = ground (arith, h w)

    Agree-next :
        (m : Migration F) (files : List (Migration F)) (versions : List String)
        → AreDistinct (m ∷ files)
        → Agree versions done (m ∷ files)
        → Agree (versions ++ m.name ∷ []) done files
    Agree-next m files versions once h w k =
        any-append (λ y. y == w) versions (m.name ∷ [])
        ∙ ground (arith, once w, h w, k, eq_iff m.name w)

    committed-append :
        (a b : List String) (a' b' : List String) (r : Outcome (Db F))
        → a ≡ a'
        → b ≡ b'
        → committed before a b r ≡ committed before a' b' r
    committed-append a b a' b' r h k = rw (h, k) refl

    -- What is applied, with the rest of the loop as an hypothesis.
    resumed :
        (m : Migration F) (files : List (Migration F)) (applied versions : List String)
        (r : Outcome (Unit {0} × Db F))
        → ((db : Db F)
            → after_script m files applied versions (ok (tt, db))
              ≡ committed before
                  ((applied ++ m.name ∷ []) ++ names (pending done files))
                  ((versions ++ m.name ∷ []) ++ names (pending done files))
                  (run_scripts (pending done files) db))
        → after_script m files applied versions r
          ≡ committed before
              (applied ++ names (m ∷ pending done files))
              (versions ++ names (m ∷ pending done files))
              (r >>= λ (_, db). run_scripts (pending done files) db)
    resumed m files applied versions (ok (_, db)) h =
        h db
        ∙ committed-append _ _ _ _ (run_scripts (pending done files) db)
            (append_assoc applied (m.name ∷ []) (names (pending done files)))
            (append_assoc versions (m.name ∷ []) (names (pending done files)))
    resumed m files applied versions (raised e) h = refl

    pub loop-committed :
        (files : List (Migration F)) (applied versions : List String) (db : Db F)
        → AreDistinct files
        → Agree versions done files
        → rolled_back before
            (apply_pending done files applied (calm db before.session.local (some versions)))
          ≡ committed before
              (applied ++ names (pending done files))
              (versions ++ names (pending done files))
              (run_scripts (pending done files) db)
    unfolding apply_pending
    loop-committed [] applied versions db once agree =
        committed-append _ _ _ _ (ok db) (sym (append-nil applied)) (sym (append-nil versions))
    loop-committed (m ∷ files) applied versions db once agree =
        elim (Bool-cases (is_among m.name done)) [
          | inl old ↦ rw old (
              loop-committed files applied versions db (AreDistinct-tail m files once)
                (Agree-tail m files versions agree))
          | inr new ↦
              first_pending m files applied versions db new
                (agree m.name (ground (arith, eq_iff m.name m.name)) ∙ new)
              ∙ rw new (
                  resumed m files applied versions (m.script db) (λ db'.
                    loop-committed files (applied ++ m.name ∷ []) (versions ++ m.name ∷ []) db'
                      (AreDistinct-tail m files once) (Agree-next m files versions once agree)))
        ]
