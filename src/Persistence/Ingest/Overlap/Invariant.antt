-- ===== src/Persistence/Ingest/Overlap/Invariant.antt =====
-- What every move of overlapping calls keeps.
use mathlib.Core.Path.{subst}
use fleet_telemetry_system.Prelude.{
  ℕ, zero, suc, ◌<◌, String, Bool, true, false, Option, none, some, List, [], ◌++◌, map, ◌≡◌, ◌≢◌,
  inl, inr, refl, sym, ap, ◌∙◌, arith, eqb, eqb_iff, eq_iff, append-nil, Outcome, ok, raised,
  Bool-cases, Option-cases, ◌&&◌,
}
use fleet_telemetry_system.Prelude.Dict.{lookup}
use fleet_telemetry_system.Models.{TelemetryEvent}
use fleet_telemetry_system.Models.Floats.{Floats}
use fleet_telemetry_system.Store.{Db}
use fleet_telemetry_system.Persistence.Detect.{Finding, detect_anomalies}
use fleet_telemetry_system.Persistence.Ingest.{increment_zone, anomaly_of}
use fleet_telemetry_system.Persistence.Ingest.Atomic.{enters, IsRecorded}
use fleet_telemetry_system.Persistence.Ingest.Overlap.{
  reads, appends, counts, finds, Txn, Overlap, some_below, other_than, update, has, holds_zone,
  begun, start, put, at, committed, commit, detected, entered, locked, enter, begin_at,
}
use fleet_telemetry_system.Persistence.Ingest.Overlap.History.{
  latest, WasCommitted, WasCommitted-latest, IsChain, Version, Fits, Fits-committed,
  Version-add_zone, committed-IsRecorded, advance-next,
}

pub some_below-none : (n : ℕ) (p : ℕ → Bool) (i : ℕ) → some_below n p ≡ false → i < n → p i ≡ false
some_below-none zero p i h lt = absurd (omega arith)
some_below-none (suc n) p i h lt = elim (Bool-cases (eqb i n)) [
  | inl e ↦ rw ((eqb_iff i n).0 e) (ground (arith, h))
  | inr e ↦ some_below-none n p i (ground (arith, h)) (ground (arith, e))
]

module _ {F : Type 0} (fl : Floats F) (local : ℕ → ℕ) (db : Db F) (slots : ℕ) where
  pub record Inv (s : Overlap F) : Type 0 where
    pub now : s.db ≡ latest db s.commits
    pub chain : IsChain fl local db s.commits
    pub within : (i : ℕ) (t : Txn F) → s.running i ≡ some t → i < slots
    pub fits :
        (i : ℕ) (t : Txn F) → s.running i ≡ some t → Fits fl local db t.stage t s.commits s.db
    pub apart :
        (i j : ℕ) (z : String)
        → holds_zone z (s.running i) ≡ true
        → holds_zone z (s.running j) ≡ true
        → i ≡ j

  pub start-Inv : Inv (start db)
  start-Inv = record {
    now = refl;
    chain = tt;
    within = λ i t h. cc;
    fits = λ i t h. cc;
    apart = λ i j z h k. cc;
  }

  module _ (s : Overlap F) (inv : Inv s) (i : ℕ) where
    pub put-none-Inv : Inv (put i none s)
    put-none-Inv = record {
      now = inv.now;
      chain = inv.chain;
      within = λ j t h. ground (arith, inv.within j t);
      fits = λ j t h. inv.fits j t (ground (arith, h));
      apart = λ j k z hj hk. ground (arith, inv.apart j k z);
    }

    pub put-Inv :
        (t : Txn F)
        → i < slots
        → Fits fl local db t.stage t s.commits s.db
        → ((j : ℕ) (z : String)
            → i ≢ j
            → holds_zone z (some t) ≡ true
            → holds_zone z (s.running j) ≡ false)
        → Inv (put i (some t) s)
    put-Inv t lt f clear = record {
      now = inv.now;
      chain = inv.chain;
      within = λ j u h. ground (arith, inv.within j u);
      fits = λ j u h. elim (Bool-cases (eqb i j)) [
        | inl e ↦
            subst (λ (w : Txn F). Fits fl local db w.stage w s.commits s.db) (ground (arith, h, e))
              f
        | inr e ↦ inv.fits j u (ground (arith, h, e))
      ];
      apart = λ j k z hj hk. ground (arith, inv.apart j k z, clear j z, clear k z);
    }

    pub commit-Inv :
        (t : Txn F)
        → s.running i ≡ some t
        → Fits fl local db (finds []) t s.commits s.db
        → Inv (commit local i t s)
    commit-Inv t here (judged, v, e) = record {
      now = refl;
      chain = (
        judged,
        subst (λ b. IsRecorded t.event (at local t.event) t.findings b (committed local t s.db))
            inv.now (committed-IsRecorded fl local db t s.db v (sym (append-nil _) ∙ e)),
        inv.chain,
      );
      within = λ j u h. ground (arith, inv.within j u);
      fits = λ j u h.
          let there : s.running j ≡ some u = ground (arith, h) in
          Fits-committed fl local db u.stage u _ s.commits s.db
            (λ w.
              Version-add_zone fl local db u.event.zone_entered t.event.zone_entered u.counter
                t.counter s.db w v (λ z hu ht eu. clear_of j u z h hu ht eu))
            (inv.fits j u there);
      apart = λ j k z hj hk. ground (arith, inv.apart j k z);
    }
      where
        clear_of :
            (j : ℕ) (u : Txn F) (z : String)
            → update s.running i none j ≡ some u
            → has u.counter ≡ true
            → has t.counter ≡ true
            → enters u.event.zone_entered z ≡ true
            → enters t.event.zone_entered z ≡ false
        clear_of j u z h hu ht eu = ground (arith, here, inv.apart i j z)

    pub same-clear :
        (t u : Txn F)
        → s.running i ≡ some t
        → u.counter ≡ t.counter
        → u.event ≡ t.event
        → (j : ℕ) (z : String) → i ≢ j
        → holds_zone z (some u) ≡ true
        → holds_zone z (s.running j) ≡ false
    same-clear t u h c e j z ne holds = elim (Bool-cases (holds_zone z (s.running j))) [
      | inr free ↦ free
      | inl held ↦ absurd (ne (inv.apart i j z (rw (h, ← c, ← e) holds) held))
    ]

    pub begin_at-Inv :
        (e : TelemetryEvent F) (o : Option (Txn F))
        → i < slots
        → Inv (begin_at fl local slots i e o s)
    begin_at-Inv e none lt = put-Inv (begun e) lt (refl, refl) (λ j z ne holds. cc)
    begin_at-Inv e (some t) lt = inv

    pub detected-Inv :
        (t : Txn F) (r : Outcome (List Finding))
        → s.running i ≡ some t
        → i < slots
        → detect_anomalies fl t.event (lookup t.event.vehicle_id s.db.vehicle_current_state) ≡ r
        → Fits fl local db reads t s.commits s.db
        → Inv (detected fl local slots i t r s)
    detected-Inv t (raised x) here lt d f = put-none-Inv
    detected-Inv t (ok fs) here lt d (c, e) =
        let u : Txn F = record t { findings = fs; stage = appends } in
        put-Inv u lt
          (
            (
              s.db,
              subst (WasCommitted db s.commits) (sym inv.now) (WasCommitted-latest db s.commits),
              d,
            ),
            c,
            e,
          )
          (same-clear t u here refl refl)

    clear_of_unlocked :
        (z : String)
        → locked fl local slots i (holds_zone z) s ≡ false
        → (j : ℕ) → i ≢ j
        → holds_zone z (s.running j) ≡ false
    clear_of_unlocked z h j ne = elim (Option-cases (s.running j)) [
      | inl e ↦ rw e refl
      | inr (u, e) ↦
          let free =
            some_below-none slots (λ j. other_than i j && holds_zone z (s.running j)) j h
              (inv.within j u e) in
          ground (arith, free, eqb_iff i j)
    ]

    entered-Inv :
        (t : Txn F) (z : String) (r : Outcome (Unit {0} × Db F))
        → s.running i ≡ some t
        → i < slots
        → t.event.zone_entered ≡ some z
        → increment_zone z s.db ≡ r
        → locked fl local slots i (holds_zone z) s ≡ false
        → Fits fl local db counts t s.commits s.db
        → Inv (entered fl local slots i t z r s)
    unfolding increment_zone
    entered-Inv t z (raised x) here lt ez d free f = put-none-Inv
    entered-Inv t z (ok (_, b)) here lt ez d free (judged, c, e) =
        let row : Option ℕ = lookup z b.zone_counts in
        let u : Txn F = record t { counter = row; stage = finds t.findings } in
        put-Inv u lt
          (
            judged,
            subst (λ zone. Version fl local db zone row s.db.zone_counts) (sym ez)
                (advance-next fl local db z (lookup z s.db.zone_counts) s.db b refl d),
            ap (λ l. l ++ map (anomaly_of t.event.vehicle_id (at local t.event)) t.findings) e,
          )
          (λ j y ne holds.
            let same : z ≡ y = (eq_iff z y).0 (ground (arith, holds, ez)) in
            rw (← same) (clear_of_unlocked z free j ne))

    pub enter-Inv :
        (t : Txn F) (zone : Option String)
        → s.running i ≡ some t
        → i < slots
        → t.event.zone_entered ≡ zone
        → Fits fl local db counts t s.commits s.db
        → Inv (enter fl local slots i t zone s)
    enter-Inv t none here lt ez (judged, c, e) =
        let u : Txn F = record t { stage = finds t.findings } in
        put-Inv u lt
          (
            judged,
            subst (λ zone. Version fl local db zone t.counter s.db.zone_counts) (sym ez) c,
            ap (λ l. l ++ map (anomaly_of t.event.vehicle_id (at local t.event)) t.findings) e,
          )
          (same-clear t u here refl refl)
    enter-Inv t (some z) here lt ez f =
        elim (Bool-cases (locked fl local slots i (holds_zone z) s)) [
          | inl waits ↦ rw waits inv
          | inr free ↦ rw free (entered-Inv t z (increment_zone z s.db) here lt ez refl free f)
        ]
