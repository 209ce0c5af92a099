-- ===== src/Persistence/Ingest/Overlap/InTurn.antt =====
-- Overlapping calls of which no two are for one vehicle.
use mathlib.Core.Path.{subst}
use fleet_telemetry_system.Prelude.{
  ℕ, String, Bool, false, Option, none, some, List, [], ◌∷◌, ◌≡◌, ◌≢◌, inl, inr, refl, sym, ap, ◌∙◌,
  arith, eqb, eqb_iff, eq_iff, ◌==◌, Outcome, ok, raised, Bool-cases, ltb,
}
use fleet_telemetry_system.Prelude.Dict.{lookup, lookup-upsert}
use fleet_telemetry_system.Models.{TelemetryEvent}
use fleet_telemetry_system.Models.Floats.{Floats}
use fleet_telemetry_system.Store.{Db}
use fleet_telemetry_system.Persistence.Detect.{Finding, detect_anomalies}
use fleet_telemetry_system.Persistence.Ingest.{increment_zone, reading_of}
use fleet_telemetry_system.Persistence.Ingest.Atomic.{Committed}
use fleet_telemetry_system.Persistence.Ingest.Overlap.{
  Stage, reads, appends, upserts, counts, finds, Txn, Commit, Overlap, Move, begins, proceeds,
  breaks, update, some_below, holds_vehicle, holds_zone, begun, start, put, at, committed, commit,
  detected, entered, locked, enter, proceed, proceed_at, on, act, move, moves,
}
use fleet_telemetry_system.Persistence.Ingest.Overlap.History.{latest, IsChain}
use fleet_telemetry_system.Persistence.Ingest.Overlap.Invariant.{Inv, start-Inv, some_below-none}
use fleet_telemetry_system.Persistence.Ingest.Overlap.Chain.{moves-Inv, moves-IsChain}

module _ {F : Type 0} (fl : Floats F) (local : ℕ → ℕ) (db : Db F) (slots : ℕ) where
  -- What a transaction has found is against the reading that is committed now.
  abbrev Known : Stage → Txn F → Db F → Type 0
  Known reads t b = Unit
  Known _ t b =
      detect_anomalies fl t.event (lookup t.event.vehicle_id b.vehicle_current_state)
      ≡ ok t.findings

  abbrev Fresh : List (Commit F) → Type 0
  Fresh [] = Unit
  Fresh (c ∷ cs) =
      (detect_anomalies fl c.event (lookup c.event.vehicle_id (latest db cs).vehicle_current_state)
        ≡ ok c.findings)
      × Fresh cs

  record Own (s : Overlap F) : Type 0 where
    fresh : Fresh s.commits
    known : (i : ℕ) (t : Txn F) → s.running i ≡ some t → Known t.stage t s.db
    distinct :
        (i j : ℕ) (t u : Txn F)
        → s.running i ≡ some t
        → s.running j ≡ some u
        → t.event.vehicle_id ≡ u.event.vehicle_id
        → i ≡ j

  -- A transaction for the vehicle is under way.
  abbrev pub is_for : String → Option (Txn F) → Bool
  is_for v none = false
  is_for v (some u) = u.event.vehicle_id == v

  -- None is when a call for the vehicle begins.
  abbrev pub IsClear : Move F → Overlap F → Type 0
  IsClear (begins i e) s = some_below slots (λ j. is_for e.vehicle_id (s.running j)) ≡ false
  IsClear _ s = Unit

  none_for :
      (s : Overlap F) (v : String) (j : ℕ) (u : Txn F)
      → Inv fl local db slots s
      → some_below slots (λ j. is_for v (s.running j)) ≡ false
      → s.running j ≡ some u
      → v ≢ u.event.vehicle_id
  none_for s v j u inv clear h e =
      let free = some_below-none slots (λ j. is_for v (s.running j)) j clear (inv.within j u h) in
      let this : (u.event.vehicle_id == v) ≡ false = ap (is_for v) (sym h) ∙ free in
      ground (arith, this, eq_iff u.event.vehicle_id v, e)

  -- At each move of a schedule.
  abbrev pub AreClear : List (Move F) → Overlap F → Type 0
  AreClear [] s = Unit
  AreClear (m ∷ ms) s = IsClear m s × AreClear ms (move fl local slots m s)

  Known-same :
      (stage : Stage) (t : Txn F) (b b' : Db F)
      → lookup t.event.vehicle_id b'.vehicle_current_state
        ≡ lookup t.event.vehicle_id b.vehicle_current_state
      → Known stage t b
      → Known stage t b'
  Known-same reads t b b' h k = tt
  Known-same appends t b b' h k = rw h k
  Known-same upserts t b b' h k = rw h k
  Known-same counts t b b' h k = rw h k
  Known-same (finds fs) t b b' h k = rw h k

  module _ (s : Overlap F) (own : Own s) (i : ℕ) where
    put-none-Own : Own (put i none s)
    put-none-Own = record {
      fresh = own.fresh;
      known = λ j t h. own.known j t (ground (arith, h));
      distinct =
          λ j k t u hj hk e. own.distinct j k t u (ground (arith, hj)) (ground (arith, hk)) e;
    }

    -- The transaction that stood where one of the same event stands now.
    earlier :
        (t u : Txn F)
        → s.running i ≡ some t
        → u.event ≡ t.event
        → (j : ℕ) (w : Txn F) → (put i (some u) s).running j ≡ some w
        → (x : Txn F) × (s.running j ≡ some x) × (x.event.vehicle_id ≡ w.event.vehicle_id)
    earlier t u here same j w h = elim (Bool-cases (eqb i j)) [
      | inl e ↦ (t, ground (arith, here, eqb_iff i j, e), ground (arith, h, e, same))
      | inr e ↦ (w, ground (arith, h, e), refl)
    ]

    put-Own :
        (t u : Txn F)
        → s.running i ≡ some t
        → u.event ≡ t.event
        → Known u.stage u s.db
        → Own (put i (some u) s)
    put-Own t u here same k = record {
      fresh = own.fresh;
      known = λ j w h. elim (Bool-cases (eqb i j)) [
        | inl e ↦ subst (λ (x : Txn F). Known x.stage x s.db) (ground (arith, h, e)) k
        | inr e ↦ own.known j w (ground (arith, h, e))
      ];
      distinct = λ j l w x hw hx e.
          let (w₀, hw₀, ew) = earlier t u here same j w hw in
          let (x₀, hx₀, ex) = earlier t u here same l x hx in
          own.distinct j l w₀ x₀ hw₀ hx₀ (ew ∙ e ∙ sym ex);
    }

    begin-Own :
        (e : TelemetryEvent F)
        → s.running i ≡ none
        → ((j : ℕ) (u : Txn F) → s.running j ≡ some u → e.vehicle_id ≢ u.event.vehicle_id)
        → Own (put i (some (begun e)) s)
    begin-Own e free clear = record {
      fresh = own.fresh;
      known = λ j w h. elim (Bool-cases (eqb i j)) [
        | inl q ↦
            let new : begun e ≡ w = ground (arith, h, q) in
            subst (λ (x : Txn F). Known x.stage x s.db) new tt
        | inr q ↦ own.known j w (ground (arith, h, q))
      ];
      distinct = λ j l w x hw hx same. elim (Bool-cases (eqb i j)) [
        | inl p ↦ elim (Bool-cases (eqb i l)) [
          | inl q ↦ ground (arith, eqb_iff i j, eqb_iff i l, p, q)
          | inr q ↦ absurd (clear l x (ground (arith, hx, q)) (ground (arith, hw, p, same)))
        ]
        | inr p ↦ elim (Bool-cases (eqb i l)) [
          | inl q ↦ absurd (clear j w (ground (arith, hw, p)) (ground (arith, hx, q, same)))
          | inr q ↦ own.distinct j l w x (ground (arith, hw, p)) (ground (arith, hx, q)) same
        ]
      ];
    }

    commit-Own :
        (t : Txn F)
        → s.running i ≡ some t
        → s.db ≡ latest db s.commits
        → Known (finds []) t s.db
        → Own (commit local i t s)
    commit-Own t here now k = record {
      fresh = (rw⁻¹ now k, own.fresh);
      known = λ j w h.
          let there : s.running j ≡ some w = ground (arith, h) in
          Known-same w.stage w s.db (committed local t s.db) (other j w h there)
            (own.known j w there);
      distinct =
          λ j l w x hw hx e. own.distinct j l w x (ground (arith, hw)) (ground (arith, hx)) e;
    }
      where
        other :
            (j : ℕ) (w : Txn F)
            → update s.running i none j ≡ some w
            → s.running j ≡ some w
            → lookup w.event.vehicle_id (committed local t s.db).vehicle_current_state
              ≡ lookup w.event.vehicle_id s.db.vehicle_current_state
        other j w h there = elim (Bool-cases (t.event.vehicle_id == w.event.vehicle_id)) [
          | inl same ↦
              let e : i ≡ j = own.distinct i j t w here there ((eq_iff _ _).0 same) in
              absurd (ground (arith, h, e, eqb_iff i j))
          | inr ne ↦
              lookup-upsert t.event.vehicle_id w.event.vehicle_id
                (reading_of t.event (at local t.event)) s.db.vehicle_current_state
              ∙ rw ne refl
        ]

  module _ (s : Overlap F) (own : Own s) (i : ℕ) (t : Txn F) (here : s.running i ≡ some t) where
    detected-Own :
        (r : Outcome (List Finding))
        → detect_anomalies fl t.event (lookup t.event.vehicle_id s.db.vehicle_current_state) ≡ r
        → Own (detected fl local slots i t r s)
    detected-Own (raised x) h = put-none-Own s own i
    detected-Own (ok fs) h = put-Own s own i t _ here refl h

    entered-Own :
        (z : String) (r : Outcome (Unit {0} × Db F))
        → Known (finds t.findings) t s.db
        → Own (entered fl local slots i t z r s)
    entered-Own z (raised x) k = put-none-Own s own i
    entered-Own z (ok (_, b)) k = put-Own s own i t _ here refl k

    enter-Own :
        (zone : Option String)
        → Known (finds t.findings) t s.db
        → Own (enter fl local slots i t zone s)
    enter-Own none k = put-Own s own i t _ here refl k
    enter-Own (some z) k = elim (Bool-cases (locked fl local slots i (holds_zone z) s)) [
      | inl waits ↦ rw waits own
      | inr free ↦ rw free (entered-Own z (increment_zone z s.db) k)
    ]

    proceed-Own :
        (stage : Stage)
        → s.db ≡ latest db s.commits
        → Known stage t s.db
        → Own (proceed fl local slots i t stage s)
    unfolding proceed
    proceed-Own reads now k = detected-Own _ refl
    proceed-Own appends now k = put-Own s own i t _ here refl k
    proceed-Own upserts now k =
        elim (Bool-cases (locked fl local slots i (holds_vehicle t.event.vehicle_id) s)) [
          | inl waits ↦ rw waits own
          | inr free ↦ rw free (put-Own s own i t _ here refl k)
        ]
    proceed-Own counts now k = enter-Own t.event.zone_entered k
    proceed-Own (finds []) now k = commit-Own s own i t here now k
    proceed-Own (finds (f ∷ fs)) now k = put-Own s own i t _ here refl k

  act-Own :
      (m : Move F) (s : Overlap F) (o : Option (Txn F))
      → s.running (on m) ≡ o
      → Inv fl local db slots s
      → Own s
      → IsClear m s
      → Own (act fl local slots m s)
  act-Own (begins i e) s none here inv own clear =
      rw here (begin-Own s own i e here (λ j u h. none_for s e.vehicle_id j u inv clear h))
  act-Own (begins i e) s (some t) here inv own clear = rw here own
  act-Own (proceeds i) s none here inv own clear = rw here own
  act-Own (proceeds i) s (some t) here inv own clear =
      subst (λ (o : Option (Txn F)). Own (proceed_at fl local slots i o s)) (sym here)
        (proceed-Own s own i t here t.stage inv.now (own.known i t here))
  act-Own (breaks i) s o here inv own clear = put-none-Own s own i

  moves-Own :
      (ms : List (Move F)) (s : Overlap F)
      → Inv fl local db slots s
      → Own s
      → AreClear ms s
      → Own (moves fl local slots ms s)
  unfolding moves move
  moves-Own [] s inv own clear = own
  moves-Own (m ∷ ms) s inv own (c, clear) =
      moves-Own ms (move fl local slots m s) (moves-Inv fl local db slots (m ∷ []) s inv)
        (elim (Bool-cases (ltb (on m) slots)) [
          | inl lt ↦ rw lt (act-Own m s (s.running (on m)) refl inv own c)
          | inr ge ↦ rw ge own
        ])
        clear

  -- Each commit is a call of `persist_telemetry` that finds the tables of the commit before it.
  abbrev pub AreInTurn : List (Commit F) → Type 0
  AreInTurn [] = Unit
  AreInTurn (c ∷ cs) = Committed fl c.event (at local c.event) (latest db cs) c.after × AreInTurn cs

  Fresh-AreInTurn : (cs : List (Commit F)) → Fresh cs → IsChain fl local db cs → AreInTurn cs
  Fresh-AreInTurn [] fresh chain = tt
  Fresh-AreInTurn (c ∷ cs) (found, fresh) (judged, recorded, chain) =
      ((c.findings, found, recorded), Fresh-AreInTurn cs fresh chain)

  -- Calls of `persist_telemetry` that overlap, wait for one another and fail, of which no two for the
  -- same vehicle are under way at once, are as if they had come one after another: what is committed is
  -- reached from the tables at the start by one step for each commit, in the order of the commits, and
  -- each step records its event as a call that nothing overlaps does, with the findings against the
  -- reading that its vehicle has in the tables of the commit before.
  pub moves-AreInTurn :
      (ms : List (Move F))
      → AreClear ms (start db)
      → let s = moves fl local slots ms (start db) in
        (s.db ≡ latest db s.commits) × AreInTurn s.commits
  moves-AreInTurn ms clear =
      let (now, chain) = moves-IsChain fl local db slots ms in
      let own =
        moves-Own ms (start db) (start-Inv fl local db slots)
          (record { fresh = tt; known = λ i t h. cc; distinct = λ i j t u h k e. cc }) clear in
      (now, Fresh-AreInTurn _ own.fresh chain)
