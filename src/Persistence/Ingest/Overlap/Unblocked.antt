-- ===== src/Persistence/Ingest/Overlap/Unblocked.antt =====
-- Calls that wait for one another's rows do not block all of them.
use fleet_telemetry_system.Prelude.{
  ℕ, zero, suc, ◌+◌, ◌<◌, String, Bool, true, false, Option, none, some, List, [], ◌∷◌, ◌≡◌, ◌≢◌,
  inl, inr, refl, sym, ap, ◌∙◌, arith, Outcome, ok, raised, length, Bool-cases, Option-cases,
  lt→ltb, ◌&&◌,
}
use fleet_telemetry_system.Models.Floats.{Floats}
use fleet_telemetry_system.Store.{Db}
use fleet_telemetry_system.Persistence.Detect.{Finding}
use fleet_telemetry_system.Persistence.Ingest.{increment_zone}
use fleet_telemetry_system.Persistence.Ingest.Overlap.{
  Stage, reads, appends, upserts, counts, finds, Txn, Overlap, Move, proceeds, some_below,
  other_than, holds_zone, holds_vehicle, past_upsert, start, detected, entered, locked, enter,
  proceed, proceed_at, move, moves,
}
use fleet_telemetry_system.Persistence.Ingest.Overlap.History.{Fits}
use fleet_telemetry_system.Persistence.Ingest.Overlap.Invariant.{Inv, start-Inv}
use fleet_telemetry_system.Persistence.Ingest.Overlap.Chain.{moves-Inv}

some_below-some : (n : ℕ) (p : ℕ → Bool) → some_below n p ≡ true → (i : ℕ) × (i < n) × (p i ≡ true)
some_below-some zero p h = cc
some_below-some (suc n) p h = elim (Bool-cases (p n)) [
  | inl e ↦ (n, omega arith, e)
  | inr e ↦ let (i, lt, here) = some_below-some n p (ground (arith, h, e)) in (i, omega arith, here)
]

-- Where a transaction stands, as a number.
abbrev rank_of : Stage → ℕ
rank_of reads = 1
rank_of appends = 2
rank_of upserts = 3
rank_of counts = 4
rank_of (finds rest) = 5 + length rest

abbrev rank : {F : Type 0} → Option (Txn F) → ℕ
rank none = 0
rank (some t) = rank_of t.stage

module _ {F : Type 0} (fl : Floats F) (local : ℕ → ℕ) (slots : ℕ) where
  -- The statement that is next on the connection does not wait.
  abbrev pub Moves : ℕ → Overlap F → Type 0
  Moves i s = (move fl local slots (proceeds i) s).running i ≢ s.running i

  abbrev pub SomeMoves : Overlap F → Type 0
  SomeMoves s = (i : ℕ) × (i < slots) × Moves i s

  module _ (s : Overlap F) (i : ℕ) (t : Txn F) (here : s.running i ≡ some t) (lt : i < slots) where
    move-proceed :
        (stage : Stage)
        → t.stage ≡ stage
        → move fl local slots (proceeds i) s ≡ proceed fl local slots i t stage s
    unfolding move
    move-proceed stage e = rw (lt→ltb i slots lt) (
        ap (λ o. proceed_at fl local slots i o s) here ∙ ap (λ g. proceed fl local slots i t g s) e)

    by_rank :
        (stage : Stage)
        → t.stage ≡ stage
        → rank ((proceed fl local slots i t stage s).running i) ≢ rank_of stage
        → Moves i s
    by_rank stage e ne q = ne (
        ap (λ (r : Overlap F). rank (r.running i)) (sym (move-proceed stage e))
        ∙ ap rank q
        ∙ ap rank here
        ∙ ap rank_of e)

    detected-rank :
        (r : Outcome (List Finding)) → rank ((detected fl local slots i t r s).running i) ≢ 1
    detected-rank (ok fs) = ground arith
    detected-rank (raised x) = ground arith

    reads-Moves : t.stage ≡ reads → Moves i s
    unfolding proceed
    reads-Moves e = by_rank reads e (detected-rank _)

    appends-Moves : t.stage ≡ appends → Moves i s
    unfolding proceed
    appends-Moves e = by_rank appends e (ground arith)

    finds-Moves : (rest : List Finding) → t.stage ≡ finds rest → Moves i s
    unfolding proceed
    finds-Moves [] e = by_rank (finds []) e (ground arith)
    finds-Moves (f ∷ fs) e = by_rank (finds (f ∷ fs)) e (ground arith)

    entered-rank :
        (z : String) (r : Outcome (Unit {0} × Db F))
        → rank ((entered fl local slots i t z r s).running i) ≢ 4
    entered-rank z (ok (_, b)) = ground arith
    entered-rank z (raised x) = ground arith

    enter-rank :
        (zone : Option String)
        → ((z : String) → zone ≡ some z → locked fl local slots i (holds_zone z) s ≡ false)
        → rank ((enter fl local slots i t zone s).running i) ≢ 4
    enter-rank none free = ground arith
    enter-rank (some z) free = rw (free z refl) (entered-rank z (increment_zone z s.db))

    counts-Moves :
        t.stage ≡ counts
        → ((z : String)
            → t.event.zone_entered ≡ some z
            → locked fl local slots i (holds_zone z) s ≡ false)
        → Moves i s
    unfolding proceed
    counts-Moves e free = by_rank counts e (enter-rank t.event.zone_entered free)

    upserts-Moves :
        t.stage ≡ upserts
        → locked fl local slots i (holds_vehicle t.event.vehicle_id) s ≡ false
        → Moves i s
    unfolding proceed
    upserts-Moves e free = by_rank upserts e (rw free (ground arith))

  locked-by :
      (i : ℕ) (holds : Option (Txn F) → Bool) (s : Overlap F)
      → holds none ≡ false
      → locked fl local slots i holds s ≡ true
      → (j : ℕ) × (u : Txn F) × (j < slots) × (s.running j ≡ some u) × (holds (some u) ≡ true)
  locked-by i holds s nobody h =
      let (j, lt, both) = some_below-some slots (λ j. other_than i j && holds (s.running j)) h in
      let held : holds (s.running j) ≡ true = ground (arith, both) in
      elim (Option-cases (s.running j)) [
        | inl e ↦ absurd (cc (ap holds e))
        | inr (u, e) ↦ (j, u, lt, e, ap holds (sym e) ∙ held)
      ]

module _ {F : Type 0} (fl : Floats F) (local : ℕ → ℕ) (db : Db F) (slots : ℕ) (s : Overlap F)
    (inv : Inv fl local db slots s) where
  holder-finds :
      (z : String) (u : Txn F) (stage : Stage)
      → Fits fl local db stage u s.commits s.db
      → holds_zone z (some u) ≡ true
      → (rest : List Finding) × (stage ≡ finds rest)
  holder-finds z u reads (c, e) h = ground (arith, c)
  holder-finds z u appends (judged, c, e) h = ground (arith, c)
  holder-finds z u upserts (judged, c, e) h = ground (arith, c)
  holder-finds z u counts (judged, c, e) h = ground (arith, c)
  holder-finds z u (finds rest) f h = (rest, refl)

  zone_holder-Moves :
      (z : String) (j : ℕ) (u : Txn F)
      → s.running j ≡ some u
      → holds_zone z (some u) ≡ true
      → Moves fl local slots j s
  zone_holder-Moves z j u here h =
      let (rest, e) = holder-finds z u u.stage (inv.fits j u here) h in
      finds-Moves fl local slots s j u here (inv.within j u here) rest e

  counts-SomeMoves :
      (i : ℕ) (t : Txn F) (zone : Option String)
      → s.running i ≡ some t
      → t.stage ≡ counts
      → t.event.zone_entered ≡ zone
      → SomeMoves fl local slots s
  counts-SomeMoves i t none here e ez = (
    i,
    inv.within i t here,
    counts-Moves fl local slots s i t here (inv.within i t here) e (λ z h. cc),
  )
  counts-SomeMoves i t (some z) here e ez =
      elim (Bool-cases (locked fl local slots i (holds_zone z) s)) [
        | inl waits ↦
            let (j, u, lt, there, h) = locked-by fl local slots i (holds_zone z) s refl waits in
            (j, lt, zone_holder-Moves z j u there h)
        | inr free ↦ (
          i,
          inv.within i t here,
          counts-Moves fl local slots s i t here (inv.within i t here) e
              (λ y h. ground (arith, ez, h, free)),
        )
      ]

  past-SomeMoves :
      (i : ℕ) (t : Txn F) (stage : Stage)
      → s.running i ≡ some t
      → t.stage ≡ stage
      → past_upsert stage ≡ true
      → SomeMoves fl local slots s
  past-SomeMoves i t counts here e past = counts-SomeMoves i t t.event.zone_entered here e refl
  past-SomeMoves i t (finds rest) here e past =
      (i, inv.within i t here, finds-Moves fl local slots s i t here (inv.within i t here) rest e)
  past-SomeMoves i t reads here e past = cc
  past-SomeMoves i t appends here e past = cc
  past-SomeMoves i t upserts here e past = cc

  pub running-SomeMoves :
      (i : ℕ) (t : Txn F) (stage : Stage)
      → s.running i ≡ some t
      → t.stage ≡ stage
      → SomeMoves fl local slots s
  running-SomeMoves i t reads here e =
      (i, inv.within i t here, reads-Moves fl local slots s i t here (inv.within i t here) e)
  running-SomeMoves i t appends here e =
      (i, inv.within i t here, appends-Moves fl local slots s i t here (inv.within i t here) e)
  running-SomeMoves i t upserts here e =
      elim (Bool-cases (locked fl local slots i (holds_vehicle t.event.vehicle_id) s)) [
        | inl waits ↦
            let (j, u, lt, there, h) =
              locked-by fl local slots i (holds_vehicle t.event.vehicle_id) s refl waits in
            past-SomeMoves j u u.stage there refl (ground (arith, h))
        | inr free ↦ (
          i,
          inv.within i t here,
          upserts-Moves fl local slots s i t here (inv.within i t here) e free,
        )
      ]
  running-SomeMoves i t counts here e = past-SomeMoves i t counts here e refl
  running-SomeMoves i t (finds rest) here e = past-SomeMoves i t (finds rest) here e refl

module _ {F : Type 0} (fl : Floats F) (local : ℕ → ℕ) (db : Db F) (slots : ℕ) where
  -- Overlapping calls never block one another for good: however they have run, if a call is under way
  -- then the next statement of one that is does not wait.
  pub moves-SomeMoves :
      (ms : List (Move F)) (i : ℕ) (t : Txn F)
      → (moves fl local slots ms (start db)).running i ≡ some t
      → SomeMoves fl local slots (moves fl local slots ms (start db))
  moves-SomeMoves ms i t here =
      running-SomeMoves fl local db slots (moves fl local slots ms (start db))
        (moves-Inv fl local db slots ms (start db) (start-Inv fl local db slots)) i t t.stage here
        refl
