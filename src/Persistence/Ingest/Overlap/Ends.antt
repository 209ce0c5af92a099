-- ===== src/Persistence/Ingest/Overlap/Ends.antt =====
-- Overlapping calls can all be brought to their ends.
use mathlib.Core.Path.{subst}
use fleet_telemetry_system.Prelude.{
  ℕ, zero, suc, ◌+◌, ◌<◌, ◌≤◌, Option, none, some, List, [], ◌∷◌, map, ◌≡◌, ◌≢◌, ◌⊎◌, inl, inr,
  refl, ap, ◌∙◌, arith, Outcome, ok, raised, length, Bool-cases, Option-cases, lt→ltb, String, eqb,
  eqb_iff,
}
use fleet_telemetry_system.Models.Floats.{Floats}
use fleet_telemetry_system.Store.{Db}
use fleet_telemetry_system.Persistence.Detect.{Finding}
use fleet_telemetry_system.Persistence.Detect.Few.{detect_anomalies-few}
use fleet_telemetry_system.Persistence.Ingest.{increment_zone}
use fleet_telemetry_system.Persistence.Ingest.Overlap.{
  Stage, reads, appends, upserts, counts, finds, Txn, Overlap, Move, proceeds, put, holds_vehicle,
  holds_zone, start, detected, entered, locked, enter, proceed, proceed_at, move, moves,
}
use fleet_telemetry_system.Persistence.Ingest.Overlap.Invariant.{Inv, start-Inv}
use fleet_telemetry_system.Persistence.Ingest.Overlap.Chain.{moves-Inv}
use fleet_telemetry_system.Persistence.Ingest.Overlap.Unblocked.{Moves, running-SomeMoves}

-- At most how many statements a transaction still has to run.
abbrev left_at : ℕ → Stage → ℕ
left_at found reads = 12
left_at found appends = 4 + found
left_at found upserts = 3 + found
left_at found counts = 2 + found
left_at found (finds rest) = 1 + length rest

module _ {F : Type 0} where
  abbrev left : Option (Txn F) → ℕ
  left none = 0
  left (some t) = left_at (length t.findings) t.stage

  abbrev all_left : ℕ → (ℕ → Option (Txn F)) → ℕ
  all_left zero running = 0
  all_left (suc n) running = left (running n) + all_left n running

  all_left-cong :
      (n : ℕ) (f g : ℕ → Option (Txn F)) (i : ℕ)
      → n ≤ i
      → ((j : ℕ) → j ≢ i → f j ≡ g j)
      → all_left n f ≡ all_left n g
  all_left-cong zero f g i le same = refl
  all_left-cong (suc n) f g i le same =
      rw (same n (omega arith), all_left-cong n f g i (omega arith) same) refl

  -- If one transaction has fewer statements left and the others have as many, all have fewer.
  all_left-lt :
      (n : ℕ) (f g : ℕ → Option (Txn F)) (i : ℕ)
      → i < n
      → ((j : ℕ) → j ≢ i → f j ≡ g j)
      → left (f i) < left (g i)
      → all_left n f < all_left n g
  all_left-lt zero f g i lt same less = absurd (omega arith)
  all_left-lt (suc n) f g i lt same less = elim (Bool-cases (eqb i n)) [
    | inl e ↦
        let here : left (f n) < left (g n) =
          subst (λ k. left (f k) < left (g k)) ((eqb_iff i n).0 e) less in
        let rest = all_left-cong n f g i (ground (arith, e)) same in ground (arith, here, rest)
    | inr e ↦
        let there = same n (ground (arith, e)) in
        let rest = all_left-lt n f g i (ground (arith, e)) same less in
        rw there (omega (arith, rest))
  ]

  idle_or_busy :
      (n : ℕ) (f : ℕ → Option (Txn F))
      → ((i : ℕ) → i < n → f i ≡ none) ⊎ ((i : ℕ) × (t : Txn F) × (f i ≡ some t))
  idle_or_busy zero f = inl (λ i lt. absurd (omega arith))
  idle_or_busy (suc n) f = elim (Option-cases (f n)) [
    | inl e ↦ elim (idle_or_busy n f) [
      | inl idle ↦ inl (λ i lt. elim (Bool-cases (eqb i n)) [
        | inl same ↦ ap f ((eqb_iff i n).0 same) ∙ e
        | inr ne ↦ idle i (ground (arith, ne))
      ])
      | inr busy ↦ inr busy
    ]
    | inr (t, e) ↦ inr (n, t, e)
  ]

module _ {F : Type 0} (fl : Floats F) (local : ℕ → ℕ) (slots : ℕ) where
  -- After a statement of a connection, its transaction is as before or has fewer left, and the others
  -- are as before.
  abbrev Falls : Overlap F → ℕ → Option (Txn F) → Overlap F → Type 0
  Falls s i o after =
      ((after.running i ≡ o) ⊎ (left (after.running i) < left o))
      × ((j : ℕ) → j ≢ i → after.running j ≡ s.running j)

  module _ (s : Overlap F) (i : ℕ) where
    put-Falls :
        (o : Option (Txn F)) (t : Txn F) → left o < left (some t) → Falls s i (some t) (put i o s)
    put-Falls o t less = (inr (ground (arith, less)), λ j ne. ground (arith, ne))

  module _ (s : Overlap F) (i : ℕ) (t : Txn F) (here : s.running i ≡ some t) where
    waits-Falls : Falls s i (some t) s
    waits-Falls = (inl here, λ j ne. refl)

    detected-Falls :
        (r : Outcome (List Finding))
        → ((fs : List Finding) → r ≡ ok fs → length fs ≤ 7)
        → t.stage ≡ reads
        → Falls s i (some t) (detected fl local slots i t r s)
    detected-Falls (raised e) few h = put-Falls s i none t (ground (arith, h))
    detected-Falls (ok fs) few h = put-Falls s i _ t (ground (arith, h, few fs refl))

    entered-Falls :
        (z : String) (r : Outcome (Unit {0} × Db F))
        → t.stage ≡ counts
        → Falls s i (some t) (entered fl local slots i t z r s)
    entered-Falls z (raised e) h = put-Falls s i none t (ground (arith, h))
    entered-Falls z (ok (_, b)) h = put-Falls s i _ t (ground (arith, h))

    enter-Falls :
        (zone : Option String)
        → t.stage ≡ counts
        → Falls s i (some t) (enter fl local slots i t zone s)
    enter-Falls none h = put-Falls s i _ t (ground (arith, h))
    enter-Falls (some z) h = elim (Bool-cases (locked fl local slots i (holds_zone z) s)) [
      | inl waits ↦ rw waits waits-Falls
      | inr free ↦ rw free (entered-Falls z (increment_zone z s.db) h)
    ]

    proceed-Falls :
        (stage : Stage) → t.stage ≡ stage → Falls s i (some t) (proceed fl local slots i t stage s)
    unfolding proceed
    proceed-Falls reads h = detected-Falls _ (detect_anomalies-few fl t.event _) h
    proceed-Falls appends h = put-Falls s i _ t (ground (arith, h))
    proceed-Falls upserts h =
        elim (Bool-cases (locked fl local slots i (holds_vehicle t.event.vehicle_id) s)) [
          | inl waits ↦ rw waits waits-Falls
          | inr free ↦ rw free (put-Falls s i _ t (ground (arith, h)))
        ]
    proceed-Falls counts h = enter-Falls t.event.zone_entered h
    proceed-Falls (finds []) h = put-Falls s i none t (ground (arith, h))
    proceed-Falls (finds (f ∷ fs)) h = put-Falls s i _ t (ground (arith, h))

  proceed_at-Falls :
      (s : Overlap F) (i : ℕ) (o : Option (Txn F))
      → s.running i ≡ o
      → Falls s i o (proceed_at fl local slots i o s)
  proceed_at-Falls s i none here = (inl here, λ j ne. refl)
  proceed_at-Falls s i (some t) here = proceed-Falls s i t here t.stage refl

  move-Falls :
      (s : Overlap F) (i : ℕ)
      → i < slots
      → Falls s i (s.running i) (move fl local slots (proceeds i) s)
  unfolding move
  move-Falls s i lt = rw (lt→ltb i slots lt) (proceed_at-Falls s i (s.running i) refl)

  -- A statement that does not wait leaves fewer.
  move-lt :
      (s : Overlap F) (i : ℕ)
      → i < slots
      → Moves fl local slots i s
      → all_left slots (move fl local slots (proceeds i) s).running < all_left slots s.running
  move-lt s i lt moved =
      let (falls, others) = move-Falls s i lt in
      elim falls [
        | inl same ↦ absurd (moved same)
        | inr less ↦ all_left-lt slots _ s.running i lt others less
      ]

module _ {F : Type 0} (fl : Floats F) (local : ℕ → ℕ) (db : Db F) (slots : ℕ) where
  -- The connections run their next statements, in this order.
  abbrev pub run_on : List ℕ → Overlap F → Overlap F
  run_on order s = moves fl local slots (map proceeds order) s

  idle :
      (s : Overlap F)
      → Inv fl local db slots s
      → ((i : ℕ) → i < slots → s.running i ≡ none)
      → (i : ℕ) → s.running i ≡ none
  idle s inv below i = elim (Option-cases (s.running i)) [
    | inl e ↦ e
    | inr (t, e) ↦ below i (inv.within i t e)
  ]

  abbrev pub Ends : Overlap F → Type 0
  Ends s = (order : List ℕ) × ((i : ℕ) → (run_on order s).running i ≡ none)

  next-Ends : (s : Overlap F) (i : ℕ) → Ends (move fl local slots (proceeds i) s) → Ends s
  unfolding moves
  next-Ends s i (order, ended) = (i ∷ order, ended)

  ends : (n : ℕ) (s : Overlap F) → Inv fl local db slots s → all_left slots s.running < n → Ends s
  unfolding moves
  ends zero s inv few = absurd (omega (arith, few))
  ends (suc n) s inv few = elim (idle_or_busy slots s.running) [
    | inl below ↦ ([], idle s inv below)
    | inr (i, t, here) ↦
        let (j, lt, moved) = running-SomeMoves fl local db slots s inv i t t.stage here refl in
        next-Ends s j (
          ends n (move fl local slots (proceeds j) s)
            (moves-Inv fl local db slots (proceeds j ∷ []) s inv)
            (omega (arith, few, move-lt fl local slots s j lt moved)))
  ]

  -- However overlapping calls have run, they can all be brought to their ends from there: there is an
  -- order in which the connections run their next statements, none of them failing at the database, such
  -- that afterwards every connection is free again.
  pub moves-ends :
      (ms : List (Move F))
      → (order : List ℕ) × ((i : ℕ)
          → (moves fl local slots (map proceeds order) (moves fl local slots ms (start db))).running
              i
            ≡ none)
  moves-ends ms =
      ends (suc (all_left slots (moves fl local slots ms (start db)).running))
        (moves fl local slots ms (start db))
        (moves-Inv fl local db slots ms (start db) (start-Inv fl local db slots)) (omega arith)
