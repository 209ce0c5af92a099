-- ===== src/Persistence/Ingest/Overlap/Chain.antt =====
-- What overlapping calls commit, one commit on top of the other.
use fleet_telemetry_system.Prelude.{
  ℕ, ◌<◌, Option, none, some, List, [], ◌∷◌, ◌++◌, ◌≡◌, inl, inr, refl, ◌∙◌, append_assoc,
  Bool-cases, ltb, ltb→lt,
}
use fleet_telemetry_system.Models.Floats.{Floats}
use fleet_telemetry_system.Store.{Db}
use fleet_telemetry_system.Persistence.Ingest.{anomaly_of}
use fleet_telemetry_system.Persistence.Ingest.Overlap.{
  Stage, reads, appends, upserts, counts, finds, Txn, Overlap, Move, begins, proceeds, breaks,
  holds_vehicle, start, at, locked, proceed, proceed_at, on, act, move, moves,
}
use fleet_telemetry_system.Persistence.Ingest.Overlap.History.{latest, IsChain, Fits}
use fleet_telemetry_system.Persistence.Ingest.Overlap.Invariant.{
  Inv, start-Inv, put-none-Inv, put-Inv, commit-Inv, same-clear, begin_at-Inv, detected-Inv,
  enter-Inv,
}

module _ {F : Type 0} (fl : Floats F) (local : ℕ → ℕ) (db : Db F) (slots : ℕ) where
  module _ (s : Overlap F) (inv : Inv fl local db slots s) (i : ℕ) where
    proceed-Inv :
        (t : Txn F) (stage : Stage)
        → s.running i ≡ some t
        → i < slots
        → Fits fl local db stage t s.commits s.db
        → Inv fl local db slots (proceed fl local slots i t stage s)
    unfolding proceed
    proceed-Inv t reads here lt f = detected-Inv fl local db slots s inv i t _ here lt refl f
    proceed-Inv t appends here lt f =
        let u : Txn F = record t { stage = upserts } in
        put-Inv fl local db slots s inv i u lt f
          (same-clear fl local db slots s inv i t u here refl refl)
    proceed-Inv t upserts here lt f =
        elim (Bool-cases (locked fl local slots i (holds_vehicle t.event.vehicle_id) s)) [
          | inl waits ↦ rw waits inv
          | inr free ↦
              let u : Txn F = record t { stage = counts } in
              rw free (
                put-Inv fl local db slots s inv i u lt f
                  (same-clear fl local db slots s inv i t u here refl refl))
        ]
    proceed-Inv t counts here lt f =
        enter-Inv fl local db slots s inv i t t.event.zone_entered here lt refl f
    proceed-Inv t (finds []) here lt f = commit-Inv fl local db slots s inv i t here f
    proceed-Inv t (finds (x ∷ xs)) here lt (judged, v, e) =
        let a = anomaly_of t.event.vehicle_id (at local t.event) x in
        let u : Txn F = record t { inserted = t.inserted ++ a ∷ []; stage = finds xs } in
        put-Inv fl local db slots s inv i u lt (judged, v, append_assoc t.inserted (a ∷ []) _ ∙ e)
          (same-clear fl local db slots s inv i t u here refl refl)

    proceed_at-Inv :
        (o : Option (Txn F))
        → s.running i ≡ o
        → Inv fl local db slots (proceed_at fl local slots i o s)
    proceed_at-Inv none here = inv
    proceed_at-Inv (some t) here =
        proceed-Inv t t.stage here (inv.within i t here) (inv.fits i t here)

  act-Inv :
      (m : Move F) (s : Overlap F)
      → on {F = F} m < slots
      → Inv fl local db slots s
      → Inv fl local db slots (act fl local slots m s)
  act-Inv (begins i e) s lt inv = begin_at-Inv fl local db slots s inv i e (s.running i) lt
  act-Inv (proceeds i) s lt inv = proceed_at-Inv s inv i (s.running i) refl
  act-Inv (breaks i) s lt inv = put-none-Inv fl local db slots s inv i

  pub moves-Inv :
      (ms : List (Move F)) (s : Overlap F)
      → Inv fl local db slots s
      → Inv fl local db slots (moves fl local slots ms s)
  unfolding moves move
  moves-Inv [] s inv = inv
  moves-Inv (m ∷ ms) s inv = elim (Bool-cases (ltb (on m) slots)) [
    | inl lt ↦ rw lt (moves-Inv ms (act fl local slots m s) (act-Inv m s (ltb→lt _ _ lt) inv))
    | inr ge ↦ rw ge (moves-Inv ms s inv)
  ]

  -- However calls of `persist_telemetry` overlap, wait for one another and fail, what is committed is
  -- reached from the tables at the start by one step for each commit, in the order of the commits: each
  -- step adds the event's row, reading, entry and findings to the tables of the commit before it, and
  -- changes nothing else. The findings are those against the reading that the vehicle had in tables that
  -- were committed before, though not always those of the commit before it.
  pub moves-IsChain :
      (ms : List (Move F))
      → let s = moves fl local slots ms (start db) in
        (s.db ≡ latest db s.commits) × IsChain fl local db s.commits
  moves-IsChain ms =
      let inv = moves-Inv ms (start db) (start-Inv fl local db slots) in (inv.now, inv.chain)
