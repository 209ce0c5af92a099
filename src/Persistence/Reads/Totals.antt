-- ===== src/Persistence/Reads/Totals.antt =====
-- What the reads return.
use mathlib.Core.Path.{subst}
use fleet_telemetry_system.Prelude.{
  ℕ, ◌+◌, String, Bool, ◌&&◌, List, [], ◌∷◌, map, ◌≡◌, refl, sym, ap, ◌∙◌, arith, ok, length, count,
  select, count-select, ltb,
}
use fleet_telemetry_system.Prelude.Sorting.{
  sort_by, IsAscending, sort_by-IsAscending, count-sort_by,
}
use fleet_telemetry_system.Models.{idle, moving, charging, fault, statuses}
use fleet_telemetry_system.Store.{Reading, Anomaly, Session, Db, execute, ◌>>=◌}
use fleet_telemetry_system.Persistence.Reads.{
  StatusCounts, set_counts, has_status, in_range, select_aggregate, aggregate_fleet_state,
  select_recent, recent_anomalies,
}

abbrev pub total : StatusCounts → ℕ
total [] = 0
total ((status, n) ∷ counts) = n + total counts

-- The groups that occur, put over zeros, are the counts of all statuses.
groups_over_zeros :
    (a b c d : ℕ)
    → set_counts
        (select (λ c. ltb 0 c.1) ((idle, a) ∷ (moving, b) ∷ (charging, c) ∷ (fault, d) ∷ []))
        (map (λ status. (status, 0)) statuses)
      ≡ (idle, a) ∷ (moving, b) ∷ (charging, c) ∷ (fault, d) ∷ []
groups_over_zeros a b c d = ground arith

module _ {F : Type 0} where
  abbrev pub counts_of : Db F → StatusCounts
  counts_of db =
      map (λ status. (status, count (has_status status) db.vehicle_current_state)) statuses

  statuses_cover :
      (rows : List (String × Reading F))
      → count (has_status idle) rows
          + count (has_status moving) rows
          + count (has_status charging) rows
          + count (has_status fault) rows
        ≡ length rows
  statuses_cover [] = refl
  statuses_cover ((v, r) ∷ rows) = ground (arith, statuses_cover rows)

  counts_of-total : (db : Db F) → total (counts_of db) ≡ length db.vehicle_current_state
  counts_of-total db = omega (arith, statuses_cover db.vehicle_current_state)

  -- If no statement fails, `aggregate_fleet_state` returns the number of readings with each of the four
  -- statuses, in their order and with zero where there is none. The counts sum to the number of
  -- vehicles that have a reading.
  pub aggregate_fleet_state-total :
      (s : Session F)
      → s.outages ≡ []
      → (aggregate_fleet_state s ≡ (ok (counts_of s.db), s))
        × (total (counts_of s.db) ≡ length s.db.vehicle_current_state)
  unfolding aggregate_fleet_state select_aggregate execute ◌>>=◌
  aggregate_fleet_state-total s h =
      let rows = s.db.vehicle_current_state in
      (
        subst
            (λ o.
              aggregate_fleet_state (record s { outages = o })
              ≡ (ok (counts_of s.db), record s { outages = o }))
            (sym h)
            (ap (λ c. (ok c, record s { outages = [] }))
              (groups_over_zeros (count (has_status idle) rows) (count (has_status moving) rows)
                (count (has_status charging) rows) (count (has_status fault) rows))),
        counts_of-total s.db,
      )

  -- If no statement fails, `recent_anomalies` returns the anomalies of the vehicle from `since` to
  -- `until`, both included, each as often as the table has it, ordered by their time.
  pub recent_anomalies-IsAscending :
      (v : String) (since until : ℕ) (s : Session F)
      → s.outages ≡ []
      → (rows : List Anomaly) × (recent_anomalies v since until s ≡ (ok rows, s))
        × IsAscending (λ a. a.detected_at) rows
        × ((p : Anomaly → Bool)
            → count p rows ≡ count (λ a. in_range v since until a && p a) s.db.anomalies)
  unfolding recent_anomalies select_recent execute
  recent_anomalies-IsAscending v since until s h =
      let found = select (in_range v since until) s.db.anomalies in
      (
        sort_by (λ a. a.detected_at) found,
        subst
            (λ o.
              recent_anomalies v since until (record s { outages = o })
              ≡ (ok (sort_by (λ a. a.detected_at) found), record s { outages = o }))
            (sym h) refl,
        sort_by-IsAscending (λ a. a.detected_at) found,
        λ p.
            count-sort_by (λ a. a.detected_at) p found
            ∙ sym (count-select (in_range v since until) p s.db.anomalies),
      )
