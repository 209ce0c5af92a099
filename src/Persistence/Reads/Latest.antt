-- ===== src/Persistence/Reads/Latest.antt =====
-- `latest_anomaly_per_vehicle`: one row for each vehicle with an anomaly, and its latest.
use mathlib.Core.Path.{subst}
use fleet_telemetry_system.Prelude.{
  ℕ, ◌≤◌, String, Bool, true, not, ◌&&◌, List, [], ◌∷◌, ◌≡◌, refl, sym, ap, ◌∙◌, arith, ok, ◌==◌,
  eq_iff, All, any, count, select, ltb, Bool-cases, inl, inr, if◌then◌else◌,
}
use fleet_telemetry_system.Prelude.Sorting.{
  Pairwise, IsTotalOrder, insert_with, sort_with, sort_with-Pairwise, count-sort_with,
}
use fleet_telemetry_system.Store.{Anomaly, Session, execute}
use fleet_telemetry_system.Persistence.Reads.{
  same_vehicle, distinct_on, latest_first, select_latest, latest_anomaly_per_vehicle,
}

-- Later anomalies of the same vehicle.
abbrev pub newer : Anomaly → Anomaly → Bool
newer r a = same_vehicle r.vehicle_id a && ltb r.detected_at a.detected_at

abbrev pub once : Bool → ℕ
once b = if b then 1 else 0

-- Rows of anomalies: from the table, one for each vehicle that has any, and none with a newer one.
pub record AreLatest (table rows : List Anomaly) : Type 0 where
  pub from_table : (p : Anomaly → Bool) → count p rows ≤ count p table
  pub one_each : (v : String) → count (same_vehicle v) rows ≡ once (any (same_vehicle v) table)
  pub latest : All (λ r. count (newer r) table ≡ 0) rows

-- Rows of one vehicle go, those of the others stay.
count-select_other :
    (v w : String) (rows : List Anomaly)
    → count (same_vehicle w) (select (λ r. not (same_vehicle v r)) rows)
      ≡ (if v == w then 0 else count (same_vehicle w) rows)
count-select_other v w [] = ground arith
count-select_other v w (r ∷ rows) =
    ground
      (arith, count-select_other v w rows, eq_iff v w, eq_iff r.vehicle_id v, eq_iff r.vehicle_id w)

count-select_le :
    (p q : Anomaly → Bool) (rows : List Anomaly) → count p (select q rows) ≤ count p rows
count-select_le p q [] = omega arith
count-select_le p q (r ∷ rows) = ground (arith, count-select_le p q rows)

distinct_on-from : (p : Anomaly → Bool) (l : List Anomaly) → count p (distinct_on l) ≤ count p l
distinct_on-from p [] = omega arith
distinct_on-from p (a ∷ l) = ground (
  arith,
  distinct_on-from p l,
  count-select_le p (λ r. not (same_vehicle a.vehicle_id r)) (distinct_on l),
)

distinct_on-once :
    (v : String) (l : List Anomaly)
    → count (same_vehicle v) (distinct_on l) ≡ once (any (same_vehicle v) l)
distinct_on-once v [] = refl
distinct_on-once v (a ∷ l) = ground (
  arith,
  distinct_on-once v l,
  count-select_other a.vehicle_id v (distinct_on l),
  eq_iff a.vehicle_id v,
)

-- How a deterministic collation orders texts.
pub record IsCollation (before : String → String → Bool) : Type 0 where
  pub order : IsTotalOrder before
  pub antisym : (a b : String) → before a b ≡ true → before b a ≡ true → a ≡ b

module _ (before : String → String → Bool) where
  latest_first-IsTotalOrder : IsCollation before → IsTotalOrder (latest_first before)
  latest_first-IsTotalOrder c = record {
    total = λ a b h. ground (
      arith,
      h,
      eq_iff a.vehicle_id b.vehicle_id,
      eq_iff b.vehicle_id a.vehicle_id,
      c.order.total a.vehicle_id b.vehicle_id,
    );
    trans = λ a b d h k. ground (
      arith,
      h,
      k,
      eq_iff a.vehicle_id b.vehicle_id,
      eq_iff b.vehicle_id d.vehicle_id,
      eq_iff a.vehicle_id d.vehicle_id,
      c.order.trans a.vehicle_id b.vehicle_id d.vehicle_id,
      c.antisym a.vehicle_id b.vehicle_id,
    );
  }

  none_newer :
      (a : Anomaly) (l : List Anomaly)
      → All (λ b. latest_first before a b ≡ true) l
      → count (newer a) l ≡ 0
  none_newer a [] h = refl
  none_newer a (b ∷ l) h = ground (
    arith,
    none_newer a l h.1,
    h.0,
    eq_iff a.vehicle_id b.vehicle_id,
    eq_iff b.vehicle_id a.vehicle_id,
  )

  -- Past a row of another vehicle.
  still_latest :
      (a : Anomaly) (l rows : List Anomaly)
      → All (λ r. count (newer r) l ≡ 0) rows
      → All
          (λ r. count (newer r) (a ∷ l) ≡ 0)
          (select (λ r. not (same_vehicle a.vehicle_id r)) rows)
  still_latest a l [] h = tt
  still_latest a l (r ∷ rows) h = elim (Bool-cases (same_vehicle a.vehicle_id r)) [
    | inl same ↦ rw same (still_latest a l rows h.1)
    | inr other ↦ rw other (
      ground
          (arith, h.0, other, eq_iff a.vehicle_id r.vehicle_id, eq_iff r.vehicle_id a.vehicle_id),
      still_latest a l rows h.1,
    )
  ]

  distinct_on-latest :
      (l : List Anomaly)
      → Pairwise (latest_first before) l
      → All (λ r. count (newer r) l ≡ 0) (distinct_on l)
  distinct_on-latest [] h = tt
  distinct_on-latest (a ∷ l) h = (
    ground (arith, none_newer a l h.0),
    still_latest a l (distinct_on l) (distinct_on-latest l h.1),
  )

  any-insert_with :
      (p : Anomaly → Bool) (x : Anomaly) (l : List Anomaly)
      → any p (insert_with (latest_first before) x l) ≡ any p (x ∷ l)
  any-insert_with p x [] = refl
  any-insert_with p x (y ∷ l) = ground (arith, any-insert_with p x l)

  any-sorted :
      (p : Anomaly → Bool) (l : List Anomaly) → any p (sort_with (latest_first before) l) ≡ any p l
  any-sorted p [] = refl
  any-sorted p (x ∷ l) =
      ground (arith, any-insert_with p x (sort_with (latest_first before) l), any-sorted p l)

  All-counts :
      (l sorted rows : List Anomaly)
      → ((p : Anomaly → Bool) → count p sorted ≡ count p l)
      → All (λ r. count (newer r) sorted ≡ 0) rows
      → All (λ r. count (newer r) l ≡ 0) rows
  All-counts l sorted [] same h = tt
  All-counts l sorted (r ∷ rows) same h =
      (sym (same (newer r)) ∙ h.0, All-counts l sorted rows same h.1)

  sorted-AreLatest :
      (table : List Anomaly)
      → IsCollation before
      → AreLatest table (distinct_on (sort_with (latest_first before) table))
  sorted-AreLatest table c =
      let sorted = sort_with (latest_first before) table in
      let same = λ (p : Anomaly → Bool). count-sort_with (latest_first before) p table in
      record {
        from_table = λ p. omega (arith, distinct_on-from p sorted, same p);
        one_each = λ v. distinct_on-once v sorted ∙ ap once (any-sorted (same_vehicle v) table);
        latest = All-counts table sorted (distinct_on sorted) same (
            distinct_on-latest sorted
              (sort_with-Pairwise (latest_first before) table (latest_first-IsTotalOrder c)));
      }

module _ {F : Type 0} (before : String → String → Bool) where
  -- If no statement fails, `latest_anomaly_per_vehicle` returns rows of the table: one for each vehicle
  -- that has an anomaly and none for any other, and no anomaly of a vehicle is newer than its row. The
  -- database's collation is assumed to be a total order in which only equal texts are alike.
  pub latest_anomaly_per_vehicle-AreLatest :
      (s : Session F)
      → IsCollation before
      → s.outages ≡ []
      → (rows : List Anomaly) × (latest_anomaly_per_vehicle before s ≡ (ok rows, s))
        × AreLatest s.db.anomalies rows
  unfolding latest_anomaly_per_vehicle select_latest execute
  latest_anomaly_per_vehicle-AreLatest s c h =
      let rows = distinct_on (sort_with (latest_first before) s.db.anomalies) in
      (
        rows,
        subst
            (λ o.
              latest_anomaly_per_vehicle before (record s { outages = o })
              ≡ (ok rows, record s { outages = o }))
            (sym h) refl,
        sorted-AreLatest before s.db.anomalies c,
      )
