-- ===== src/Persistence/CommsLoss/Sweep.antt =====
-- Which vehicles the comms-loss sweep flags, and that it flags no silence twice.
use mathlib.Core.Path.{subst}
use fleet_telemetry_system.Prelude.{
  ℕ, ◌+◌, ◌≤◌, ◌<◌, String, Bool, true, false, ◌&&◌, some, List, [], ◌∷◌, ◌++◌, map, ◌≡◌, refl, sym,
  ap, ◌∙◌, ◌==◌, eq_iff, eq_refl, arith, Outcome, ok, raised, select, count-append, length, ltb,
  eqb, count, any_of_count, any-eq_true, Bool-cases, inl, inr, if◌then◌else◌,
}
use fleet_telemetry_system.Prelude.Dict.{lookup}
use fleet_telemetry_system.Models.{comms_loss_timeout}
use fleet_telemetry_system.Store.{
  Db, Session, Reading, Anomaly, Action, continue, ◌>>=◌, execute, transaction,
}
use fleet_telemetry_system.Store.Ensures.{Ensures-execute, Transacted, transaction-Transacted}
use fleet_telemetry_system.Persistence.CommsLoss.{
  covers, is_silent, loss_of, insert_comms_loss, detect_comms_loss, run_watchdog,
}

abbrev pub has_key : {F : Type 0} → String → String × Reading F → Bool
has_key v row = row.0 == v

module _ {F : Type 0} where
  -- The anomalies that a sweep at `now` writes.
  abbrev pub losses : ℕ → Db F → List Anomaly
  losses now db = map (loss_of now) (select (is_silent now db.anomalies) db.vehicle_current_state)

  loss-other :
      (now t : ℕ) (v : String) (row : String × Reading F)
      → (row.0 == v) ≡ false
      → covers v t (loss_of now row) ≡ false
  loss-other now t v row h = ground arith

  no_losses :
      (now t : ℕ) (old : List Anomaly) (v : String) (rows : List (String × Reading F))
      → count (has_key v) rows ≡ 0
      → count (covers v t) (map (loss_of now) (select (is_silent now old) rows)) ≡ 0
  no_losses now t old v [] h = refl
  no_losses now t old v (row ∷ rows) h =
      ground (arith, no_losses now t old v rows, loss-other now t v row)

  -- A silent row's anomaly is dated at or after its reading.
  loss_covers :
      (now : ℕ) (old : List Anomaly) (row : String × Reading F) (v : String)
      → is_silent now old row ≡ true
      → (row.0 == v) ≡ true
      → covers v row.1.recorded_at (loss_of now row) ≡ true
  unfolding is_silent
  loss_covers now old (w, r) v h k = ground arith

  abbrev found_by : ℕ → List Anomaly → String → ℕ → List (String × Reading F) → ℕ
  found_by now old v t rows =
      count (covers v t) (map (loss_of now) (select (is_silent now old) rows))

  first_exact :
      (now : ℕ) (old : List Anomaly) (v : String) (r : Reading F) (rows : List (String × Reading F))
      → count (has_key v) rows ≡ 0
      → found_by now old v r.recorded_at ((v, r) ∷ rows)
        ≡ (if is_silent now old (v, r) then 1 else 0)
  first_exact now old v r rows none_left = ground (
    arith,
    no_losses now r.recorded_at old v rows none_left,
    loss_covers now old (v, r) v,
    eq_refl v,
  )

  -- In a table with one row for each vehicle, a sweep flags a vehicle once if it is silent, and else not.
  losses_exact :
      (now : ℕ) (old : List Anomaly) (v : String) (r : Reading F) (rows : List (String × Reading F))
      → count (has_key v) rows ≤ 1
      → lookup v rows ≡ some r
      → found_by now old v r.recorded_at rows ≡ (if is_silent now old (v, r) then 1 else 0)
  unfolding lookup
  losses_exact now old v r [] one found = cc
  losses_exact now old v r ((w, q) ∷ rows) one found = elim (Bool-cases (w == v)) [
    | inl here ↦
        let same : w ≡ v = (eq_iff w v).0 here in
        let reading : q ≡ r = ground arith in
        subst
          (λ (row : String × Reading F).
            found_by now old v r.recorded_at (row ∷ rows)
            ≡ (if is_silent now old (v, r) then 1 else 0))
          (λ i. (sym same i, sym reading i)) (first_exact now old v r rows (ground arith))
    | inr other ↦
        ground (arith, losses_exact now old v r rows, loss-other now r.recorded_at v (w, q))
  ]

  covered_not_silent :
      (now : ℕ) (old : List Anomaly) (v : String) (r : Reading F)
      → 0 < count (covers v r.recorded_at) old
      → is_silent now old (v, r) ≡ false
  unfolding is_silent
  covered_not_silent now old v r h = ground (arith, any_of_count (covers v r.recorded_at) old)

  -- `n` rows are flagged, and the sweep does nothing else.
  abbrev Swept : ℕ → Db F → ℕ → Db F → Type 0
  Swept now b n b' =
      (n ≡ length (losses now b)) × (b' ≡ record b { anomalies = b.anomalies ++ losses now b })

  insert_comms_loss-Swept :
      (now : ℕ) (b : Db F) (n : ℕ) (b' : Db F)
      → insert_comms_loss now b ≡ ok (n, b')
      → Swept now b n b'
  unfolding insert_comms_loss
  insert_comms_loss-Swept now b n b' h = ground arith

  pub detect_comms_loss-Transacted :
      (now : ℕ) (s : Session F) → Transacted (Swept now) s (detect_comms_loss now s)
  unfolding detect_comms_loss
  detect_comms_loss-Transacted now s = transaction-Transacted {Q = Swept now} s (record {
    at = λ s n h.
        insert_comms_loss-Swept now s.db n _ ((Ensures-execute (insert_comms_loss now)).at s n h);
  })

  calm_sweep :
      (now : ℕ) (s : Session F)
      → s.outages ≡ []
      → (detect_comms_loss now s).1.db
        ≡ record s.db { anomalies = s.db.anomalies ++ losses now s.db }
  unfolding detect_comms_loss transaction execute insert_comms_loss
  calm_sweep now s h =
      subst
        (λ o.
          (detect_comms_loss now (record s { outages = o })).1.db
          ≡ record s.db { anomalies = s.db.anomalies ++ losses now s.db })
        (sym h) refl

module _ {F : Type 0} (v : String) (r : Reading F) where
  -- The comms losses of the vehicle that are dated at or after the reading `r`.
  abbrev pub flagged : Db F → ℕ
  flagged db = count (covers v r.recorded_at) db.anomalies

  -- The table has one row for the vehicle, and it holds `r`.
  pub record IsCurrent (db : Db F) : Type 0 where
    pub one_row : count (has_key v) db.vehicle_current_state ≤ 1
    pub reading : lookup v db.vehicle_current_state ≡ some r

  Swept-flagged :
      (now n : ℕ) (b b' : Db F)
      → IsCurrent b
      → Swept now b n b'
      → flagged b' ≡ flagged b + (if is_silent now b.anomalies (v, r) then 1 else 0)
  Swept-flagged now n b b' c t = rw (
    t.1,
    count-append (covers v r.recorded_at) b.anomalies (losses now b),
    losses_exact now b.anomalies v r b.vehicle_current_state c.one_row c.reading,
  )

  Swept-IsCurrent : (now n : ℕ) (b b' : Db F) → Swept now b n b' → IsCurrent b → IsCurrent b'
  Swept-IsCurrent now n b b' t c = record { one_row = rw t.1 c.one_row; reading = rw t.1 c.reading }

  silent_once :
      (now : ℕ) (b : Db F)
      → flagged b ≤ 1
      → flagged b + (if is_silent now b.anomalies (v, r) then 1 else 0) ≤ 1
  silent_once now b h = ground (arith, covered_not_silent now b.anomalies v r)

  watched :
      (now : ℕ) (s : Session F) (o : Outcome ℕ × Session F) (rest : Action F (Unit {0}))
      → ((s' : Session F) → IsCurrent s'.db → flagged s'.db ≤ 1 → flagged (rest s').1.db ≤ 1)
      → IsCurrent s.db
      → flagged s.db ≤ 1
      → Transacted (Swept now) s o
      → flagged (continue o.0 (λ _. rest) o.1).1.db ≤ 1
  watched now s (ok n, s') rest k c h t =
      k s' (Swept-IsCurrent now n s.db s'.db t c)
        (rw (Swept-flagged now n s.db s'.db c t) (silent_once now s.db h))
  watched now s (raised x, s') rest k c h t = rw (ap flagged t) h

  silent_formula :
      (now : ℕ) (b : Db F)
      → flagged b + (if is_silent now b.anomalies (v, r) then 1 else 0) ≡ (
          if ltb (r.recorded_at + comms_loss_timeout) now && eqb (flagged b) 0
          then 1
          else flagged b)
  unfolding is_silent
  silent_formula now b = ground (
    arith,
    any_of_count (covers v r.recorded_at) b.anomalies,
    any-eq_true (covers v r.recorded_at) b.anomalies,
  )

  -- If no statement fails, a sweep at `now` leaves exactly one comms loss for a vehicle whose reading is
  -- more than the timeout older than `now` and that had none since that reading; for every other
  -- vehicle it leaves their number as it was.
  pub detect_comms_loss-flagged :
      (now : ℕ) (s : Session F)
      → s.outages ≡ []
      → IsCurrent s.db
      → flagged (detect_comms_loss now s).1.db ≡ (
          if ltb (r.recorded_at + comms_loss_timeout) now && eqb (flagged s.db) 0
          then 1
          else flagged s.db)
  detect_comms_loss-flagged now s h c =
      ap flagged (calm_sweep now s h)
      ∙ Swept-flagged now (length (losses now s.db)) s.db _ c (refl, refl)
      ∙ silent_formula now s.db

  -- However often the watchdog sweeps, with any statement failing, one reading of a vehicle is followed
  -- by at most one comms loss, if it was so before.
  pub run_watchdog-once :
      (ticks : List ℕ) (s : Session F)
      → IsCurrent s.db
      → flagged s.db ≤ 1
      → flagged (run_watchdog ticks s).1.db ≤ 1
  unfolding run_watchdog ◌>>=◌
  run_watchdog-once [] s c h = h
  run_watchdog-once (now ∷ later) s c h =
      watched now s (detect_comms_loss now s) (run_watchdog later) (run_watchdog-once later) c h
        (detect_comms_loss-Transacted now s)
