-- ===== src/IngestionApi/Consistent.antt =====
-- The two declarative invariants of the fault tables: at most one active mission and at most one open
-- maintenance record for each vehicle (uq_active_mission_per_vehicle, uq_open_maintenance_per_vehicle).
use mathlib.Core.Path.{subst}
use mathlib.Core.Bool.{false≢true}
use fleet_telemetry_system.Prelude.{
  ◌≤◌, String, Bool, true, false, Option, List, [], ◌∷◌, ◌++◌, ◌≡◌, ◌≢◌, refl, sym, ap, ◌∙◌, arith,
  eq_iff, ◌==◌, count, any, count-append, count-select, select, select-select, count_of_any-false,
  Bool-cases, inl, inr,
}
use fleet_telemetry_system.Models.{fault, same_status, TelemetryEvent, VehicleStatusUpdate}
use fleet_telemetry_system.Models.Floats.{Floats}
use fleet_telemetry_system.Store.{Db, Session, Mission, MaintenanceRecord, is_active}
use fleet_telemetry_system.Persistence.Fault.{is_active_of, is_open_of}
use fleet_telemetry_system.Persistence.Fault.Transition.{is_of_other, Result, IsFaulted}
use fleet_telemetry_system.Persistence.Fault.SetStatus.{StatusSet}
use fleet_telemetry_system.IngestionApi.{
  Response, accepted, applied, unprocessable, not_found, server_error, Request, telemetry,
  vehicle_status, serve, serve_all,
}
use fleet_telemetry_system.IngestionApi.Serving.{StatusChange, Change, serve-Change}

pub record IsConsistent {F : Type 0} (db : Db F) : Type 0 where
  pub one_active : (v : String) → count (is_active_of v) db.missions ≤ 1
  pub one_open : (v : String) → count (is_open_of v) db.maintenance_records ≤ 1

module _ {F : Type 0} where
  same_tables-IsConsistent :
      {b b' : Db F}
      → b'.missions ≡ b.missions
      → b'.maintenance_records ≡ b.maintenance_records
      → IsConsistent b
      → IsConsistent b'
  same_tables-IsConsistent m r c = record {
    one_active = λ v. rw m (c.one_active v);
    one_open = λ v. rw r (c.one_open v);
  }

  module _ (v : String) (reason : Option String) {b b' : Db F} (t : IsFaulted v reason b b')
      (c : IsConsistent b) where
    not_own :
        (w : String) (m : Mission) → v ≢ w → (m.vehicle_id == w) ≡ true → is_of_other v m ≡ true
    not_own w m ne h = ground (arith, eq_iff m.vehicle_id v, eq_iff m.vehicle_id w)

    other_active : (w : String) → v ≢ w → count (is_active_of w) b'.missions ≤ 1
    other_active w ne =
        let q = λ (m : Mission). m.vehicle_id == w in
        let p = λ (m : Mission). is_active m.status in
        let own = λ (m : Mission). not_own w m ne in
        omega (
          arith,
          count-select q p b'.missions,
          count-select q p b.missions,
          ap (count p) (select-select q (is_of_other v) b'.missions own),
          ap (count p) (select-select q (is_of_other v) b.missions own),
          ap (λ ms. count p (select q ms)) t.others,
          c.one_active w,
        )

    active_after : (w : String) → count (is_active_of w) b'.missions ≤ 1
    active_after w = elim (Bool-cases (v == w)) [
      | inl same ↦
          subst (λ x. count (is_active_of x) b'.missions ≤ 1) ((eq_iff v w).0 same)
            (omega (arith, t.none_active))
      | inr other ↦ other_active w (λ e. false≢true (sym other ∙ (eq_iff v w).1 e))
    ]

    opened_after :
        (r : MaintenanceRecord) (w : String)
        → r.vehicle_id ≡ v
        → any (is_open_of v) b.maintenance_records ≡ false
        → count (is_open_of w) (b.maintenance_records ++ r ∷ []) ≤ 1
    opened_after r w owner free = ground (
      arith,
      count-append (is_open_of w) b.maintenance_records (r ∷ []),
      count_of_any-false (is_open_of v) b.maintenance_records free,
      c.one_open w,
      eq_iff r.vehicle_id w,
    )

    open_after : (w : String) → count (is_open_of w) b'.maintenance_records ≤ 1
    open_after w = elim (Bool-cases (any (is_open_of v) b.maintenance_records)) [
      | inl held ↦ rw (t.opened, held) (c.one_open w)
      | inr free ↦ rw (t.opened, free) (opened_after _ w refl free)
    ]

  status-IsConsistent :
      (u : VehicleStatusUpdate) (v : String) (b b' : Db F) (done : Bool)
      → StatusChange u v b done b'
      → IsConsistent b
      → IsConsistent b'
  status-IsConsistent u v b b' done t c = elim (Bool-cases (same_status u.status fault)) [
    | inl to_fault ↦ faulted done (rw to_fault at t)
    | inr other ↦ set done (rw other at t)
  ]
    where
      faulted : (done : Bool) → Result v u.reason b done b' → IsConsistent b'
      faulted true r = record {
        one_active = active_after v u.reason r.3 c;
        one_open = open_after v u.reason r.3 c;
      }
      faulted false r = subst IsConsistent (sym r.1) c

      set : (done : Bool) → StatusSet v u.status b done b' → IsConsistent b'
      set true r =
          same_tables-IsConsistent (ap (λ d. d.missions) r.3) (ap (λ d. d.maintenance_records) r.3)
            c
      set false r = subst IsConsistent (sym r.1) c

module _ {F Body : Type 0} (fl : Floats F) (parse_event : Body → Option (TelemetryEvent F))
    (parse_update : Body → Option VehicleStatusUpdate) where
  Change-IsConsistent :
      (request : Request Body) (s : Session F) (r : Response) (b' : Db F)
      → Change fl parse_event parse_update request s r b'
      → IsConsistent s.db
      → IsConsistent b'
  Change-IsConsistent (telemetry body) s accepted b' t c =
      same_tables-IsConsistent t.2.2.missions t.2.2.maintenance c
  Change-IsConsistent (telemetry body) s unprocessable b' t c = subst IsConsistent (sym t) c
  Change-IsConsistent (telemetry body) s server_error b' t c = subst IsConsistent (sym t) c
  Change-IsConsistent (telemetry body) s (applied _ _ _) b' t c = absurd t
  Change-IsConsistent (telemetry body) s (not_found _) b' t c = absurd t
  Change-IsConsistent (vehicle_status v body) s (applied w status done) b' t c =
      status-IsConsistent t.0 v s.db b' done t.4 c
  Change-IsConsistent (vehicle_status v body) s (not_found w) b' t c =
      subst IsConsistent (sym t.1) c
  Change-IsConsistent (vehicle_status v body) s unprocessable b' t c = subst IsConsistent (sym t) c
  Change-IsConsistent (vehicle_status v body) s server_error b' t c = subst IsConsistent (sym t) c
  Change-IsConsistent (vehicle_status v body) s accepted b' t c = absurd t

  -- From tables with at most one active mission and one open maintenance record for each vehicle, any
  -- requests, with any statements failing, lead to such tables.
  pub serve_all-IsConsistent :
      (requests : List (Request Body)) (s : Session F)
      → IsConsistent s.db
      → IsConsistent (serve_all fl parse_event parse_update requests s).1.db
  unfolding serve_all
  serve_all-IsConsistent [] s c = c
  serve_all-IsConsistent (request ∷ rest) s c =
      let (r, s') = serve fl parse_event parse_update request s in
      serve_all-IsConsistent rest s' (
        Change-IsConsistent request s r s'.db (serve-Change fl parse_event parse_update request s)
          c)
