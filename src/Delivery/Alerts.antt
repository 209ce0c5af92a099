-- ===== src/Delivery/Alerts.antt =====
-- From `persist_telemetry` of app/persistence.py to the channel: the anomalies that are committed with an
-- event, and what the consumer of app/cdc_consumer.py publishes of their rows. How the primary prints the
-- numbers and the times of a row is a parameter.
use fleet_telemetry_system.Prelude.{
  ℕ, suc, ◌<◌, ◌^◌, String, Option, none, some, List, [], ◌∷◌, ◌++◌, map, ◌≡◌, refl, ap, ◌∙◌, arith,
  Outcome, ok, raised, All,
}
use fleet_telemetry_system.Prelude.Int.{pos}
use fleet_telemetry_system.Prelude.Dict.{lookup}
use fleet_telemetry_system.Prelude.Effects.{pure, ◌>>=◌, ◌>>◌}
use fleet_telemetry_system.Text.{Text, codes}
use fleet_telemetry_system.Models.{TelemetryEvent}
use fleet_telemetry_system.Models.Floats.{Floats}
use fleet_telemetry_system.Store.{
  AnomalyType, fault_status, error_codes, low_battery, overspeed, stuck, teleport, battery_rising,
  comms_loss, Anomaly, Session,
}
use fleet_telemetry_system.Store.Ensures.{Transacted}
use fleet_telemetry_system.Persistence.Detect.{Finding, detect_anomalies}
use fleet_telemetry_system.Persistence.Ingest.{persist_telemetry, anomaly_of, stamp}
use fleet_telemetry_system.Persistence.Ingest.Atomic.{Committed, persist_telemetry-Transacted}
use fleet_telemetry_system.Cdc.Bytes.{Bytes}
use fleet_telemetry_system.Cdc.Event.{
  Cell, null, text, EventType, anomaly_detected, Payload, anomaly, anomaly_payload, Envelope,
  event_type_of, build_payload, dump_payload, inject_trace_context, Carrier,
}
use fleet_telemetry_system.Cdc.Decode.{Consumer, Consuming, find_relation, decode_pgoutput}
use fleet_telemetry_system.Cdc.Decode.Encoded.{encode_insert, IsEncodable, assign_all}
use fleet_telemetry_system.Cdc.Decode.Inserts.{decode_pgoutput-published, decode_pgoutput-keeps}

-- The texts of `anomaly_type`.
abbrev pub type_name : AnomalyType → String
type_name fault_status = "fault_status"
type_name error_codes = "error_codes"
type_name low_battery = "low_battery"
type_name overspeed = "overspeed"
type_name stuck = "stuck"
type_name teleport = "teleport"
type_name battery_rising = "battery_rising"
type_name comms_loss = "comms_loss"

abbrev pub detail_cell : Option String → Cell
detail_cell none = null
detail_cell (some d) = text (codes d)

-- The columns of `anomalies`.
abbrev pub columns : List Text
columns =
    codes "id"
    ∷ codes "vehicle_id"
    ∷ codes "anomaly_type"
    ∷ codes "detail"
    ∷ codes "detected_at"
    ∷ []

-- What a client sees of an event.
abbrev pub seen : {F : Type 0} → Envelope F → EventType × Payload F
seen e = (e.event_type, e.payload)

-- The latest is first in `published`.
abbrev pub after_all : {A : Type 0} → List A → List A → List A
after_all [] before = before
after_all (a ∷ rest) before = after_all rest (a ∷ before)

seen-inject :
    {F : Type 0} (r : Outcome Carrier) (e : Envelope F) → seen (inject_trace_context r e) ≡ seen e
unfolding inject_trace_context
seen-inject (ok []) e = refl
seen-inject (ok (x ∷ c)) e = refl
seen-inject (raised x) e = refl

-- What is published of a row.
abbrev pub alert : {F : Type 0} → (ℕ → Text) → Anomaly → EventType × Payload F
alert time_text a = (
  anomaly_detected,
  anomaly (text (codes a.vehicle_id)) (text (codes (type_name a.anomaly_type)))
      (detail_cell a.detail) (text (time_text a.detected_at)),
)

module _ {F : Type 0} (float_of : Text → Outcome F) where
  unfoldable pub decode_all : List Bytes → Consuming F (Unit {0})
  unfolding decode_pgoutput
  decode_all [] = pure tt
  decode_all (m ∷ ms) = decode_pgoutput float_of m >> decode_all ms

-- The consumer knows the table, and no call of it fails.
pub record IsReady {F : Type 0} (oid : ℕ) (c : Consumer F) : Type 0 where
  pub known : find_relation (pos oid) c.relations ≡ some (codes "anomalies", columns)
  pub up : c.outages ≡ []

-- The n-th identity as a text, and a time.
module _ (id_text time_text : ℕ → Text) where
  abbrev pub row_cells : ℕ → Anomaly → List Cell
  row_cells id a =
      text (id_text id)
      ∷ text (codes a.vehicle_id)
      ∷ text (codes (type_name a.anomaly_type))
      ∷ detail_cell a.detail
      ∷ text (time_text a.detected_at)
      ∷ []

  -- The inserts of a transaction, in the order of its statements.
  abbrev pub inserts : ℕ → ℕ → List Anomaly → List Bytes
  inserts oid id [] = []
  inserts oid id (a ∷ rest) = encode_insert oid (row_cells id a) ∷ inserts oid (suc id) rest

  abbrev pub AllEncodable : ℕ → List Anomaly → Type 0
  AllEncodable id [] = Unit
  AllEncodable id (a ∷ rest) = All IsEncodable (row_cells id a) × AllEncodable (suc id) rest

  module _ {F : Type 0} (float_of : Text → Outcome F) where
    built :
        (id : ℕ) (a : Anomaly)
        → build_payload float_of (codes "anomalies") (assign_all columns (row_cells id a) [])
          ≡ ok ((alert time_text a).1)
    unfolding build_payload anomaly_payload
    built id a = refl

    printed :
        (a : Anomaly) (d : Option String)
        → a.detail ≡ d
        → dump_payload {F = F} (alert time_text a).1 ≡ ok tt
    printed a none h = rw h refl
    printed a (some d) h = rw h refl

    -- One insert: the event of its row, and a consumer that is ready for the next one.
    insert-alert :
        (oid id : ℕ) (a : Anomaly) (c : Consumer F)
        → oid < 2 ^ 31
        → All IsEncodable (row_cells id a)
        → IsReady oid c
        → let r = decode_pgoutput float_of (encode_insert oid (row_cells id a)) c in
          (r.0 ≡ ok tt)
          × IsReady oid r.1
          × (map seen r.1.published ≡ alert time_text a ∷ map seen c.published)
    unfolding event_type_of
    insert-alert oid id a c small e ready =
        let (returns, published) =
          decode_pgoutput-published float_of oid (row_cells id a) (codes "anomalies") columns
            anomaly_detected (alert time_text a).1 c small (omega arith) refl e ready.known refl
            (built id a) (printed a a.detail refl) ready.up in
        let (relations, up) =
          decode_pgoutput-keeps float_of oid (row_cells id a) (codes "anomalies") columns
            anomaly_detected (alert time_text a).1 c small (omega arith) refl e ready.known refl
            (built id a) (printed a a.detail refl) ready.up in
        (
          returns,
          record { known = ap (find_relation (pos oid)) relations ∙ ready.known; up = up },
          ap (map seen) published
              ∙ ap (λ x. x ∷ map seen c.published)
                  (seen-inject (c.propagate c.injections) (record {
                    event_type = anomaly_detected;
                    payload = (alert time_text a).1;
                    carrier = none;
                  })),
        )

    inserts-alerts :
        (oid id : ℕ) (rows : List Anomaly) (c : Consumer F)
        → oid < 2 ^ 31
        → AllEncodable id rows
        → IsReady oid c
        → let r = decode_all float_of (inserts oid id rows) c in
          (r.0 ≡ ok tt)
          × (map seen r.1.published ≡ after_all (map (alert time_text) rows) (map seen c.published))
    unfolding decode_all ◌>>=◌
    inserts-alerts oid id [] c small e ready = (refl, refl)
    inserts-alerts oid id (a ∷ rest) c small (e, es) ready =
        let (returns, next, published) = insert-alert oid id a c small e ready in
        let (later, all) =
          inserts-alerts oid (suc id) rest
            (decode_pgoutput float_of (encode_insert oid (row_cells id a)) c).1 small es next in
        rw returns (later, all ∙ ap (after_all (map (alert time_text) rest)) published)

    module _ (fl : Floats F) where
      Committed-found :
          (e : TelemetryEvent F) (s : Session F) (fs : List Finding)
          → detect_anomalies fl e (lookup e.vehicle_id s.db.vehicle_current_state) ≡ ok fs
          → (r : Outcome Unit × Session F) → r.0 ≡ ok tt
          → Transacted (λ b _ b'. Committed fl e (stamp e s) b b') s r
          → r.1.db.anomalies ≡ s.db.anomalies ++ map (anomaly_of e.vehicle_id (stamp e s)) fs
      Committed-found e s fs h (ok _, s') k (found, detected, recorded) =
          recorded.found
          ∙ ap (λ l. s.db.anomalies ++ map (anomaly_of e.vehicle_id (stamp e s)) l) (cc)
      Committed-found e s fs h (raised x, s') k t = cc

      -- An event that is persisted raises its alerts: for each finding of `detect_anomalies` against the
      -- reading that the vehicle had before, one row of `anomalies` is committed, and of the inserts of
      -- these rows the consumer publishes one `anomaly_detected` event each, in their order, with the
      -- row's vehicle, type, detail and time, and nothing else. The call returns; the consumer knows the
      -- table and no call of it fails; the texts of the rows have only Unicode scalar values and fit
      -- their fields.
      pub persist_telemetry-alerts :
          (e : TelemetryEvent F) (s : Session F) (fs : List Finding) (oid id : ℕ) (c : Consumer F)
          → (persist_telemetry fl e s).0 ≡ ok tt
          → detect_anomalies fl e (lookup e.vehicle_id s.db.vehicle_current_state) ≡ ok fs
          → oid < 2 ^ 31
          → AllEncodable id (map (anomaly_of e.vehicle_id (stamp e s)) fs)
          → IsReady oid c
          → let rows = map (anomaly_of e.vehicle_id (stamp e s)) fs in
            let r = decode_all float_of (inserts oid id rows) c in
            ((persist_telemetry fl e s).1.db.anomalies ≡ s.db.anomalies ++ rows)
            × (r.0 ≡ ok tt)
            × (map seen r.1.published
                ≡ after_all (map (alert time_text) rows) (map seen c.published))
      persist_telemetry-alerts e s fs oid id c returns detected small encodable ready =
          let (decoded, published) =
            inserts-alerts oid id (map (anomaly_of e.vehicle_id (stamp e s)) fs) c small encodable
              ready in
          (
            Committed-found e s fs detected (persist_telemetry fl e s) returns
                (persist_telemetry-Transacted fl e s),
            decoded,
            published,
          )
