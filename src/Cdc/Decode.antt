-- ===== src/Cdc/Decode.antt =====
-- `_decode_pgoutput`, `_cache_relation`, `_read_tuple` and `_emit` of app/cdc_consumer.py.
pub mod Adds
pub mod Published
pub mod Encoded
pub mod Inserts
use fleet_telemetry_system.Prelude.{
  ℕ, suc, String, Bool, ◌||◌, Option, none, some, List, [], ◌∷◌, Outcome, ok, raised, Exception,
  key_error, redis_error, true, false, if◌then◌else◌,
}
use fleet_telemetry_system.Prelude.Int.{ℤ, pos, eq_ℤ}
use fleet_telemetry_system.Prelude.Effects.{Effect, pure, lift, ◌>>=◌, ◌>>◌}
use fleet_telemetry_system.Text.{Text, codes, same_text}
use fleet_telemetry_system.Cdc.Bytes.{Bytes}
use fleet_telemetry_system.Cdc.Reader.{Reader, int32, char}
use fleet_telemetry_system.Cdc.Event.{
  Row, EventType, event_type_of, build_payload, Carrier, Envelope, inject_trace_context, dumps,
}
use fleet_telemetry_system.Cdc.Tuple.{read_tuple, read_relation}

abbrev pub Relation : Type 0
Relation = Text × List Text

-- A standby status update: the position that is reported as written, flushed and applied, and the
-- clock in microseconds since 2000-01-01.
pub record StatusUpdate : Type 0 where
  pub written : ℤ
  pub flushed : ℤ
  pub applied : ℤ
  pub clock : ℤ

-- The consumer, and what it uses. Lists of what was sent have the latest first.
pub record Consumer (F : Type 0) : Type 0 where
  -- Whether the slot exists on the primary.
  pub slot : Bool
  pub streaming : Bool
  pub relations : List (ℤ × Relation)
  pub last_lsn : ℤ
  pub last_feedback : ℕ
  -- Reading `n` of `time.time()`, in microseconds, and how many were taken.
  pub time : ℕ → ℕ
  pub readings : ℕ
  -- What the propagator does the n-th time, and how often it was used.
  pub propagate : ℕ → Outcome Carrier
  pub injections : ℕ
  -- Which of the next calls to Redis and to the primary fail: none, where the list has ended.
  pub outages : List Bool
  pub published : List (Envelope F)
  pub sent : List StatusUpdate

abbrev pub find_relation : ℤ → List (ℤ × Relation) → Option Relation
find_relation oid [] = none
find_relation oid ((i, r) ∷ m) =
    let later = find_relation oid m in if eq_ℤ i oid then some r else later

abbrev known : Option Relation → Outcome Relation
known none = raised key_error
known (some r) = ok r

abbrev pub Consuming : Type 0 → Type 0 → Type 0
Consuming F A = Effect (Consumer F) A

module _ {F : Type 0} where
  abbrev pub call_with : List Bool → Exception → Consuming F (Unit {0})
  call_with [] e s = (ok tt, s)
  call_with (true ∷ rest) e s = (raised e, record s { outages = rest })
  call_with (false ∷ rest) e s = (ok tt, record s { outages = rest })

  -- A call that may fail, with the exception that it then raises.
  unfoldable pub call : Exception → Consuming F (Unit {0})
  call e s = call_with s.outages e s

  abbrev pub push_event : Envelope F → Consuming F (Unit {0})
  push_event m s = (ok tt, record s { published = m ∷ s.published })

  -- `self._redis.publish(EVENT_CHANNEL, message)`
  unfoldable pub publish : Envelope F → Consuming F (Unit {0})
  unfolding call
  publish m = call redis_error >> push_event m

  -- `self._relations[oid]`
  unfoldable pub relation : ℤ → Consuming F Relation
  relation oid s = (known (find_relation oid s.relations), s)

  -- The carrier goes into the envelope, which is then printed.
  unfoldable pub message : Envelope F → Consuming F (Envelope F)
  message e s = (
    dumps (inject_trace_context (s.propagate s.injections) e),
    record s { injections = suc s.injections },
  )

  abbrev pub cache : ℤ × Relation → Consuming F (Unit {0})
  cache entry s = (ok tt, record s { relations = entry ∷ s.relations })

  unfoldable pub cache_relation : Reader → Consuming F (Unit {0})
  unfolding read_relation
  cache_relation r = lift (read_relation r) >>= cache

  unfoldable pub read_tuple_of : Reader → ℤ → Consuming F (Row × Reader)
  unfolding relation
  read_tuple_of r oid = do (relname, columns) ← relation oid; lift (read_tuple columns r)

module _ {F : Type 0} (float_of : Text → Outcome F) where
  unfoldable pub emit_as : Option EventType → Text → Row → Consuming F (Unit {0})
  emit_as none relname values = pure tt
  emit_as (some event_type) relname values = do
    payload ← lift (build_payload float_of relname values)
    m ← message (record { event_type = event_type; payload = payload; carrier = none })
    publish m

  unfoldable pub emit : ℤ → Row → Consuming F (Unit {0})
  unfolding emit_as relation
  emit oid values = do
    (relname, columns) ← relation oid
    emit_as (event_type_of relname) relname values

  unfoldable pub emit_tuple : ℤ → Reader → Consuming F (Unit {0})
  unfolding emit
  emit_tuple oid r = do (values, r₁) ← read_tuple_of r oid; emit oid values

  unfoldable pub on_insert : Reader → Consuming F (Unit {0})
  unfolding emit_tuple
  on_insert r = do (oid, r₁) ← lift (int32 r); (marker, r₂) ← lift (char r₁); emit_tuple oid r₂

  -- An old tuple of an update is read and passed over.
  unfoldable pub skip_old : ℤ → Reader → Consuming F Reader
  skip_old oid r = do (old, r₁) ← read_tuple_of r oid; (kind, r₂) ← lift (char r₁); pure r₂

  unfoldable pub on_update : Reader → Consuming F (Unit {0})
  unfolding emit_tuple skip_old
  on_update r = do
    (oid, r₁) ← lift (int32 r)
    (kind, r₂) ← lift (char r₁)
    r₃ ←
        (if same_text kind (codes "K") || same_text kind (codes "O")
          then skip_old oid r₂
          else pure r₂)
    emit_tuple oid r₃

  unfoldable pub on_tag : Bytes → Reader → Consuming F (Unit {0})
  unfolding on_insert on_update
  on_tag tag r =
      if same_text tag (codes "R")
      then cache_relation r
      else if same_text tag (codes "I")
      then on_insert r
      else if same_text tag (codes "U")
      then on_update r
      else pure tt

  unfoldable pub decode_pgoutput : Bytes → Consuming F (Unit {0})
  unfolding on_tag
  decode_pgoutput payload = do
    (tag, r) ← lift (char (record { buf = payload; at = pos 0 }))
    on_tag tag r
