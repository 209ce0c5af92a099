-- ===== src/Persistence/Ingest/Overlap/Counted.antt =====
-- Overlapping calls lose no update of a counter, and leave the reading of the last commit.
use mathlib.Core.Option
use fleet_telemetry_system.Prelude.{
  ℕ, ◌+◌, String, Option, none, some, List, [], ◌∷◌, ◌≡◌, refl, ap, ◌∙◌, arith, count, ◌==◌,
  if◌then◌else◌,
}
use fleet_telemetry_system.Prelude.Dict.{lookup}
use fleet_telemetry_system.Models.Floats.{Floats}
use fleet_telemetry_system.Store.{Db, Reading}
use fleet_telemetry_system.Persistence.Ingest.{reading_of}
use fleet_telemetry_system.Persistence.Ingest.Atomic.{enters}
use fleet_telemetry_system.Persistence.Ingest.Overlap.{Commit, Move, start, at, moves}
use fleet_telemetry_system.Persistence.Ingest.Overlap.History.{latest, next, IsChain}
use fleet_telemetry_system.Persistence.Ingest.Overlap.Chain.{moves-IsChain}

abbrev pub plus : ℕ → Option ℕ → Option ℕ
plus k = Option.map (λ n. n + k)

plus-next : (k : ℕ) (o : Option ℕ) → next (plus k o) ≡ plus (k + 1) o
plus-next k none = refl
plus-next k (some n) = ap some (omega arith)

plus-zero : (o : Option ℕ) → o ≡ plus 0 o
plus-zero none = refl
plus-zero (some n) = ap some (omega arith)

module _ {F : Type 0} (local : ℕ → ℕ) where
  -- The reading of the last commit of an event of the vehicle, if there is one.
  abbrev pub last_reading : String → Option (Reading F) → List (Commit F) → Option (Reading F)
  last_reading v first [] = first
  last_reading v first (c ∷ cs) =
      if c.event.vehicle_id == v
      then some (reading_of c.event (at local c.event))
      else last_reading v first cs

  abbrev pub entries : String → List (Commit F) → ℕ
  entries z cs = count (λ c. enters c.event.zone_entered z) cs

module _ {F : Type 0} (fl : Floats F) (local : ℕ → ℕ) (db : Db F) where
  IsChain-zone_counts :
      (z : String) (cs : List (Commit F))
      → IsChain fl local db cs
      → lookup z (latest db cs).zone_counts ≡ plus (entries local z cs) (lookup z db.zone_counts)
  IsChain-zone_counts z [] s = plus-zero (lookup z db.zone_counts)
  IsChain-zone_counts z (c ∷ cs) (judged, r, s) = ground (
    arith,
    r.zones z,
    IsChain-zone_counts z cs s,
    plus-next (entries local z cs) (lookup z db.zone_counts),
  )

  IsChain-last_reading :
      (v : String) (cs : List (Commit F))
      → IsChain fl local db cs
      → lookup v (latest db cs).vehicle_current_state
        ≡ last_reading local v (lookup v db.vehicle_current_state) cs
  IsChain-last_reading v [] s = refl
  IsChain-last_reading v (c ∷ cs) (judged, r, s) =
      ground (arith, r.current v, IsChain-last_reading v cs s)

  -- However calls overlap, wait and fail, no update is lost: the counter of a zone that has a row has
  -- advanced by the number of committed events that entered it, and no zone has gained a row. The
  -- reading of a vehicle is that of its event that was committed last, or the one from before.
  pub moves-counted :
      (slots : ℕ) (ms : List (Move F))
      → let s = moves fl local slots ms (start db) in
        ((z : String)
          → lookup z s.db.zone_counts ≡ plus (entries local z s.commits) (lookup z db.zone_counts))
        × ((v : String)
            → lookup v s.db.vehicle_current_state
              ≡ last_reading local v (lookup v db.vehicle_current_state) s.commits)
  moves-counted slots ms =
      let (now, chain) = moves-IsChain fl local db slots ms in
      (
        λ z. ap (λ b. lookup z b.zone_counts) now ∙ IsChain-zone_counts z _ chain,
        λ v. ap (λ b. lookup v b.vehicle_current_state) now ∙ IsChain-last_reading v _ chain,
      )
