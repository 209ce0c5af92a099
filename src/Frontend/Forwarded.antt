-- ===== src/Frontend/Forwarded.antt =====
-- What the fan-out forwards.
use fleet_telemetry_system.Prelude.{
  String, false, Option, none, some, [], ◌∷◌, ◌≡◌, refl, arith, ◌==◌, eq_iff, Outcome, ok,
  Bool-cases, inl, inr, if◌then◌else◌,
}
use fleet_telemetry_system.Prelude.Dict.{Dict, lookup}
use fleet_telemetry_system.Frontend.{strip_trace_context, has_carrier, forwarded}

module _ {V : Type 0} where
  lookup-strip_trace_context :
      (k : String) (e : Dict V)
      → lookup k (strip_trace_context e) ≡ (if k == "_trace" then none else lookup k e)
  unfolding lookup strip_trace_context
  lookup-strip_trace_context k [] = ground arith
  lookup-strip_trace_context k ((j, v) ∷ e) =
      ground
        (arith, lookup-strip_trace_context k e, eq_iff j "_trace", eq_iff k "_trace", eq_iff j k)

  strip_trace_context-absent : (e : Dict V) → has_carrier e ≡ false → strip_trace_context e ≡ e
  unfolding lookup strip_trace_context has_carrier
  strip_trace_context-absent [] h = refl
  strip_trace_context-absent ((k, v) ∷ e) h =
      ground (arith, strip_trace_context-absent e, eq_iff k "_trace")

module _ {V Raw : Type 0} (loads : Raw → Outcome (Option (Dict V))) (dumps : Dict V → Raw) where
  -- Of a printed envelope the fan-out forwards a text that is read as the envelope without its trace
  -- carrier: no other field is lost or changed, and the carrier is not there. It is assumed that
  -- `json.loads` reads what `json.dumps` prints.
  pub forwarded-strip_trace_context :
      ((e : Dict V) → loads (dumps e) ≡ ok (some e))
      → (e : Dict V)
      → (stripped : Dict V) × (loads (forwarded loads dumps (dumps e)) ≡ ok (some stripped))
        × ((k : String) → lookup k stripped ≡ (if k == "_trace" then none else lookup k e))
  unfolding forwarded
  forwarded-strip_trace_context reads e =
      (strip_trace_context e, rw (reads e) read, λ k. lookup-strip_trace_context k e)
    where
      read :
          loads (if has_carrier e then dumps (strip_trace_context e) else dumps e)
          ≡ ok (some (strip_trace_context e))
      read = elim (Bool-cases (has_carrier e)) [
        | inl yes_carrier ↦ rw yes_carrier (reads (strip_trace_context e))
        | inr none_there ↦ rw (none_there, strip_trace_context-absent e none_there) (reads e)
      ]
