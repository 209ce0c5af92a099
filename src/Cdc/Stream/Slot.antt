-- ===== src/Cdc/Stream/Slot.antt =====
-- The slot, when it is dropped and ensured.
use fleet_telemetry_system.Prelude.{true, false, [], ◌≡◌, refl, inl, inr, ok, Bool-cases}
use fleet_telemetry_system.Prelude.Effects.{◌>>◌, ◌>>=◌}
use fleet_telemetry_system.Cdc.Decode.{Consumer, call}
use fleet_telemetry_system.Cdc.Stream.{ensure_slot, drop_slot}

module _ {F : Type 0} (s : Consumer F) (h : s.outages ≡ []) where
  -- A slot that is ensured is there; one that is there is not made again.
  pub ensure_slot-slot : ensure_slot s ≡ (ok tt, record s { slot = true })
  unfolding ensure_slot ◌>>=◌ call
  ensure_slot-slot =
      rw h (elim (Bool-cases s.slot) [ inl there ↦ rw there refl | inr missing ↦ rw missing refl ])

  pub drop_slot-slot : drop_slot s ≡ (ok tt, record s { slot = false })
  unfolding drop_slot ◌>>=◌ call
  drop_slot-slot = rw h refl

module _ {F : Type 0} (s : Consumer F) (h : s.outages ≡ []) where
  -- What the fixture of the integration tests does before each of them: the slot is there afterwards,
  -- whether it was before or not, and nothing else is changed, if no call of the primary fails.
  pub drop_slot-ensure_slot : (drop_slot >> ensure_slot) s ≡ (ok tt, record s { slot = true })
  unfolding ◌>>=◌
  drop_slot-ensure_slot = rw (drop_slot-slot s h) (ensure_slot-slot (record s { slot = false }) h)
