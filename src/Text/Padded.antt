-- ===== src/Text/Padded.antt =====
-- `strip()` of a text with white space around it.
use fleet_telemetry_system.Prelude.{true, false, [], ◌∷◌, ◌++◌, ◌≡◌, refl, ap, ◌∙◌, arith}
use fleet_telemetry_system.Text.Points.{Text}
use fleet_telemetry_system.Text.Spaces.{
  strip_start, strip_end, strip, is_empty, all_space, starts_well, ends_well,
}

strip_start-space : (a t : Text) → all_space a ≡ true → strip_start (a ++ t) ≡ strip_start t
unfolding all_space
strip_start-space [] t h = refl
strip_start-space (c ∷ a) t h = ground (arith, h, strip_start-space a t)

strip_end-space : (b : Text) → all_space b ≡ true → strip_end b ≡ []
unfolding all_space
strip_end-space [] h = refl
strip_end-space (c ∷ b) h = ground (arith, h, strip_end-space b)

strip_end-padded :
    (t b : Text)
    → is_empty t ≡ false
    → ends_well t ≡ true
    → all_space b ≡ true
    → strip_end (t ++ b) ≡ t
strip_end-padded [] b f e h = cc
strip_end-padded (c ∷ []) b f e h = ground (arith, e, strip_end-space b)
strip_end-padded (c ∷ d ∷ t) b f e h =
    let rest = strip_end-padded (d ∷ t) b refl e h in rw rest refl

strip_start-well :
    (t b : Text) → is_empty t ≡ false → starts_well t ≡ true → strip_start (t ++ b) ≡ t ++ b
strip_start-well [] b f s = cc
strip_start-well (c ∷ t) b f s = ground (arith, s)

pub strip-padded :
    (a t b : Text)
    → all_space a ≡ true
    → is_empty t ≡ false
    → starts_well t ≡ true
    → ends_well t ≡ true
    → all_space b ≡ true
    → strip (a ++ (t ++ b)) ≡ t
unfolding strip
strip-padded a t b ha f s e hb =
    ap strip_end (strip_start-space a (t ++ b) ha ∙ strip_start-well t b f s)
    ∙ strip_end-padded t b f e hb
