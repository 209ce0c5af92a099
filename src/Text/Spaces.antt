-- ===== src/Text/Spaces.antt =====
-- White space, and `text.strip()`. Of the white space beyond ASCII nothing is modelled.
use fleet_telemetry_system.Prelude.{
  ℕ, Bool, true, false, ◌&&◌, ◌||◌, not, ◌≡◌, refl, ◌∙◌, [], ◌∷◌, arith, leb, eqb, if◌then◌else◌,
}
use fleet_telemetry_system.Text.Points.{Text}

unfoldable pub is_space : ℕ → Bool
is_space c = eqb c 32 || (leb 9 c && leb c 13) || (leb 28 c && leb c 31)

abbrev pub strip_start : Text → Text
strip_start [] = []
strip_start (c ∷ s) = if is_space c then strip_start s else c ∷ s

abbrev pub is_empty : Text → Bool
is_empty [] = true
is_empty (_ ∷ _) = false

abbrev pub strip_end : Text → Text
strip_end [] = []
strip_end (c ∷ s) = let rest = strip_end s in if is_empty rest && is_space c then [] else c ∷ rest

unfoldable pub strip : Text → Text
unfolding is_space
strip t = strip_end (strip_start t)

-- White space up to the end.
unfoldable pub all_space : Text → Bool
unfolding is_space
all_space [] = true
all_space (c ∷ s) = is_space c && all_space s

-- Not white space at the start, and at the end.
abbrev pub starts_well : Text → Bool
starts_well [] = true
starts_well (c ∷ s) = not (is_space c)

abbrev pub ends_well : Text → Bool
ends_well [] = true
ends_well (c ∷ s) = if is_empty s then not (is_space c) else ends_well s

starts_well-strip_start : (t : Text) → starts_well (strip_start t) ≡ true
starts_well-strip_start [] = refl
starts_well-strip_start (c ∷ s) = ground (arith, starts_well-strip_start s)

starts_well-strip_end : (t : Text) → starts_well t ≡ true → starts_well (strip_end t) ≡ true
starts_well-strip_end [] h = refl
starts_well-strip_end (c ∷ s) h = ground arith

ends_well-strip_end : (t : Text) → ends_well (strip_end t) ≡ true
ends_well-strip_end [] = refl
ends_well-strip_end (c ∷ s) = ground (arith, ends_well-strip_end s)

is_empty-strip_end : (t : Text) → is_empty (strip_end t) ≡ all_space t
unfolding all_space
is_empty-strip_end [] = refl
is_empty-strip_end (c ∷ s) = ground (arith, is_empty-strip_end s)

all_space-strip_start : (t : Text) → all_space (strip_start t) ≡ all_space t
unfolding all_space
all_space-strip_start [] = refl
all_space-strip_start (c ∷ s) = ground (arith, all_space-strip_start s)

pub is_empty-strip : (t : Text) → is_empty (strip t) ≡ all_space t
unfolding strip
is_empty-strip t = is_empty-strip_end (strip_start t) ∙ all_space-strip_start t

pub starts_well-strip : (t : Text) → starts_well (strip t) ≡ true
unfolding strip
starts_well-strip t = starts_well-strip_end (strip_start t) (starts_well-strip_start t)

pub ends_well-strip : (t : Text) → ends_well (strip t) ≡ true
unfolding strip
ends_well-strip t = ends_well-strip_end (strip_start t)

padded : strip (32 ∷ 97 ∷ 32 ∷ 98 ∷ 10 ∷ []) ≡ 97 ∷ 32 ∷ 98 ∷ []
unfolding strip
padded = refl
