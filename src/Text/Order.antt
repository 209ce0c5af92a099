-- ===== src/Text/Order.antt =====
-- The order of `str`: by the code points, from the left.
use fleet_telemetry_system.Prelude.{
  ◌≡◌, refl, Bool, true, false, [], ◌∷◌, arith, ltb, eqb, if◌then◌else◌,
}
use fleet_telemetry_system.Prelude.Sorting.{IsTotalOrder}
use fleet_telemetry_system.Text.Points.{Text, codes}
use text.Mathlib.TextEquality.{Char-path}
use Prim.Native.String.{String}

abbrev pub le_text : Text → Text → Bool
le_text [] t = true
le_text (c ∷ s) [] = false
le_text (c ∷ s) (d ∷ t) =
    let rest = le_text s t in if ltb c d then true else if eqb c d then rest else false

le_text-total : (s t : Text) → le_text s t ≡ false → le_text t s ≡ true
le_text-total [] t h = ground arith
le_text-total (c ∷ s) [] h = refl
le_text-total (c ∷ s) (d ∷ t) h = ground (arith, le_text-total s t)

le_text_trans : (s t u : Text) → le_text s t ≡ true → le_text t u ≡ true → le_text s u ≡ true
le_text_trans [] t u h k = refl
le_text_trans (c ∷ s) [] u h k = ground arith
le_text_trans (c ∷ s) (d ∷ t) [] h k = ground arith
le_text_trans (c ∷ s) (d ∷ t) (e ∷ u) h k = ground (arith, le_text_trans s t u)

pub le_text-IsTotalOrder : IsTotalOrder le_text
le_text-IsTotalOrder = record { total = le_text-total; trans = le_text_trans }

pub le_text-antisym : (s t : Text) → le_text s t ≡ true → le_text t s ≡ true → s ≡ t
le_text-antisym [] [] h k = refl
le_text-antisym [] (d ∷ t) h k = ground arith
le_text-antisym (c ∷ s) [] h k = ground arith
le_text-antisym (c ∷ s) (d ∷ t) h k = ground (arith, le_text-antisym s t)

pub codes-injective : (s t : String) → codes s ≡ codes t → s ≡ t
codes-injective String.[] String.[] h = refl
codes-injective String.[] (String.◌∷◌ d t) h = cc
codes-injective (String.◌∷◌ c s) String.[] h = cc
codes-injective (String.◌∷◌ c s) (String.◌∷◌ d t) h =
    let first : c ≡ d = Char-path c d cc in
    let rest : s ≡ t = codes-injective s t cc in rw (first, rest) refl
