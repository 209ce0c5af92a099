-- ===== src/Text/Split.antt =====
-- `text.split(",")`, and `",".join(parts)`.
use fleet_telemetry_system.Prelude.{
  ℕ, Bool, true, false, List, [], ◌∷◌, ◌++◌, ◌≡◌, refl, ap, ◌∙◌, append-nil, arith, All, eqb,
  if◌then◌else◌,
}
use fleet_telemetry_system.Text.Points.{Text}

abbrev pub comma : ℕ
comma = 44

-- A character more at the start of the first part.
abbrev pub cons_first : ℕ → List Text → List Text
cons_first c [] = (c ∷ []) ∷ []
cons_first c (p ∷ ps) = (c ∷ p) ∷ ps

unfoldable pub split : Text → List Text
split [] = [] ∷ []
split (c ∷ t) = if eqb c comma then [] ∷ split t else cons_first c (split t)

-- The parts after the first one, each behind a comma.
abbrev pub join_rest : List Text → Text
join_rest [] = []
join_rest (p ∷ ps) = comma ∷ (p ++ join_rest ps)

abbrev pub join : Text → List Text → Text
join p ps = p ++ join_rest ps

abbrev pub has_comma : Text → Bool
has_comma [] = false
has_comma (c ∷ t) = if eqb c comma then true else has_comma t

abbrev pub LacksComma : Text → Type 0
LacksComma t = has_comma t ≡ false

split-append :
    (p rest : Text) (q : Text) (qs : List Text)
    → LacksComma p
    → split rest ≡ q ∷ qs
    → split (p ++ rest) ≡ (p ++ q) ∷ qs
unfolding split
split-append [] rest q qs h e = e
split-append (c ∷ p) rest q qs h e = ground (arith, split-append p rest q qs, e, h)

-- A text is split into the parts that it was joined from, if none of them has a comma.
pub split-join :
    (p : Text) (ps : List Text) → LacksComma p → All LacksComma ps → split (join p ps) ≡ p ∷ ps
unfolding split
split-join p [] h all = split-append p [] [] [] h refl ∙ ap (λ t. t ∷ []) (append-nil p)
split-join p (q ∷ ps) h (hq, all) =
    split-append p (comma ∷ join q ps) [] (q ∷ ps) h (ap (λ l. [] ∷ l) (split-join q ps hq all))
    ∙ ap (λ t. t ∷ q ∷ ps) (append-nil p)
