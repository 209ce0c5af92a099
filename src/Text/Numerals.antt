-- ===== src/Text/Numerals.antt =====
-- `int(text)` in base ten: surrounding white space, a sign, and digits that single underscores may
-- separate. Of the digits and white space beyond ASCII nothing is modelled.
use fleet_telemetry_system.Prelude.{
  ℕ, zero, suc, ◌+◌, ◌-◌, ◌*◌, Bool, true, false, ◌&&◌, ◌≡◌, refl, [], ◌∷◌, Outcome, ok, raised,
  value_error, ◌>>=◌, leb, eqb, if◌then◌else◌,
}
use fleet_telemetry_system.Prelude.Int.{ℤ, pos, negsuc}
use fleet_telemetry_system.Text.Points.{Text}
use fleet_telemetry_system.Text.Spaces.{is_space, all_space, strip_start}

is_digit : ℕ → Bool
is_digit c = leb 48 c && leb c 57

-- The digits after the first: `after` says that the character before was a digit.
digits : Bool → ℕ → Text → Outcome ℕ
unfolding is_digit all_space
digits after n [] = if after then ok n else raised value_error
digits after n (c ∷ s) =
    let next = digits true (n * 10 + (c - 48)) s in
    let gap = digits false n s in
    if is_digit c
    then next
    else if eqb c 95 && after
    then gap
    else if after && all_space (c ∷ s)
    then ok n
    else raised value_error

negate : ℕ → ℤ
negate zero = pos 0
negate (suc n) = negsuc n

signed : Text → Outcome ℤ
unfolding digits negate
signed [] = raised value_error
signed (c ∷ s) =
    let minus = digits false 0 s >>= (λ n. ok (negate n)) in
    let plus = digits false 0 s >>= (λ n. ok (pos n)) in
    let bare = digits false 0 (c ∷ s) >>= (λ n. ok (pos n)) in
    if eqb c 45 then minus else if eqb c 43 then plus else bare

unfoldable pub int_of : Text → Outcome ℤ
unfolding signed is_space
int_of t = signed (strip_start t)

seven : int_of (32 ∷ 48 ∷ 49 ∷ 95 ∷ 50 ∷ 32 ∷ []) ≡ ok (pos 12)
unfolding int_of
seven = refl

double_gap : int_of (49 ∷ 95 ∷ 95 ∷ 50 ∷ []) ≡ raised value_error
unfolding int_of
double_gap = refl
