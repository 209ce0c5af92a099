-- ===== src/Prelude/Lists.antt =====
-- Lists measured by native numbers, filtered by Boolean tests, and predicates on all members.
use Prim.Native.Nat.{ℕ, suc, ◌+◌, ◌<◌, ◌≤◌}
use mathlib.Core.Path.{◌≡◌, refl}
use mathlib.Core.Bool.{Bool, true, false, ◌||◌, ◌&&◌}
use mathlib.Core.List.{List, [], ◌∷◌, ◌++◌, map}
use mathlib.Core.Option.{Option, none, some}
use native.Mathlib.Omega.{arith}
use fleet_telemetry_system.Prelude.Tests.{if◌then◌else◌}

module _ {ℓ} {A : Type ℓ} where
  abbrev pub length : List A → ℕ
  length [] = 0
  length (x ∷ xs) = suc (length xs)

  pub length-append : (xs ys : List A) → length (xs ++ ys) ≡ length xs + length ys
  length-append [] ys = omega arith
  length-append (x ∷ xs) ys = omega (arith, length-append xs ys)

  -- The rows of a table for which a WHERE clause holds.
  abbrev pub select : (A → Bool) → List A → List A
  select p [] = []
  select p (x ∷ xs) = if p x then x ∷ select p xs else select p xs

  abbrev pub count : (A → Bool) → List A → ℕ
  count p [] = 0
  count p (x ∷ xs) = if p x then suc (count p xs) else count p xs

  abbrev pub any : (A → Bool) → List A → Bool
  any p [] = false
  any p (x ∷ xs) = p x || any p xs

  abbrev pub head? : List A → Option A
  head? [] = none
  head? (x ∷ xs) = some x

  -- UPDATE … SET … WHERE
  abbrev pub update_where : (A → Bool) → (A → A) → List A → List A
  update_where p f [] = []
  update_where p f (x ∷ xs) = (if p x then f x else x) ∷ update_where p f xs

  abbrev pub All {κ} : (A → Type κ) → List A → Type κ
  All P [] = Unit
  All P (x ∷ xs) = P x × All P xs

module _ {ℓ} {A : Type ℓ} where
  pub count-append : (p : A → Bool) (xs ys : List A) → count p (xs ++ ys) ≡ count p xs + count p ys
  count-append p [] ys = omega arith
  count-append p (x ∷ xs) ys = ground (arith, count-append p xs ys)

  pub select-append :
      (p : A → Bool) (xs ys : List A) → select p (xs ++ ys) ≡ select p xs ++ select p ys
  select-append p [] ys = refl
  select-append p (x ∷ xs) ys = ground (arith, select-append p xs ys)

  pub length-select : (p : A → Bool) (xs : List A) → length (select p xs) ≡ count p xs
  length-select p [] = refl
  length-select p (x ∷ xs) = ground (arith, length-select p xs)

  pub any-append : (p : A → Bool) (xs ys : List A) → any p (xs ++ ys) ≡ (any p xs || any p ys)
  any-append p [] ys = refl
  any-append p (x ∷ xs) ys = ground (arith, any-append p xs ys)

  pub any-eq_false : (p : A → Bool) (xs : List A) → count p xs ≡ 0 → any p xs ≡ false
  any-eq_false p [] h = refl
  any-eq_false p (x ∷ xs) h = ground (arith, any-eq_false p xs)

  pub any-eq_true : (p : A → Bool) (xs : List A) → any p xs ≡ true → 0 < count p xs
  any-eq_true p [] h = ground arith
  any-eq_true p (x ∷ xs) h = ground (arith, any-eq_true p xs)

-- Counts and selections after an UPDATE.
module _ {ℓ} {A : Type ℓ} (p : A → Bool) (f : A → A) where
  pub count-update_where_zero :
      (xs : List A) → ((x : A) → p (f x) ≡ false) → count p (update_where p f xs) ≡ 0
  count-update_where_zero [] h = refl
  count-update_where_zero (x ∷ xs) h = ground (arith, h x, count-update_where_zero xs h)

  pub count-update_where-le :
      (q : A → Bool) (xs : List A)
      → ((x : A) → q (f x) ≡ true → q x ≡ true)
      → count q (update_where p f xs) ≤ count q xs
  count-update_where-le q [] h = omega arith
  count-update_where-le q (x ∷ xs) h = ground (arith, h x, count-update_where-le q xs h)

  pub select-update_where_other :
      (q : A → Bool) (xs : List A)
      → ((x : A) → p x ≡ true → (q x ≡ false) × (q (f x) ≡ false))
      → select q (update_where p f xs) ≡ select q xs
  select-update_where_other q [] h = refl
  select-update_where_other q (x ∷ xs) h = ground (arith, h x, select-update_where_other q xs h)

  pub map-update_where {κ} :
      {B : Type κ} (g : A → B) (xs : List A)
      → ((x : A) → g (f x) ≡ g x)
      → map g (update_where p f xs) ≡ map g xs
  map-update_where g [] h = refl
  map-update_where g (x ∷ xs) h = ground (arith, h x, map-update_where g xs h)

module _ {ℓ} {A : Type ℓ} where
  pub select-select :
      (q r : A → Bool) (xs : List A)
      → ((x : A) → q x ≡ true → r x ≡ true)
      → select q (select r xs) ≡ select q xs
  select-select q r [] h = refl
  select-select q r (x ∷ xs) h = ground (arith, h x, select-select q r xs h)

  pub count-select :
      (q p : A → Bool) (xs : List A) → count (λ x. q x && p x) xs ≡ count p (select q xs)
  count-select q p [] = refl
  count-select q p (x ∷ xs) = ground (arith, count-select q p xs)

  pub count_of_any-false : (p : A → Bool) (xs : List A) → any p xs ≡ false → count p xs ≡ 0
  count_of_any-false p [] h = refl
  count_of_any-false p (x ∷ xs) h = ground (arith, count_of_any-false p xs)

  pub any_of_count : (p : A → Bool) (xs : List A) → 0 < count p xs → any p xs ≡ true
  any_of_count p [] h = absurd (omega arith)
  any_of_count p (x ∷ xs) h = ground (arith, any_of_count p xs)
