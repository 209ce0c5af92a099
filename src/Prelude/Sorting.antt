-- ===== src/Prelude/Sorting.antt =====
-- ORDER BY: a stable insertion sort, by an order or by a number.
use Prim.Native.Nat.{ℕ, ◌≤◌}
use mathlib.Core.Path.{◌≡◌, refl}
use mathlib.Core.Bool.{Bool, true, false}
use mathlib.Core.List.{List, [], ◌∷◌}
use native.Mathlib.Omega.{arith}
use fleet_telemetry_system.Prelude.Tests.{leb, if◌then◌else◌, Bool-cases}
use fleet_telemetry_system.Prelude.Lists.{count, select, All}
use mathlib.Core.Logic.{inl, inr}

-- Rows in an order: each is before all that follow it.
abbrev pub Pairwise {ℓ} : {A : Type ℓ} → (A → A → Bool) → List A → Type ℓ
Pairwise le [] = Unit
Pairwise le (x ∷ xs) = All (λ y. le x y ≡ true) xs × Pairwise le xs

-- What ORDER BY needs of an order.
pub record IsTotalOrder {ℓ} {A : Type ℓ} (le : A → A → Bool) : Type ℓ where
  pub total : (a b : A) → le a b ≡ false → le b a ≡ true
  pub trans : (a b c : A) → le a b ≡ true → le b c ≡ true → le a c ≡ true

module _ {ℓ} {A : Type ℓ} (le : A → A → Bool) where
  abbrev pub insert_with : A → List A → List A
  insert_with x [] = x ∷ []
  insert_with x (y ∷ ys) = let later = insert_with x ys in if le x y then x ∷ y ∷ ys else y ∷ later

  abbrev pub sort_with : List A → List A
  sort_with [] = []
  sort_with (x ∷ xs) = insert_with x (sort_with xs)

  count-insert_with :
      (p : A → Bool) (x : A) (ys : List A) → count p (insert_with x ys) ≡ count p (x ∷ ys)
  count-insert_with p x [] = refl
  count-insert_with p x (y ∷ ys) = ground (arith, count-insert_with p x ys)

  pub count-sort_with : (p : A → Bool) (xs : List A) → count p (sort_with xs) ≡ count p xs
  count-sort_with p [] = refl
  count-sort_with p (x ∷ xs) =
      ground (arith, count-insert_with p x (sort_with xs), count-sort_with p xs)

  All-insert_with :
      (P : A → Type 0) (x : A) (ys : List A) → P x → All P ys → All P (insert_with x ys)
  All-insert_with P x [] h k = (h, k)
  All-insert_with P x (y ∷ ys) h k = elim (Bool-cases (le x y)) [
    | inl before ↦ rw before (h, k)
    | inr after ↦ rw after (k.0, All-insert_with P x ys h k.1)
  ]

  All-before :
      (x y : A) (ys : List A)
      → IsTotalOrder le
      → le x y ≡ true
      → All (λ z. le y z ≡ true) ys
      → All (λ z. le x z ≡ true) ys
  All-before x y [] o h k = tt
  All-before x y (z ∷ ys) o h k = (o.trans x y z h k.0, All-before x y ys o h k.1)

  insert_with-Pairwise :
      (x : A) (ys : List A) → IsTotalOrder le → Pairwise le ys → Pairwise le (insert_with x ys)
  insert_with-Pairwise x [] o h = (tt, tt)
  insert_with-Pairwise x (y ∷ ys) o h = elim (Bool-cases (le x y)) [
    | inl before ↦ rw before ((before, All-before x y ys o before h.0), h)
    | inr after ↦ rw after (
      All-insert_with (λ z. le y z ≡ true) x ys (o.total x y after) h.0,
      insert_with-Pairwise x ys o h.1,
    )
  ]

  pub sort_with-Pairwise : (xs : List A) → IsTotalOrder le → Pairwise le (sort_with xs)
  sort_with-Pairwise [] o = tt
  sort_with-Pairwise (x ∷ xs) o = insert_with-Pairwise x (sort_with xs) o (sort_with-Pairwise xs o)

module _ {ℓ} {A : Type ℓ} (le : A → A → Bool) (keep : A → Bool) where
  select-All : (P : A → Type 0) (xs : List A) → All P xs → All P (select keep xs)
  select-All P [] h = tt
  select-All P (x ∷ xs) h = elim (Bool-cases (keep x)) [
    | inl kept ↦ rw kept (h.0, select-All P xs h.1)
    | inr dropped ↦ rw dropped (select-All P xs h.1)
  ]

  pub select-Pairwise : (xs : List A) → Pairwise le xs → Pairwise le (select keep xs)
  select-Pairwise [] h = tt
  select-Pairwise (x ∷ xs) h = elim (Bool-cases (keep x)) [
    | inl kept ↦ rw kept (select-All (λ y. le x y ≡ true) xs h.0, select-Pairwise xs h.1)
    | inr dropped ↦ rw dropped (select-Pairwise xs h.1)
  ]

module _ {ℓ} {A : Type ℓ} (key : A → ℕ) where
  abbrev pub sort_by : List A → List A
  sort_by = sort_with (λ x y. leb (key x) (key y))

  -- No key is above that of the next row.
  abbrev pub IsAscending : List A → Type 0
  IsAscending [] = Unit
  IsAscending (x ∷ []) = Unit
  IsAscending (x ∷ y ∷ ys) = (key x ≤ key y) × IsAscending (y ∷ ys)

  insert_by-IsAscending :
      (x : A) (ys : List A)
      → IsAscending ys
      → IsAscending (insert_with (λ x y. leb (key x) (key y)) x ys)
  insert_by-IsAscending x [] h = tt
  insert_by-IsAscending x (y ∷ []) h = ground arith
  insert_by-IsAscending x (y ∷ z ∷ zs) h = ground (arith, insert_by-IsAscending x (z ∷ zs) h.1)

  pub sort_by-IsAscending : (xs : List A) → IsAscending (sort_by xs)
  sort_by-IsAscending [] = tt
  sort_by-IsAscending (x ∷ xs) = insert_by-IsAscending x (sort_by xs) (sort_by-IsAscending xs)

  pub count-sort_by : (p : A → Bool) (xs : List A) → count p (sort_by xs) ≡ count p xs
  count-sort_by = count-sort_with (λ x y. leb (key x) (key y))
