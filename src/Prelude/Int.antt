-- ===== src/Prelude/Int.antt =====
-- Signed integers over the native numbers: differences of times, and the integers of the protocol.
use Prim.Native.Nat.{ℕ, suc, ◌+◌, ◌-◌}
use mathlib.Core.Path.{◌≡◌, refl}
use mathlib.Core.Bool.{Bool, true, false}
use native.Mathlib.Omega.{arith}
use fleet_telemetry_system.Prelude.Tests.{leb, eqb, if◌then◌else◌}

-- `negsuc n` is -(n + 1).
pub data ℤ : Type 0 where
  pos : ℕ → ℤ
  negsuc : ℕ → ℤ

-- a - b, as an integer.
abbrev pub sub_ℕ : ℕ → ℕ → ℤ
sub_ℕ a b = if leb b a then pos (a - b) else negsuc (b - a - 1)

-- Sum of two integers.
abbrev pub add_ℤ : ℤ → ℤ → ℤ
add_ℤ (pos a) (pos b) = pos (a + b)
add_ℤ (pos a) (negsuc b) = sub_ℕ a (suc b)
add_ℤ (negsuc a) (pos b) = sub_ℕ b (suc a)
add_ℤ (negsuc a) (negsuc b) = negsuc (suc (a + b))

abbrev pub le_ℤ : ℤ → ℤ → Bool
le_ℤ (pos a) (pos b) = leb a b
le_ℤ (pos a) (negsuc b) = false
le_ℤ (negsuc a) (pos b) = true
le_ℤ (negsuc a) (negsuc b) = leb b a

abbrev pub eq_ℤ : ℤ → ℤ → Bool
eq_ℤ (pos a) (pos b) = eqb a b
eq_ℤ (negsuc a) (negsuc b) = eqb a b
eq_ℤ _ _ = false

abbrev pub max_ℤ : ℤ → ℤ → ℤ
max_ℤ a b = if le_ℤ a b then b else a

pub le_ℤ_refl : (a : ℤ) → le_ℤ a a ≡ true
le_ℤ_refl (pos a) = ground arith
le_ℤ_refl (negsuc a) = ground arith

pub le_ℤ_trans : (a b c : ℤ) → le_ℤ a b ≡ true → le_ℤ b c ≡ true → le_ℤ a c ≡ true
le_ℤ_trans (pos a) (pos b) (pos c) h k = ground arith
le_ℤ_trans (pos a) (pos b) (negsuc c) h k = cc
le_ℤ_trans (pos a) (negsuc b) c h k = cc
le_ℤ_trans (negsuc a) b (pos c) h k = refl
le_ℤ_trans (negsuc a) (pos b) (negsuc c) h k = cc
le_ℤ_trans (negsuc a) (negsuc b) (negsuc c) h k = ground arith

pub le_ℤ-max_left : (a b : ℤ) → le_ℤ a (max_ℤ a b) ≡ true
le_ℤ-max_left a b = ground (arith, le_ℤ_refl a)

pub le_ℤ-max_right : (a b : ℤ) → le_ℤ b (max_ℤ a b) ≡ true
le_ℤ-max_right (pos a) (pos b) = ground arith
le_ℤ-max_right (pos a) (negsuc b) = refl
le_ℤ-max_right (negsuc a) (pos b) = ground arith
le_ℤ-max_right (negsuc a) (negsuc b) = ground arith
