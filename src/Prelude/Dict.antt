-- ===== src/Prelude/Dict.antt =====
-- Keyed tables as association lists: a row is found, upserted or updated by its primary key.
use Prim.Native.Nat.{ℕ, ◌+◌}
use Prim.Native.String.{String}
use mathlib.Core.Path.{◌≡◌, refl}
use mathlib.Core.List.{List, [], ◌∷◌}
use mathlib.Core.Option.{Option, none, some}
use native.Mathlib.Omega.{arith}
use text.Mathlib.Text.{◌==◌}
use text.Mathlib.TextEquality.{eq_iff}
use fleet_telemetry_system.Prelude.Tests.{if◌then◌else◌}
use fleet_telemetry_system.Prelude.Lists.{length}

abbrev pub Dict {ℓ} : Type ℓ → Type ℓ
Dict V = List (String × V)

module _ {ℓ} {V : Type ℓ} where
  unfoldable pub lookup : String → Dict V → Option V
  lookup k [] = none
  lookup k ((j, v) ∷ m) = if j == k then some v else lookup k m

  -- INSERT … ON CONFLICT (key) DO UPDATE
  unfoldable pub upsert : String → V → Dict V → Dict V
  upsert k v [] = (k, v) ∷ []
  upsert k v ((j, w) ∷ m) = if j == k then (k, v) ∷ m else (j, w) ∷ upsert k v m

  abbrev pub when_present : Option V → V → Option V
  when_present none v = none
  when_present (some _) v = some v

  pub lookup-upsert :
      (k j : String) (v : V) (m : Dict V)
      → lookup j (upsert k v m) ≡ (if k == j then some v else lookup j m)
  unfolding lookup upsert
  lookup-upsert k j v [] = refl
  lookup-upsert k j v ((i, w) ∷ m) =
      ground (arith, eq_iff k j, eq_iff i k, eq_iff i j, lookup-upsert k j v m)

  -- How many rows an upsert adds: none for a key that is present.
  abbrev pub added : Option V → ℕ
  added none = 1
  added (some _) = 0

  pub length-upsert :
      (k : String) (v : V) (m : Dict V) → length (upsert k v m) ≡ length m + added (lookup k m)
  unfolding lookup upsert
  length-upsert k v [] = refl
  length-upsert k v ((i, w) ∷ m) = ground (arith, length-upsert k v m)
