-- ===== src/Prelude/Effects.antt =====
-- Code that changes a state and may raise: what was changed before an exception stays changed.

use fleet_telemetry_system.Prelude.Exceptions.{Outcome, ok, raised}

abbrev pub Effect : Type 0 → Type 0 → Type 0
Effect S A = S → Outcome A × S

module _ {S A : Type 0} where
  abbrev pub pure : A → Effect S A
  pure a s = (ok a, s)

  abbrev pub lift : Outcome A → Effect S A
  lift r s = (r, s)

module _ {S A B : Type 0} where
  abbrev pub continue : Outcome A → (A → Effect S B) → Effect S B
  continue (ok a) f s = f a s
  continue (raised e) f s = (raised e, s)

  infixl 5 ◌>>=◌ ◌>>◌
  unfoldable pub ◌>>=◌ : Effect S A → (A → Effect S B) → Effect S B
  ◌>>=◌ m f s = let (r, s') = m s in continue r f s'

  abbrev pub ◌>>◌ : Effect S A → Effect S B → Effect S B
  m >> n = m >>= λ _. n
