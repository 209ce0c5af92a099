-- ===== src/Cdc/Decode/Adds.antt =====
-- Rules for how many events code publishes.
use mathlib.Core.Path.{subst}
use fleet_telemetry_system.Prelude.{
  Bool, true, false, List, ◌∷◌, ◌≡◌, ◌⊎◌, inl, refl, Outcome, ok, raised, if◌then◌else◌,
}
use fleet_telemetry_system.Prelude.Effects.{continue, ◌>>=◌}
use fleet_telemetry_system.Prelude.Keeps.{Keeps}
use fleet_telemetry_system.Cdc.Event.{Envelope}
use fleet_telemetry_system.Cdc.Decode.{Consumer, Consuming}

abbrev pub Silent : {F A : Type 0} → Consuming F A → Type 0
Silent {F} {A} m = (l : List (Envelope F)) → Keeps (λ s. s.published ≡ l) m

-- The events published before and after: none more if it raises, and at most one, of which `Q` holds,
-- if it returns.
unfoldable pub Adds :
    {F A : Type 0} → (Envelope F → Type 0) → List (Envelope F) → Outcome A × Consumer F → Type 0
Adds Q l (ok a, s) = (s.published ≡ l) ⊎ ((e : _) × (s.published ≡ e ∷ l) × Q e)
Adds Q l (raised _, s) = s.published ≡ l

pub record Publishes {F A : Type 0} (Q : Envelope F → Type 0) (m : Consuming F A) : Type 0 where
  pub at : (s : Consumer F) → Adds Q s.published (m s)

module _ {F A : Type 0} where
  silent-Adds :
      (Q : Envelope F → Type 0) (l : List (Envelope F)) (r : Outcome A × Consumer F)
      → r.1.published ≡ l
      → Adds Q l r
  unfolding Adds
  silent-Adds Q l (ok a, s) h = inl h
  silent-Adds Q l (raised e, s) h = h

module _ {F A : Type 0} {Q : Envelope F → Type 0} where
  pub Publishes-Silent : {m : Consuming F A} → Silent m → Publishes Q m
  Publishes-Silent {m} h = record {
    at = λ s. silent-Adds Q s.published (m s) ((h s.published).at s refl);
  }

  pub Publishes-if :
      (b : Bool) {m n : Consuming F A}
      → Publishes Q m
      → Publishes Q n
      → Publishes Q (if b then m else n)
  Publishes-if true h k = h
  Publishes-if false h k = k

module _ {F A B : Type 0} {Q : Envelope F → Type 0} where
  continue-Adds :
      (l : List (Envelope F)) (r : Outcome A) (f : A → Consuming F B) (s : Consumer F)
      → s.published ≡ l
      → ((a : A) → r ≡ ok a → Publishes Q (f a))
      → Adds Q l (continue r f s)
  unfolding Adds
  continue-Adds l (ok a) f s h k = subst (λ l. Adds Q l (f a s)) h ((k a refl).at s)
  continue-Adds l (raised e) f s h k = h

  pub Publishes-bind_result :
      {m : Consuming F A} {f : A → Consuming F B}
      → Silent m
      → ((s : Consumer F) (a : A) → (m s).0 ≡ ok a → Publishes Q (f a))
      → Publishes Q (m >>= f)
  unfolding ◌>>=◌
  Publishes-bind_result {m} {f} h k = record {
    at = λ s. continue-Adds s.published (m s).0 f (m s).1 ((h s.published).at s refl) (λ a. k s a);
  }

  pub Publishes-bind :
      {m : Consuming F A} {f : A → Consuming F B}
      → Silent m
      → ((a : A) → Publishes Q (f a))
      → Publishes Q (m >>= f)
  Publishes-bind h k = Publishes-bind_result h (λ s a e. k a)
