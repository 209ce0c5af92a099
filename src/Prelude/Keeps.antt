-- ===== src/Prelude/Keeps.antt =====
-- Rules for a property of the state that code keeps, whether it returns or raises.

use mathlib.Core.Bool.{Bool, true, false}
use mathlib.Core.Path.{◌≡◌, refl}
use fleet_telemetry_system.Prelude.Tests.{if◌then◌else◌}
use fleet_telemetry_system.Prelude.Exceptions.{Outcome, ok, raised}
use fleet_telemetry_system.Prelude.Effects.{Effect, pure, lift, continue, ◌>>=◌}

pub record Keeps {State Answer : Type 0} (Holds : State → Type 0) (code : Effect State Answer)
    : Type 0 where
  pub at : (before : State) → Holds before → Holds (code before).1

module _ {State X : Type 0} {Holds : State → Type 0} where
  pub Keeps-pure : (x : X) → Keeps Holds (pure {S = State} x)
  Keeps-pure x = record { at = λ before held. held }

  pub Keeps-lift : (answer : Outcome X) → Keeps Holds (lift {S = State} answer)
  Keeps-lift answer = record { at = λ before held. held }

  pub Keeps-if :
      (test : Bool) {on_true on_false : Effect State X}
      → Keeps Holds on_true
      → Keeps Holds on_false
      → Keeps Holds (if test then on_true else on_false)
  Keeps-if true h k = h
  Keeps-if false h k = k

module _ {State X Y : Type 0} {Holds : State → Type 0} where
  go_on :
      (answer : Outcome X) (next : X → Effect State Y) (between : State)
      → ((x : X) → Keeps Holds (next x))
      → Holds between
      → Holds (continue answer next between).1
  go_on (ok x) next between later held = (later x).at between held
  go_on (raised e) next between later held = held

  pub Keeps-bind :
      {first : Effect State X} {next : X → Effect State Y}
      → Keeps Holds first
      → ((x : X) → Keeps Holds (next x))
      → Keeps Holds (first >>= next)
  unfolding ◌>>=◌
  Keeps-bind {first} {next} now later = record {
    at = λ before held. go_on (first before).0 next (first before).1 later (now.at before held);
  }

  -- Code after an answer that it knows.
  pub Keeps-bind_answer :
      (answer : Outcome X) {next : X → Effect State Y}
      → ((x : X) → answer ≡ ok x → Keeps Holds (next x))
      → Keeps Holds (lift {S = State} answer >>= next)
  unfolding ◌>>=◌
  Keeps-bind_answer (ok x) later = record { at = λ before held. (later x refl).at before held }
  Keeps-bind_answer (raised e) later = record { at = λ before held. held }
