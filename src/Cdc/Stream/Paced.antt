-- ===== src/Cdc/Stream/Paced.antt =====
-- How often an idle stream sends feedback.

use fleet_telemetry_system.Prelude.{
  ◌+◌, ◌*◌, ◌≤◌, Bool, true, false, List, [], ◌∷◌, map, ◌≡◌, refl, arith, Outcome, ok, raised,
  length, database_error, if◌then◌else◌,
}
use fleet_telemetry_system.Prelude.Effects.{pure, continue, ◌>>=◌}
use fleet_telemetry_system.Text.{Text}
use fleet_telemetry_system.Cdc.Decode.{Consumer, call}
use fleet_telemetry_system.Cdc.Stream.{nothing, now, confirm, feedback_at, send_feedback, pump}

-- Each update sent between the two states moved the time of the last feedback by a second or more.
pub record IsPaced {F : Type 0} (s s' : Consumer F) : Type 0 where
  pub seconds :
      s.last_feedback + 1000000 * length s'.sent ≤ s'.last_feedback + 1000000 * length s.sent

module _ {F : Type 0} where
  IsPaced-trans : (a b c : Consumer F) → IsPaced a b → IsPaced b c → IsPaced a c
  IsPaced-trans a b c h k = record { seconds = omega (arith, h.seconds, k.seconds) }

  record IsCalm (s : Consumer F) (r : Outcome (Unit {0}) × Consumer F) : Type 0 where
    returns : r.0 ≡ ok tt
    up : r.1.outages ≡ []
    paced : IsPaced s r.1

  send_feedback-IsCalm : (s : Consumer F) → s.outages ≡ [] → IsCalm s (send_feedback false s)
  unfolding send_feedback now feedback_at confirm call ◌>>=◌
  send_feedback-IsCalm s h = record {
    returns = ground arith;
    up = ground arith;
    paced = record { seconds = ground arith };
  }

  wait-IsCalm :
      (readable : Bool) (s : Consumer F)
      → s.outages ≡ []
      → IsCalm s ((if readable then call database_error else pure tt) s)
  unfolding call
  wait-IsCalm true s h = record {
    returns = ground arith;
    up = ground arith;
    paced = record { seconds = ground arith };
  }
  wait-IsCalm false s h = record {
    returns = refl;
    up = h;
    paced = record { seconds = omega arith };
  }

  continue-IsCalm :
      (s : Consumer F) (r : Outcome (Unit {0}) × Consumer F)
      (next : Consumer F → Outcome (Unit {0}) × Consumer F)
      → IsCalm s r
      → ((s₁ : Consumer F) → s₁.outages ≡ [] → IsCalm s₁ (next s₁))
      → IsCalm s (continue r.0 (λ _. next) r.1)
  continue-IsCalm s (ok tt, s₁) next h k =
      let rest = k s₁ h.up in
      record {
        returns = rest.returns;
        up = rest.up;
        paced = IsPaced-trans s s₁ (next s₁).1 h.paced rest.paced;
      }
  continue-IsCalm s (raised e, s₁) next h k = ground (arith, h.returns)

module _ {F : Type 0} (float_of : Text → Outcome F) where
  idle-IsCalm :
      (readables : List Bool) (s : Consumer F)
      → s.outages ≡ []
      → IsCalm s (pump float_of (map nothing readables) s)
  unfolding pump ◌>>=◌
  idle-IsCalm [] s h = record { returns = refl; up = h; paced = record { seconds = omega arith } }
  idle-IsCalm (readable ∷ readables) s h =
      continue-IsCalm s ((if readable then call database_error else pure tt) s)
        (λ s₁.
          continue (send_feedback false s₁).0 (λ _. pump float_of (map nothing readables))
            (send_feedback false s₁).1)
        (wait-IsCalm readable s h)
        (λ s₁ up.
          continue-IsCalm s₁ (send_feedback false s₁) (pump float_of (map nothing readables))
            (send_feedback-IsCalm s₁ up) (idle-IsCalm readables))

  -- While nothing arrives and no call fails, the loop goes on to the end of the polls, and of the
  -- updates that it sends each one comes a second or more after the last feedback: their number, in
  -- seconds, is at most the time by which the last feedback has moved.
  pub pump-IsPaced :
      (readables : List Bool) (s : Consumer F)
      → s.outages ≡ []
      → ((pump float_of (map nothing readables) s).0 ≡ ok tt)
        × IsPaced s (pump float_of (map nothing readables) s).1
  pump-IsPaced readables s h = let calm = idle-IsCalm readables s h in (calm.returns, calm.paced)
