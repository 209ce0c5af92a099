-- ===== src/Frontend/Subscriber.antt =====
-- `_redis_subscriber` of app/frontend_api.py, and the `lifespan` that starts and cancels it. What other
-- tasks do during a broadcast are its turns, as in Frontend.
pub mod Forwards
use fleet_telemetry_system.Prelude.{
  ℕ, Bool, true, false, Option, none, some, List, [], ◌∷◌, Outcome, ok, raised, Exception,
  cancelled_error,
}
use fleet_telemetry_system.Prelude.Dict.{Dict}
use fleet_telemetry_system.Text.{Text}
use fleet_telemetry_system.Text.Utf8.{decode}
use fleet_telemetry_system.Frontend.{ConnectionRegistry, Turn, fan_out}

-- `message["data"]`
pub data Data : Type 0 where
  text : Text → Data
  bytes : List ℕ → Data

-- What `pubsub.listen()` yields: a message, or another notice, such as that of the subscription.
pub data Item : Type 0 where
  message : Data → Item
  notice : Item

-- How `listen()` ends: with an exception of the connection, or it is cancelled.
pub data Ending : Type 0 where
  breaks : Exception → Ending
  cancelled : Ending

unfoldable pub text_of : Data → Outcome Text
text_of (text t) = ok t
text_of (bytes b) = decode b

abbrev pub ended : Ending → Outcome (Unit {0})
ended (breaks e) = raised e
ended cancelled = raised cancelled_error

-- How the task ended, whether it has unsubscribed, and the registry; `none` in the midst of a broadcast.
abbrev pub Subscribed : Type 0
Subscribed = Option (Outcome (Unit {0}) × ConnectionRegistry Text)

abbrev pub after_broadcast : Option (ConnectionRegistry Text) → Subscribed
after_broadcast none = none
after_broadcast (some r) = some (ok tt, r)

abbrev pub next : (ConnectionRegistry Text → Subscribed) → Subscribed → Subscribed
next loop none = none
next loop (some (ok _, r)) = loop r
next loop (some (raised e, r)) = some (raised e, r)

module _ {V : Type 0} (loads : Text → Outcome (Option (Dict V))) (dumps : Dict V → Text) where
  abbrev pub fan_out_text : Outcome Text → List Turn → ConnectionRegistry Text → Subscribed
  fan_out_text (raised e) turns r = some (raised e, r)
  fan_out_text (ok t) turns r = after_broadcast (fan_out loads dumps t turns r)

  -- The `async for` loop over what is yielded, each with the turns of its broadcast.
  unfoldable pub listen : List (Item × List Turn) → Ending → ConnectionRegistry Text → Subscribed
  unfolding fan_out text_of
  listen [] ending r = some (ended ending, r)
  listen ((notice, turns) ∷ items) ending r = listen items ending r
  listen ((message content, turns) ∷ items) ending r =
      next (listen items ending) (fan_out_text (text_of content) turns r)

  -- `subscribed`: what `pubsub.subscribe` came to. What the `finally` block raises is passed over.
  unfoldable pub redis_subscriber :
      (subscribed : Outcome (Unit {0}))
      → List (Item × List Turn)
      → Ending
      → ConnectionRegistry Text
      → Subscribed
  unfolding listen
  redis_subscriber (raised e) items ending r = some (raised e, r)
  redis_subscriber (ok _) items ending r = listen items ending r

-- The end of `lifespan`, by how the subscriber has ended, if it has: what it comes to, and whether the
-- Redis client is closed.
unfoldable pub leave_lifespan : Option (Outcome (Unit {0})) → Outcome (Unit {0}) × Bool
leave_lifespan none = (ok tt, true)
leave_lifespan (some (ok _)) = (ok tt, true)
leave_lifespan (some (raised cancelled_error)) = (ok tt, true)
leave_lifespan (some (raised e)) = (raised e, false)
