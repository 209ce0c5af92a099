-- ===== src/Signals.antt =====
-- `_install_signal_handlers` of app/cdc_consumer.py and app/replication_probe.py.
use fleet_telemetry_system.Prelude.{Bool, true, false, ◌||◌, List, [], ◌∷◌, ◌≡◌, any, arith}

pub data Signal : Type 0 where
  sigterm sigint : Signal
  -- One that the handlers are not installed for, and that does not end the process by itself.
  ignored : Signal

abbrev pub is_handled : Signal → Bool
is_handled sigterm = true
is_handled sigint = true
is_handled ignored = false

-- `_handle` for each signal that arrives: whether `stop` is set after them.
unfoldable pub handle : List Signal → Bool → Bool
handle [] stop = stop
handle (s ∷ signals) stop = handle signals (stop || is_handled s)

pub any-handle :
    (signals : List Signal) (stop : Bool) → handle signals stop ≡ (stop || any is_handled signals)
unfolding handle
any-handle [] stop = ground arith
any-handle (s ∷ signals) stop = ground (arith, any-handle signals (stop || is_handled s))
