-- ===== src/Tests/OfService.antt =====
-- `run_forever` of app/cdc_consumer.py with sample messages.
use fleet_telemetry_system.Prelude.{true, false, List, [], ◌∷◌, ◌≡◌, refl}
use fleet_telemetry_system.Cdc.Decode.{Consumer}
use fleet_telemetry_system.Cdc.Stream.{message, ended}
use fleet_telemetry_system.Cdc.Supervisor.{not_yet, in_run}
use fleet_telemetry_system.Cdc.Service.{Round, run_service}
use fleet_telemetry_system.Cdc.Service.Backoff.{Follows, run_service-Follows}
use fleet_telemetry_system.Cdc.Service.ColdStart.{Waits, run_service-Waits}
use fleet_telemetry_system.Cdc.Service.Sound.{AllSound, run_service-AllSound}
use fleet_telemetry_system.Cdc.Main.{Pass, main, main-stops}
use fleet_telemetry_system.Signals.{sigterm, ignored}
use fleet_telemetry_system.Prelude.Int.{ℤ}
use fleet_telemetry_system.Tests.OfCdc.{consumer, xlog, float_of}

-- The publication is not there, then it is; the first stream ends, and the second one fails at a message
-- whose relation it has not been told.
abbrev absent : Round
absent = record { present = false; connected = true; enters = true; polls = []; stop = not_yet }

abbrev rounds : List Round
rounds =
    absent
    ∷ record { present = true; connected = true; enters = true; polls = ended ∷ []; stop = not_yet }
    ∷ record {
      present = true;
      connected = true;
      enters = true;
      polls = message xlog ∷ [];
      stop = in_run;
    }
    ∷ []

-- The first probe fails.
abbrev cold : Consumer ℤ
cold = record consumer { slot = false; outages = true ∷ [] }

run_service-Follows_example : Follows 0 0 (run_service float_of rounds cold).0
run_service-Follows_example = run_service-Follows float_of rounds cold

run_service-Waits_example : Waits cold (run_service float_of (absent ∷ absent ∷ []) cold)
run_service-Waits_example =
    run_service-Waits float_of (absent ∷ absent ∷ []) cold (refl, (refl, tt))

run_service-AllSound_example : AllSound (run_service float_of rounds cold).1.consumer
run_service-AllSound_example = run_service-AllSound float_of rounds cold tt

-- SIGTERM arrives while the consumer waits for the publication, after a signal that is not handled.
abbrev calm : Pass
calm = record { round = absent; before_wait = []; while_waiting = [] }

abbrev told : Pass
told = record { round = absent; before_wait = ignored ∷ []; while_waiting = sigterm ∷ [] }

main-stops_example :
    main float_of (calm ∷ told ∷ calm ∷ calm ∷ []) cold ≡ main float_of (calm ∷ told ∷ []) cold
main-stops_example = main-stops float_of (calm ∷ []) (calm ∷ calm ∷ []) told cold refl
