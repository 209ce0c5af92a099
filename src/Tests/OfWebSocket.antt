-- ===== src/Tests/OfWebSocket.antt =====
-- Subscriber, connections and routes of app/frontend_api.py on a small registry.
use fleet_telemetry_system.Prelude.{
  ℕ, ◌+◌, String, false, Option, none, some, List, [], ◌∷◌, ◌≡◌, refl, arith, Outcome, ok,
  web_socket_disconnect,
}
use fleet_telemetry_system.Prelude.Int.{ℤ}
use fleet_telemetry_system.Prelude.Dict.{Dict}
use fleet_telemetry_system.Text.{Text, codes}
use fleet_telemetry_system.Models.Datetime.{Datetime, aware}
use fleet_telemetry_system.Tests.Samples.{garage}
use fleet_telemetry_system.Frontend.{
  ConnectionRegistry, Turn, sends, joins, fails, member, broadcast, fan_out, forwarded,
}
use fleet_telemetry_system.Frontend.Inbox.{inbox}
use fleet_telemetry_system.Frontend.Membership.{HoldsOnce}
use fleet_telemetry_system.Frontend.Subscriber.{
  Item, message, notice, text, cancelled, ended, listen, text_of,
}
use fleet_telemetry_system.Frontend.Subscriber.Forwards.{Stays, at_end, passes, listen-inbox}
use fleet_telemetry_system.Frontend.WebSocket.{Other, World, Receipt, received, ws_endpoint}
use fleet_telemetry_system.Frontend.WebSocket.Unregistered.{ws_endpoint-unregisters}
use fleet_telemetry_system.Frontend.WebSocket.Snapshots.{snapshots}
use fleet_telemetry_system.Frontend.WebSocket.Calm.{IsCalm, ws_endpoint-snapshots}
use fleet_telemetry_system.Frontend.Routes.{anomalies, Request}

abbrev texts : ConnectionRegistry Text
texts = record { connections = 1 ∷ 2 ∷ []; delivered = []; broadcasts = 0 }

-- Nothing is JSON.
abbrev loads : Text → Outcome (Option (Dict ℕ))
loads t = ok none

abbrev dumps : Dict ℕ → Text
dumps e = []

-- The send to 1 works, the one to 2 fails, and 3 has joined.
abbrev items : List (Item × List Turn)
items = (notice, []) ∷ (message (text (codes "patch")), sends ∷ joins 3 ∷ fails ∷ []) ∷ []

abbrev texts_after : ConnectionRegistry Text
texts_after = record {
  connections = 3 ∷ 1 ∷ [];
  delivered = (1, codes "patch") ∷ [];
  broadcasts = 1;
}

texts-HoldsOnce : HoldsOnce texts
texts-HoldsOnce ws = ground arith

items-Stays : Stays loads dumps 1 items texts texts_after (codes "patch" ∷ [])
unfolding fan_out broadcast text_of forwarded
items-Stays = passes [] (
    Stays.fans_out (text (codes "patch")) (sends ∷ joins 3 ∷ fails ∷ []) (codes "patch") texts
      texts_after refl refl refl (at_end texts_after))

listen-inbox_example :
    (listen loads dumps items cancelled texts ≡ some (ended cancelled, texts_after))
    × (inbox 1 texts_after.delivered ≡ codes "patch" ∷ [])
listen-inbox_example =
    listen-inbox loads dumps 1 items cancelled texts texts_after (codes "patch" ∷ [])
      texts-HoldsOnce refl items-Stays

-- While the client 5 is accepted another one joins, and before its snapshot it is sent a patch.
abbrev world : World ℤ ℕ
world = record {
  registry = record { connections = 1 ∷ 2 ∷ []; delivered = []; broadcasts = 0 };
  replica = garage;
  others =
      (Other.joins 3 ∷ [])
      ∷ []
      ∷ (Other.fans_out 5 70 ∷ Other.leaves 1 ∷ [])
      ∷ (Other.drops (5 ∷ []) ∷ [])
      ∷ [];
  failures = [];
}

abbrev receipts : List Receipt
receipts = received ∷ Receipt.fails web_socket_disconnect ∷ []

ws_endpoint-unregisters_example :
    member 5 (ws_endpoint 5 receipts world).1.registry.connections ≡ false
ws_endpoint-unregisters_example =
    ws_endpoint-unregisters 5 receipts world refl
      ((refl, tt), (tt, ((tt, (tt, tt)), ((tt, tt), tt))))

world-IsCalm : IsCalm world
world-IsCalm = record { socket = refl; replica = refl }

ws_endpoint-snapshots_example : snapshots 5 (ws_endpoint 5 receipts world).1 ≡ snapshots 5 world + 1
ws_endpoint-snapshots_example = ws_endpoint-snapshots 5 receipts world world-IsCalm

-- Queries are the vehicle that they name.
abbrev parse_query : String → Option (String × Datetime × Datetime)
parse_query vehicle_id = some (vehicle_id, aware 0, aware 50)

abbrev request : Request String
request = anomalies "v-1"
