-- ===== src/Tests/OfDelivery.antt =====
-- A row of `zone_counts` on its way to a client.
use fleet_telemetry_system.Prelude.{ℕ, some, [], ◌∷◌, ◌≡◌, refl, arith, ok}
use fleet_telemetry_system.Prelude.Int.{ℤ, pos}
use fleet_telemetry_system.Prelude.Dict.{Dict, lookup}
use fleet_telemetry_system.Text.{codes}
use fleet_telemetry_system.Cdc.Event.{
  zone_count_changed, Payload, zone_count, text, event_type_of, build_payload, inject_trace_context,
}
use fleet_telemetry_system.Cdc.Decode.{Consumer, decode_pgoutput}
use fleet_telemetry_system.Frontend.{
  ConnectionRegistry, sends, joins, fails, strip_trace_context, has_carrier, forwarded, fan_out,
  broadcast,
}
use fleet_telemetry_system.Frontend.Inbox.{inbox}
use fleet_telemetry_system.Frontend.Membership.{HoldsOnce}
use fleet_telemetry_system.Delivery.{Json, patch_dict, emitted, insert-inbox}
use fleet_telemetry_system.Tests.OfCdc.{
  consumer, entered, insert, zone_columns, float_of, entered-IsEncodable,
}

-- Values are numbers, and texts are taken for the objects that they print.
abbrev json : Json ℤ ℕ
json = record { of_type = λ t. 1; of_payload = λ p. 2; of_carrier = λ c. 3 }

abbrev traced : Consumer ℤ
traced = record consumer { propagate = λ n. ok (("traceparent", "00-1-2-01") ∷ []) }

abbrev payload : Payload ℤ
payload = zone_count (text (codes "aisle_a")) (some (pos 8))

abbrev clients : ConnectionRegistry (Dict ℕ)
clients = record { connections = 1 ∷ 2 ∷ []; delivered = []; broadcasts = 0 }

abbrev clients_after : ConnectionRegistry (Dict ℕ)
clients_after = record {
  connections = 3 ∷ 1 ∷ [];
  delivered = (1, patch_dict json zone_count_changed payload) ∷ [];
  broadcasts = 1;
}

clients-HoldsOnce : HoldsOnce clients
clients-HoldsOnce ws = ground arith

insert-inbox_example :
    ((decode_pgoutput float_of insert traced).1.published
      ≡ emitted traced zone_count_changed payload ∷ [])
    × (object : Dict ℕ) × (ok (some object)
        ≡ ok (some (patch_dict json zone_count_changed payload)))
    × (inbox 1 clients_after.delivered ≡ object ∷ [])
unfolding event_type_of build_payload fan_out forwarded broadcast strip_trace_context has_carrier
    lookup inject_trace_context
insert-inbox_example =
    insert-inbox float_of json (λ e. ok (some e)) (λ e. e) (λ e. refl) 5 entered
      (codes "zone_counts") zone_columns zone_count_changed payload traced 1
      (sends ∷ joins 3 ∷ fails ∷ []) clients clients_after (omega arith) (omega arith) refl
      entered-IsEncodable refl refl refl refl refl clients-HoldsOnce refl refl refl
