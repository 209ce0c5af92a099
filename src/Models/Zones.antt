-- ===== src/Models/Zones.antt =====
-- `ZONES` of app/models.py.
use fleet_telemetry_system.Prelude.{List, [], ◌∷◌, String}

abbrev pub zones : List String
zones =
    "inbound_dock_a" ∷ "inbound_dock_b" ∷ "receiving_staging" ∷ "aisle_a" ∷ "aisle_b" ∷ "aisle_c"
    ∷ "high_bay_1" ∷ "high_bay_2" ∷ "bulk_storage" ∷ "pick_zone_1" ∷ "pick_zone_2" ∷ "pack_station"
    ∷ "sort_belt" ∷ "outbound_dock_a" ∷ "outbound_dock_b" ∷ "shipping_staging" ∷ "charging_bay_1"
    ∷ "charging_bay_2" ∷ "charging_bay_3" ∷ "maintenance_bay" ∷ []
