-- ===== src/Trade/Samples.antt =====
-- Locations and items, for tests.
use eve_station_trader.Prelude.{ℕ, List, [], ◌∷◌, String}
use eve_station_trader.Ingest.Rows.{Location, npc_station}
use eve_station_trader.Trade.Rows.{Item}

abbrev pub place : ℕ → ℕ → String → Location
place id location_id name = record {
  id = id;
  location_id = location_id;
  location_type = npc_station;
  system_id = 1;
  region_id = 1;
  name = name;
}

abbrev pub places : List Location
places = place 7 6007 "Station 6007" ∷ place 8 6008 "Amarr VIII" ∷ place 9 6009 "Jita IV" ∷ []

abbrev pub catalog : List Item
catalog =
    record { id = 34; type_id = 340; name = "Tritanium" }
    ∷ record { id = 35; type_id = 350; name = "Pyerite" }
    ∷ []
