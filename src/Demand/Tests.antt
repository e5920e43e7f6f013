-- ===== src/Demand/Tests.antt =====
-- A station, a structure and a few days of history, and the demand that is resolved for them.
use eve_station_trader.Prelude.{ℕ, ◌≡◌, refl, true, false, Option, none, some, [], ◌∷◌}
use eve_station_trader.Opportunities.Floats.{IsAtMost}
use eve_station_trader.Opportunities.Whole.{whole, whole_laws}
use eve_station_trader.Demand.Rows.{
  DemandSource, esi_live, adam4eve, regional_fallback, AdamRow, DemandTables,
}
use eve_station_trader.Demand.Estimate.{estimate_buy_from_sell_ratio}
use eve_station_trader.Demand.Resolve.{Resolution, resolved, value_error, upsert_for_location}
use eve_station_trader.Demand.Ratios.{estimate_buy_from_sell_ratio-IsAtMost}
use eve_station_trader.Demand.Choice.{IsResolved, upsert_for_location-IsResolved}

abbrev scan : ℕ → ℕ → ℕ → AdamRow ℕ
scan day buy amount = record {
  location_id = 600;
  type_id = 34;
  scan_date = day;
  is_buy_order = buy;
  amount = amount;
}

abbrev tables : DemandTables ℕ
tables = record {
  locations =
      record { id = 1; location_id = 600; region_id = 10; is_npc_station = true }
      ∷ record { id = 2; location_id = 700; region_id = 10; is_npc_station = false }
      ∷ [];
  items = record { id = 5; type_id = 34 } ∷ record { id = 6; type_id = 35 } ∷ [];
  adam_rows = scan 7 0 30 ∷ scan 8 0 12 ∷ scan 8 1 4 ∷ scan 1 0 99 ∷ [];
  history =
      record {
        region_id = 10;
        type_id = 6;
        date = 8;
        volume = 50;
        average = 9;
        lowest = 4;
        highest = 9;
      }
      ∷ [];
  station_periods = [];
  structure_periods = [];
  resolved = [];
}

abbrev outcome : Resolution ℕ → Option (DemandSource × ℕ × ℕ × ℕ)
outcome (value_error e) = none
outcome (resolved r) = elim r.row [
  | none ↦ none
  | some row ↦
      some (row.demand_source, row.buy_from_sell_period, row.sell_to_buy_period, r.points_used)
]

-- Seven days: the scan of day 1 is out of the window.
station_demand :
    outcome (upsert_for_location whole 1 5 7 true 0 tables).0 ≡ some (adam4eve, 42, 4, 2)
unfolding upsert_for_location
station_demand = refl

-- No Adam4EVE rows of type 35: the history of the region.
station_estimate :
    outcome (upsert_for_location whole 1 6 7 true 0 tables).0 ≡ some (esi_live, 50, 0, 1)
unfolding upsert_for_location
station_estimate = refl

structure_fallback :
    outcome (upsert_for_location whole 2 5 7 true 0 tables).0 ≡ some (regional_fallback, 0, 0, 0)
unfolding upsert_for_location
structure_fallback = refl

upsert_for_location-IsResolved_example :
    IsResolved whole true 1 5 7 tables (upsert_for_location whole 1 5 7 true 0 tables)
upsert_for_location-IsResolved_example = upsert_for_location-IsResolved whole 1 5 7 true 0 tables

estimate_buy_from_sell_ratio-IsAtMost_example :
    let ratio = estimate_buy_from_sell_ratio whole 9 4 9 in
    IsAtMost whole 0 ratio × IsAtMost whole ratio 1
estimate_buy_from_sell_ratio-IsAtMost_example =
    estimate_buy_from_sell_ratio-IsAtMost whole whole_laws 9 4 9 refl
