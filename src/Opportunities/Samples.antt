-- ===== src/Opportunities/Samples.antt =====
-- A small market in whole numbers, for tests.
use eve_station_trader.Prelude.{ℕ, none, some, [], ◌∷◌, ◌==◌, if◌then◌else◌}
use eve_station_trader.Opportunities.Items.{Lookups, Request}
use eve_station_trader.Opportunities.Generation.{OpportunityTables}

-- Types 34, with a live price, and 35, with an average only; sources 8 and 7.
abbrev pub market : Lookups ℕ
market = record {
  item_volumes = λ t. some 2;
  demands_by_type = λ t. some (record { buy_from_sell_period = 70; demand_source = "adam4eve" });
  esi_history_avg_by_type = λ t. none;
  esi_history_avg_price_by_type = λ t. none;
  target_prices_by_type = λ t. some (record { current_price = none; period_avg_price = some 90 });
  target_min_price_by_type = λ t. if t == 34 then some 100 else none;
  sell_volumes_by_loc_type = λ loc t. some 30;
  source_min_price_by_loc_type =
      record { location_id = 8; type_id = 34; price = 60 }
      ∷ record { location_id = 7; type_id = 34; price = 50 }
      ∷ record { location_id = 7; type_id = 35; price = 40 }
      ∷ [];
  source_effective_price_by_loc_type = λ loc t. some 55;
  source_systems_of = λ loc. some 1;
  security_status_of = λ system. none;
  in_transit_totals_by_pair = λ loc t. none;
  asset_totals_by_type = λ t. some 4;
  target_order_totals_by_type = λ t. none;
}

abbrev pub request : Request ℕ
request = record {
  target_location_id = 9;
  period_days = 7;
  shipping_cost_per_m3 = 1;
  computed_at = 5;
}

abbrev pub empty : OpportunityTables ℕ
empty = record { items = []; summaries = [] }
