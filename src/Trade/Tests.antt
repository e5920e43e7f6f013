-- ===== src/Trade/Tests.antt =====
-- The trade page on a small market, and the theorems at it.
use eve_station_trader.Prelude.{
  ℕ, ◌==◌, ◌≡◌, refl, Bool, true, false, ◌&&◌, none, some, [], ◌∷◌, String, find_first,
  if◌then◌else◌,
}
use eve_station_trader.Prelude.Int.{pos}
use eve_station_trader.Jobs.Rows.{Store, return, raise, runtime_error}
use eve_station_trader.Opportunities.Whole.{whole}
use eve_station_trader.Opportunities.Samples.{market, request, empty}
use eve_station_trader.Opportunities.Generation.{distinct, generate_for_target}
use eve_station_trader.Opportunities.Items.{item_rows}
use eve_station_trader.Trade.Rows.{resolve_location_id, resolve_type_id}
use eve_station_trader.Trade.Samples.{place, places, catalog}
use eve_station_trader.Trade.Rebuild.{TradeTables, refresh_opportunities}
use eve_station_trader.Trade.Rebuilt.{Ends, refresh_opportunities-Ends}
use eve_station_trader.Trade.Transit.{
  InTransitAsset, UpsertRequest, TransitTables, lookup_error, same_triple, clean_note,
  upsert_in_transit_asset,
}
use eve_station_trader.Trade.Saved.{HasValues, upsert_in_transit_asset-saved}
use eve_station_trader.Trade.Filters.{Filters, TradeNames, has_item_filters}
use eve_station_trader.Trade.Summaries.{stored_summaries, summed_again}
use eve_station_trader.Trade.Fresh.{stored_summaries-summed_again}

abbrev idle : Store
idle = record { jobs = []; stages = []; next_job = 1; next_stage = 1 }

abbrev trade_tables : TradeTables
trade_tables = record { locations = places; price_periods = []; demands = [] }

-- A rebuild whose preparation fails.
refresh_opportunities-Ends_example : Ends 1 idle 5000 (
    refresh_opportunities
      (λ d s t. (return true, t))
      (λ r d s t. (raise (runtime_error "no prices"), t))
      1000
      5000
      6009
      7
      none
      idle
      trade_tables)
refresh_opportunities-Ends_example =
    refresh_opportunities-Ends (λ d s t. (return true, t))
      (λ r d s t. (raise (runtime_error "no prices"), t)) 1000 5000 6009 7 none idle trade_tables tt

abbrev transit : TransitTables
transit = record {
  locations = places;
  stations = record { station_id = 6007; system_id = 1; region_id = 1; name = "Rens VI" } ∷ [];
  items = catalog;
  assets = [];
  next_asset = 1;
}

abbrev shipment : ℕ → UpsertRequest
shipment source = record {
  source_location_id = source;
  target_location_id = 6009;
  type_id = 340;
  quantity = pos 20;
  note = some " two trips ";
}

any_order : String → String → Bool
any_order a b = false

upsert_in_transit_asset-saved_example :
    (b : InTransitAsset) × HasValues (pos 20) (clean_note (some " two trips ")) b
    × ((s d i : ℕ)
        → find_first
            (same_triple s d i)
            (upsert_in_transit_asset any_order 4 (shipment 6007) transit).1.assets
          ≡ (if s == 7 && d == 9 && i == 34 then some b else none))
unfolding resolve_location_id resolve_type_id
upsert_in_transit_asset-saved_example =
    upsert_in_transit_asset-saved any_order 4 (shipment 6007) transit 7 9 34 refl refl refl refl

-- A source that is named by its key is saved, but not read back.
loses_key :
    (upsert_in_transit_asset any_order 4 (shipment 7) transit).0
    ≡ lookup_error "In-transit asset could not be read back after save."
unfolding upsert_in_transit_asset any_order
loses_key = refl

abbrev no_filters : Filters ℕ
no_filters = record {
  item_search = " ";
  min_profit = 0;
  min_roi_now_pct = 0;
  min_demand_day = 0;
  max_dos = none;
  max_item_volume_m3 = none;
  source_type = "all";
  min_security = "all";
  demand_source = "all";
  min_esi_demand_day = 0;
}

abbrev names : TradeNames
names = record { locations = places; stations = []; catalog = catalog }

stored_summaries-summed_again_example :
    let (r, t') =
      generate_for_target whole true true request
        (8 ∷ 7 ∷ [])
        (34 ∷ 35 ∷ [])
        (λ ss ts. market)
        empty in
    stored_summaries whole 9 7 names t'.summaries ≡ summed_again whole no_filters 9 7 names t'.items
unfolding distinct item_rows has_item_filters
stored_summaries-summed_again_example =
    stored_summaries-summed_again whole request 8 34 (7 ∷ []) (35 ∷ []) (λ ss ts. market) empty
      no_filters names (refl, (refl, (refl, tt)))
      (
        (
          (place 7 6007 "Station 6007", refl),
          (record { id = 34; type_id = 340; name = "Tritanium" }, refl),
          refl,
        ),
        (
          (
            (place 8 6008 "Amarr VIII", refl),
            (record { id = 34; type_id = 340; name = "Tritanium" }, refl),
            refl,
          ),
          (
            (
              (place 7 6007 "Station 6007", refl),
              (record { id = 35; type_id = 350; name = "Pyerite" }, refl),
              refl,
            ),
            tt,
          ),
        ),
      )
      refl
