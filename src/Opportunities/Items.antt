-- ===== src/Opportunities/Items.antt =====
-- The loop of `generate_for_target` of backend/app/services/opportunities/generation.py that makes the
-- rows of opportunity_items, over the results of its queries.
use eve_station_trader.Prelude.{
  ℕ, Option, none, some, List, [], ◌∷◌, ◌++◌, String, ◌==◌, ltb, or_else, max, select,
  if◌then◌else◌,
}
use eve_station_trader.Opportunities.Floats.{Float}
use eve_station_trader.Opportunities.Rules.{
  calculate_target_now_profit, calculate_target_period_profit, calculate_capital_required,
  calculate_roi, calculate_target_dos, calculate_purchase_units, calculate_net_purchase_units,
}

pub data PriceSource : Type 0 where
  live : PriceSource
  yesterday : PriceSource
  period_avg : PriceSource
  esi_region_avg : PriceSource

-- The columns of MarketPricePeriod and MarketDemandResolved that are read.
pub record PricePeriod (F : Type 0) : Type 0 where
  pub current_price : Option F
  pub period_avg_price : Option F

pub record ResolvedDemand (F : Type 0) : Type 0 where
  pub buy_from_sell_period : F
  pub demand_source : String

-- An entry of source_min_price_by_loc_type.
pub record SourcePrice (F : Type 0) : Type 0 where
  pub location_id : ℕ
  pub type_id : ℕ
  pub price : F

-- The dicts that the queries fill: by type, or by location and type.
pub record Lookups (F : Type 0) : Type 0 where
  pub item_volumes : ℕ → Option F
  pub demands_by_type : ℕ → Option (ResolvedDemand F)
  pub esi_history_avg_by_type : ℕ → Option F
  pub esi_history_avg_price_by_type : ℕ → Option F
  pub target_prices_by_type : ℕ → Option (PricePeriod F)
  pub target_min_price_by_type : ℕ → Option F
  pub sell_volumes_by_loc_type : ℕ → ℕ → Option F
  pub source_min_price_by_loc_type : List (SourcePrice F)
  pub source_effective_price_by_loc_type : ℕ → ℕ → Option F
  pub source_systems_of : ℕ → Option ℕ
  pub security_status_of : ℕ → Option F
  pub in_transit_totals_by_pair : ℕ → ℕ → Option F
  pub asset_totals_by_type : ℕ → Option F
  pub target_order_totals_by_type : ℕ → Option F

pub record Request (F : Type 0) : Type 0 where
  pub target_location_id : ℕ
  pub period_days : ℕ
  pub shipping_cost_per_m3 : F
  pub computed_at : ℕ

pub record OpportunityItem (F : Type 0) : Type 0 where
  pub target_location_id : ℕ
  pub source_location_id : ℕ
  pub type_id : ℕ
  pub period_days : ℕ
  pub purchase_units : F
  pub source_units_available : F
  pub target_demand_day : F
  pub target_supply_units : F
  pub target_dos : F
  pub in_transit_units : F
  pub assets_units : F
  pub active_sell_orders_units : F
  pub source_station_sell_price : F
  pub target_station_sell_price : F
  pub target_period_avg_price : F
  pub target_now_profit : F
  pub target_period_profit : F
  pub capital_required : F
  pub roi_now : F
  pub roi_period : F
  pub source_security_status : F
  pub item_volume_m3 : F
  pub shipping_cost : F
  pub demand_source : String
  pub esi_demand_day : F
  pub computed_at : ℕ
  pub target_price_source : PriceSource

module _ {F : Type 0} where
  abbrev pub current_of : Option (PricePeriod F) → Option F
  current_of none = none
  current_of (some p) = p.current_price

  abbrev pub average_of : Option (PricePeriod F) → Option F
  average_of none = none
  average_of (some p) = p.period_avg_price

  -- The chain of `elif`s: the live price, else that of yesterday, the average of the period or that of
  -- the region; `none` where the loop continues.
  unfoldable pub target_price : Option F → Option F → Option F → Option F → Option (F × PriceSource)
  target_price (some p) current average region = some (p, live)
  target_price none (some p) average region = some (p, yesterday)
  target_price none none (some p) region = some (p, period_avg)
  target_price none none none (some p) = some (p, esi_region_avg)
  target_price none none none none = none

  abbrev pub demand_or_zero : F → Option (ResolvedDemand F) → F
  demand_or_zero zero none = zero
  demand_or_zero zero (some d) = d.buy_from_sell_period

  abbrev pub source_or_unresolved : Option (ResolvedDemand F) → String
  source_or_unresolved none = "unresolved"
  source_or_unresolved (some d) = d.demand_source

  -- The sources of a type in the order of their ids: actual_source_ids_by_type, each with the entry that
  -- its id came from.
  unfoldable pub insert_source : SourcePrice F → List (SourcePrice F) → List (SourcePrice F)
  insert_source a [] = a ∷ []
  insert_source a (b ∷ bs) =
      if ltb b.location_id a.location_id then b ∷ insert_source a bs else a ∷ b ∷ bs

  unfoldable pub sort_sources : List (SourcePrice F) → List (SourcePrice F)
  unfolding insert_source
  sort_sources [] = []
  sort_sources (a ∷ rest) = insert_source a (sort_sources rest)

  unfoldable pub actual_sources : ℕ → List (SourcePrice F) → List (SourcePrice F)
  unfolding sort_sources
  actual_sources type_id entries = sort_sources (select (λ e. e.type_id == type_id) entries)

  abbrev pub add_item :
      Option (OpportunityItem F) → List (OpportunityItem F) → List (OpportunityItem F)
  add_item none rows = rows
  add_item (some r) rows = r ∷ rows

module _ {F : Type 0} (f : Float F) (q : Request F) (l : Lookups F) where
  -- The effective price of the source where there is one and a demand, else its lowest price.
  unfoldable pub source_price : F → SourcePrice F → Option F → F
  source_price period e none = e.price
  source_price period e (some effective) = if f.lt f.zero period then effective else e.price

  -- The dict that is appended for a type and a source in a known system.
  unfoldable pub item_row : ℕ → F → F × PriceSource → SourcePrice F → ℕ → OpportunityItem F
  unfolding source_price calculate_target_now_profit calculate_target_period_profit
      calculate_capital_required calculate_roi calculate_target_dos calculate_purchase_units
      calculate_net_purchase_units
  item_row type_id volume_m3 (target_now_price, price_source) e system_id =
      let loc = e.location_id in
      let demand = l.demands_by_type type_id in
      let period = demand_or_zero f.zero demand in
      let source_now_price =
        source_price period e (l.source_effective_price_by_loc_type loc type_id) in
      let available = or_else (l.sell_volumes_by_loc_type loc type_id) f.zero in
      let supply = or_else (l.sell_volumes_by_loc_type q.target_location_id type_id) f.zero in
      let demand_day = f.div period (f.of_ℕ (max q.period_days 1)) in
      let average = or_else (average_of (l.target_prices_by_type type_id)) target_now_price in
      let now_profit = calculate_target_now_profit f target_now_price source_now_price in
      let period_profit = calculate_target_period_profit f average source_now_price in
      let transit = or_else (l.in_transit_totals_by_pair loc type_id) f.zero in
      let assets = or_else (l.asset_totals_by_type type_id) f.zero in
      let orders = or_else (l.target_order_totals_by_type type_id) f.zero in
      let units =
        calculate_net_purchase_units f (calculate_purchase_units f available demand_day) assets
          orders transit in
      record {
        target_location_id = q.target_location_id;
        source_location_id = loc;
        type_id = type_id;
        period_days = q.period_days;
        purchase_units = units;
        source_units_available = available;
        target_demand_day = demand_day;
        target_supply_units = supply;
        target_dos = calculate_target_dos f supply demand_day;
        in_transit_units = transit;
        assets_units = assets;
        active_sell_orders_units = orders;
        source_station_sell_price = source_now_price;
        target_station_sell_price = target_now_price;
        target_period_avg_price = average;
        target_now_profit = now_profit;
        target_period_profit = period_profit;
        capital_required = calculate_capital_required f source_now_price units;
        roi_now = calculate_roi f now_profit source_now_price;
        roi_period = calculate_roi f period_profit source_now_price;
        source_security_status = or_else (l.security_status_of system_id) f.zero;
        item_volume_m3 = volume_m3;
        shipping_cost = f.mul (f.mul volume_m3 units) q.shipping_cost_per_m3;
        demand_source = source_or_unresolved demand;
        esi_demand_day = or_else (l.esi_history_avg_by_type type_id) f.zero;
        computed_at = q.computed_at;
        target_price_source = price_source;
      }

  -- The system of the source's location; without a location the loop continues.
  abbrev pub located_row :
      ℕ → F → F × PriceSource → SourcePrice F → Option ℕ → Option (OpportunityItem F)
  unfolding item_row
  located_row type_id volume_m3 price e none = none
  located_row type_id volume_m3 price e (some system_id) =
      some (item_row type_id volume_m3 price e system_id)

  -- for source_location_id in actual_source_ids
  unfoldable pub source_rows :
      ℕ → F → F × PriceSource → List (SourcePrice F) → List (OpportunityItem F)
  unfolding item_row
  source_rows type_id volume_m3 price [] = []
  source_rows type_id volume_m3 price (e ∷ es) =
      add_item (located_row type_id volume_m3 price e (l.source_systems_of e.location_id))
        (source_rows type_id volume_m3 price es)

  -- The body of the loop over types, from the item and the price that it finds.
  unfoldable pub type_rows : ℕ → Option F → Option (F × PriceSource) → List (OpportunityItem F)
  unfolding source_rows actual_sources
  type_rows type_id (some volume_m3) (some price) =
      source_rows type_id volume_m3 price (actual_sources type_id l.source_min_price_by_loc_type)
  type_rows type_id _ _ = []

  -- for type_id in normalized_type_ids
  unfoldable pub item_rows : List ℕ → List (OpportunityItem F)
  unfolding type_rows target_price
  item_rows [] = []
  item_rows (type_id ∷ types) =
      let prices = l.target_prices_by_type type_id in
      type_rows type_id (l.item_volumes type_id) (
        target_price (l.target_min_price_by_type type_id) (current_of prices) (average_of prices)
          (l.esi_history_avg_price_by_type type_id))
      ++ item_rows types
