-- ===== src/Trade/Summaries.antt =====
-- `list_source_summaries` of
-- backend/app/repositories/trade_repository.py: the sources of a target, from the stored summaries or
-- summed again over the items that pass the filters.
use eve_station_trader.Prelude.{
  ℕ, ◌==◌, Bool, not, ◌&&◌, ◌||◌, Option, none, some, List, [], ◌∷◌, String, any_row, select,
  if◌then◌else◌,
}
use eve_station_trader.Prelude.Ids.{get}
use eve_station_trader.Ingest.Rows.{Location}
use eve_station_trader.Opportunities.Floats.{Float}
use eve_station_trader.Opportunities.Items.{OpportunityItem}
use eve_station_trader.Opportunities.Summaries.{OpportunitySourceSummary, grouped}
use eve_station_trader.Opportunities.Generation.{OpportunityTables}
use eve_station_trader.Trade.Rows.{resolve_location_id}
use eve_station_trader.Trade.Filters.{Filters, TradeNames, has_item_filters, is_shown}
use eve_station_trader.Trade.Transit.{market_name}

pub record SourceSummary (F : Type 0) : Type 0 where
  pub source_location_id : ℕ
  pub source_market_name : String
  pub source_security_status : F
  pub purchase_units_total : F
  pub source_units_available_total : F
  pub target_demand_day_total : F
  pub target_supply_units_total : F
  pub target_dos_weighted : F
  pub in_transit_units : F
  pub assets_units : F
  pub active_sell_orders_units : F
  pub source_avg_price_weighted : F
  pub target_now_price_weighted : F
  pub target_period_avg_price_weighted : F
  pub target_now_profit_weighted : F
  pub target_period_profit_weighted : F
  pub capital_required_total : F
  pub roi_now_weighted : F
  pub roi_period_weighted : F
  pub total_item_volume_m3 : F
  pub shipping_cost_total : F
  pub demand_source_summary : String
  pub esi_demand_day_total : F

module _ {F : Type 0} (f : Float F) where
  unfoldable pub source_summary : String → OpportunitySourceSummary F → SourceSummary F
  source_summary name s = record {
    source_location_id = s.source_location_id;
    source_market_name = name;
    source_security_status = s.source_security_status;
    purchase_units_total = s.purchase_units_total;
    source_units_available_total = s.source_units_available_total;
    target_demand_day_total = s.target_demand_day_total;
    target_supply_units_total = s.target_supply_units_total;
    target_dos_weighted = s.target_dos_weighted;
    in_transit_units = s.in_transit_units;
    assets_units = s.assets_units;
    active_sell_orders_units = s.active_sell_orders_units;
    source_avg_price_weighted = s.source_avg_price_weighted;
    target_now_price_weighted = s.target_now_price_weighted;
    target_period_avg_price_weighted = s.target_period_avg_price_weighted;
    target_now_profit_weighted = s.target_now_profit_weighted;
    target_period_profit_weighted = s.target_period_profit_weighted;
    capital_required_total = s.capital_required_total;
    roi_now_weighted = s.roi_now_weighted;
    roi_period_weighted = s.roi_period_weighted;
    total_item_volume_m3 = s.total_item_volume_m3;
    shipping_cost_total = s.shipping_cost_total;
    demand_source_summary = s.demand_source_summary;
    esi_demand_day_total = s.esi_demand_day_total;
  }

  -- The inner join with locations, and the name of the market.
  unfoldable pub with_name :
      TradeNames
      → Option Location
      → OpportunitySourceSummary F
      → List (SourceSummary F)
      → List (SourceSummary F)
  unfolding source_summary market_name
  with_name names none s rest = rest
  with_name names (some l) s rest = source_summary (market_name l names.stations) s ∷ rest

  unfoldable pub named_summaries :
      TradeNames → List (OpportunitySourceSummary F) → List (SourceSummary F)
  unfolding with_name
  named_summaries names [] = []
  named_summaries names (s ∷ rows) =
      with_name names (get (λ (l : Location). l.id) s.source_location_id names.locations) s
        (named_summaries names rows)

  -- The SELECT of the stored rows, without its order.
  unfoldable pub in_target : ℕ → ℕ → OpportunitySourceSummary F → Bool
  in_target target period_days s = s.target_location_id == target && s.period_days == period_days

  unfoldable pub stored_summaries :
      ℕ → ℕ → TradeNames → List (OpportunitySourceSummary F) → List (SourceSummary F)
  unfolding in_target named_summaries
  stored_summaries target period_days names rows =
      named_summaries names (select (in_target target period_days) rows)

  -- The SELECT with GROUP BY, without its order. Its expressions are those of _summaries_for_sources, to
  -- the letter; either sum is taken here in the order of the rows, which SQL leaves open.
  unfoldable pub summed_again :
      Filters F → ℕ → ℕ → TradeNames → List (OpportunityItem F) → List (SourceSummary F)
  unfolding is_shown grouped named_summaries
  summed_again q target period_days names items =
      let rows = select (is_shown f q target period_days names) items in
      named_summaries names (grouped f target period_days 0 rows rows)

  -- ORDER BY target_now_profit_weighted DESC, name; `name_before` is the order of names in the database.
  module _ (name_before : String → String → Bool) where
    unfoldable pub summary_before : SourceSummary F → SourceSummary F → Bool
    summary_before a b =
        f.lt b.target_now_profit_weighted a.target_now_profit_weighted
        || (not (f.lt a.target_now_profit_weighted b.target_now_profit_weighted)
            && name_before a.source_market_name b.source_market_name)

    unfoldable pub insert_summary :
        SourceSummary F → List (SourceSummary F) → List (SourceSummary F)
    unfolding summary_before
    insert_summary r [] = r ∷ []
    insert_summary r (x ∷ xs) = if summary_before x r then x ∷ insert_summary r xs else r ∷ x ∷ xs

    unfoldable pub order_summaries : List (SourceSummary F) → List (SourceSummary F)
    unfolding insert_summary
    order_summaries [] = []
    order_summaries (x ∷ xs) = insert_summary x (order_summaries xs)

    -- `if summary_rows: return ...`, else the sums over the items.
    unfoldable pub stored_or :
        List (SourceSummary F) → List (SourceSummary F) → List (SourceSummary F)
    unfolding order_summaries
    stored_or [] again = order_summaries again
    stored_or (s ∷ stored) again = order_summaries (s ∷ stored)

    unfoldable pub summaries_of :
        Filters F → ℕ → ℕ → TradeNames → OpportunityTables F → List (SourceSummary F)
    unfolding has_item_filters stored_summaries summed_again stored_or order_summaries
    summaries_of q target period_days names t =
        let again = summed_again q target period_days names t.items in
        if has_item_filters f q
        then order_summaries again
        else stored_or (stored_summaries target period_days names t.summaries) again

    -- `prepare` is SyncService.prepare_trade_period, which is called if there is no summary yet.
    unfoldable pub with_target_rows :
        (ℕ → ℕ → OpportunityTables F → OpportunityTables F)
        → Filters F
        → ℕ
        → TradeNames
        → OpportunityTables F
        → Option ℕ
        → List (SourceSummary F) × OpportunityTables F
    unfolding summaries_of in_target
    with_target_rows prepare q period_days names t none = ([], t)
    with_target_rows prepare q period_days names t (some target) =
        let t' =
          if any_row (in_target target period_days) t.summaries
          then t
          else prepare target period_days t in
        (summaries_of q target period_days names t', t')

    unfoldable pub list_source_summaries :
        (ℕ → ℕ → OpportunityTables F → OpportunityTables F)
        → Filters F
        → ℕ
        → ℕ
        → TradeNames
        → OpportunityTables F
        → List (SourceSummary F) × OpportunityTables F
    unfolding with_target_rows resolve_location_id
    list_source_summaries prepare q target_location_id period_days names t =
        with_target_rows prepare q period_days names t
          (resolve_location_id target_location_id names.locations)
