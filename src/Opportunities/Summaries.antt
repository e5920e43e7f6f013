-- ===== src/Opportunities/Summaries.antt =====
-- `_summaries_for_sources` of backend/app/services/opportunities/generation.py: the rows of
-- opportunity_items that belong to a target and a period, summed for each source.
use eve_station_trader.Prelude.{
  ℕ, Bool, ◌&&◌, List, [], ◌∷◌, String, str_eq, ◌==◌, select, any_row, if◌then◌else◌,
}
use eve_station_trader.Opportunities.Floats.{Float, min_of}
use eve_station_trader.Opportunities.Items.{OpportunityItem}

pub record OpportunitySourceSummary (F : Type 0) : Type 0 where
  pub target_location_id : ℕ
  pub source_location_id : ℕ
  pub source_security_status : F
  pub period_days : ℕ
  pub purchase_units_total : F
  pub source_units_available_total : F
  pub target_demand_day_total : F
  pub target_supply_units_total : F
  pub target_dos_weighted : F
  pub in_transit_units : F
  pub assets_units : F
  pub active_sell_orders_units : F
  pub source_avg_price_weighted : F
  pub target_now_price_weighted : F
  pub target_period_avg_price_weighted : F
  pub target_now_profit_weighted : F
  pub target_period_profit_weighted : F
  pub capital_required_total : F
  pub roi_now_weighted : F
  pub roi_period_weighted : F
  pub total_item_volume_m3 : F
  pub shipping_cost_total : F
  pub demand_source_summary : String
  pub esi_demand_day_total : F
  pub computed_at : ℕ

-- CASE WHEN COUNT(DISTINCT demand_source) = 1 THEN MIN(demand_source) ELSE 'Mixed' END: the source of the
-- first row, if all rows have it.
unfoldable pub same_source : {F : Type 0} → String → List (OpportunityItem F) → String
same_source s [] = s
same_source s (r ∷ rs) = if str_eq r.demand_source s then same_source s rs else "Mixed"

unfoldable pub demand_source_of : {F : Type 0} → List (OpportunityItem F) → String
unfolding same_source
demand_source_of [] = "Mixed"
demand_source_of (r ∷ rs) = same_source r.demand_source rs

module _ {F : Type 0} (f : Float F) where
  -- SUM of an expression over the rows of a group.
  unfoldable pub sum_of : (OpportunityItem F → F) → List (OpportunityItem F) → F
  sum_of value [] = f.zero
  sum_of value (r ∷ rs) = f.add (value r) (sum_of value rs)

  unfoldable pub weight : OpportunityItem F → F
  weight r = if f.lt (f.of_ℕ 1) r.purchase_units then r.purchase_units else f.of_ℕ 1

  unfoldable pub item_qty : OpportunityItem F → F
  item_qty r = min_of f (f.ceil r.target_demand_day) r.source_units_available

  unfoldable pub weighted : (OpportunityItem F → F) → List (OpportunityItem F) → F
  unfolding sum_of weight
  weighted value rows = f.div (sum_of (λ r. f.mul (value r) (weight r)) rows) (sum_of weight rows)

  unfoldable pub summary_row : ℕ → ℕ → ℕ → ℕ → List (OpportunityItem F) → OpportunitySourceSummary F
  unfolding weighted item_qty demand_source_of
  summary_row target_location_id period_days computed_at source_location_id rows = record {
    target_location_id = target_location_id;
    source_location_id = source_location_id;
    source_security_status = weighted (λ r. r.source_security_status) rows;
    period_days = period_days;
    purchase_units_total = sum_of item_qty rows;
    source_units_available_total = sum_of (λ r. r.source_units_available) rows;
    target_demand_day_total = sum_of (λ r. r.target_demand_day) rows;
    target_supply_units_total = sum_of (λ r. r.target_supply_units) rows;
    target_dos_weighted = weighted (λ r. r.target_dos) rows;
    in_transit_units = sum_of (λ r. r.in_transit_units) rows;
    assets_units = sum_of (λ r. r.assets_units) rows;
    active_sell_orders_units = sum_of (λ r. r.active_sell_orders_units) rows;
    source_avg_price_weighted = weighted (λ r. r.source_station_sell_price) rows;
    target_now_price_weighted = weighted (λ r. r.target_station_sell_price) rows;
    target_period_avg_price_weighted = weighted (λ r. r.target_period_avg_price) rows;
    target_now_profit_weighted = sum_of (λ r. f.mul r.target_now_profit (item_qty r)) rows;
    target_period_profit_weighted = sum_of (λ r. f.mul r.target_period_profit (item_qty r)) rows;
    capital_required_total = sum_of (λ r. f.mul r.source_station_sell_price (item_qty r)) rows;
    roi_now_weighted = weighted (λ r. r.roi_now) rows;
    roi_period_weighted = weighted (λ r. r.roi_period) rows;
    total_item_volume_m3 = sum_of (λ r. f.mul r.item_volume_m3 (item_qty r)) rows;
    shipping_cost_total = sum_of (λ r. r.shipping_cost) rows;
    demand_source_summary = demand_source_of rows;
    esi_demand_day_total = sum_of (λ r. r.esi_demand_day) rows;
    computed_at = computed_at;
  }

  -- The WHERE clause.
  unfoldable pub in_sources : ℕ → List ℕ → ℕ → OpportunityItem F → Bool
  in_sources target sources period_days r =
      r.target_location_id == target
      && any_row (λ s. s == r.source_location_id) sources
      && r.period_days == period_days

  -- GROUP BY source_location_id: one row for each source that occurs in `rest`.
  unfoldable pub grouped :
      ℕ
      → ℕ
      → ℕ
      → List (OpportunityItem F)
      → List (OpportunityItem F)
      → List (OpportunitySourceSummary F)
  unfolding summary_row
  grouped target period_days computed_at rows [] = []
  grouped target period_days computed_at rows (r ∷ rest) =
      let source = r.source_location_id in
      let others = grouped target period_days computed_at rows rest in
      if any_row (λ o. o.source_location_id == source) rest
      then others
      else summary_row target period_days computed_at source
          (select (λ o. o.source_location_id == source) rows)
        ∷ others

  unfoldable pub summaries_for_sources :
      ℕ → List ℕ → ℕ → ℕ → List (OpportunityItem F) → List (OpportunitySourceSummary F)
  unfolding in_sources grouped
  summaries_for_sources target [] period_days computed_at items = []
  summaries_for_sources target (s ∷ ss) period_days computed_at items =
      let rows = select (in_sources target (s ∷ ss) period_days) items in
      grouped target period_days computed_at rows rows
