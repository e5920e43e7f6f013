-- ===== src/Trade/Scopes.antt =====
-- The scope of a rebuild on a small market, and the theorems at it.
use eve_station_trader.Prelude.{
  ℕ, max, ◌≡◌, refl, true, false, Bool-cases, inl, inr, among, none, some, List, [], ◌∷◌, map,
  select, All,
}
use eve_station_trader.Prelude.Int.{pos}
use eve_station_trader.Ingest.Rows.{EsiMarketOrder}
use eve_station_trader.Opportunities.Whole.{whole}
use eve_station_trader.Opportunities.Items.{Lookups, SourcePrice, OpportunityItem}
use eve_station_trader.Opportunities.Samples.{market, empty}
use eve_station_trader.Opportunities.Scope.{IsAsked}
use eve_station_trader.Opportunities.Generation.{distinct, in_item_scope}
use eve_station_trader.Trade.Samples.{places, catalog}
use eve_station_trader.Trade.Prepare.{
  ScopeTables, Refreshers, trade_period_type_ids, trade_period_source_location_ids,
  refresh_trade_scope_from_existing_rows, prepare_trade_period,
}
use eve_station_trader.Trade.Sources.{
  has_sale, is_requested, refresh_trade_scope_from_existing_rows-sources,
}
use eve_station_trader.Trade.Again.{prepare_trade_period-refresh_trade_scope_from_existing_rows}

abbrev offer : ℕ → ℕ → EsiMarketOrder ℕ
offer order_id location_id = record {
  order_id = order_id;
  region_id = 1;
  location_id = location_id;
  type_id = 34;
  system_id = 1;
  is_buy_order = false;
  price = 50;
  volume_total = pos 10;
  volume_remain = pos 10;
  min_volume = pos 1;
  order_range = "region";
  issued = 1;
  duration = pos 90;
  updated_at = 1;
}

-- Sell orders at the sources 8 and 7 and at the target 9.
abbrev scope_tables : ScopeTables ℕ
scope_tables = record {
  configured = [];
  regions = record { id = 1; region_id = 10000002 } ∷ [];
  locations = places;
  items = catalog;
  orders = offer 1 8 ∷ offer 2 9 ∷ offer 3 7 ∷ [];
  opportunities = empty;
}

-- The prices of the sources asked for.
abbrev prices_of : ScopeTables ℕ → List ℕ → List ℕ → Lookups ℕ
prices_of t sources types = record market {
  source_min_price_by_loc_type =
      select (λ (e : SourcePrice ℕ). among e.location_id sources)
        market.source_min_price_by_loc_type;
}

prices_of-All :
    (sources : List ℕ) (xs : List (SourcePrice ℕ))
    → All (IsAsked sources) (select (λ (e : SourcePrice ℕ). among e.location_id sources) xs)
prices_of-All sources [] = tt
prices_of-All sources (x ∷ xs) = elim (Bool-cases (among x.location_id sources)) [
  | inl e ↦ rw e (e, prices_of-All sources xs)
  | inr e ↦ rw e (prices_of-All sources xs)
]

abbrev no_refresh : Refreshers ℕ
no_refresh = record {
  market_prices = λ ls ts d t. t;
  structure_demand = λ l ts d t. t;
  target_market_demand = λ ls ts d t. t;
  market_demand = λ ls ts d t. t;
}

-- A full preparation makes an opportunity at either source.
made :
    map {B = ℕ × ℕ}
      (λ (r : OpportunityItem ℕ). (r.type_id, r.source_location_id))
      (prepare_trade_period whole prices_of no_refresh 1 5 true 9 none none 7
        scope_tables).opportunities.items
    ≡ (34, 7) ∷ (34, 8) ∷ []
unfolding prepare_trade_period
made = refl

refresh_trade_scope_from_existing_rows-sources_example :
    let types = trade_period_type_ids 9 none scope_tables in
    let sources = trade_period_source_location_ids 9 types (some 8) scope_tables in
    let (made, t') =
      refresh_trade_scope_from_existing_rows whole prices_of no_refresh 1 5 9
        (some 8)
        none
        0
        scope_tables in
    All
      (λ r.
        (has_sale 9 types scope_tables r.source_location_id ≡ true)
        × (is_requested (some 8) r.source_location_id ≡ true))
      (select
        (in_item_scope false 9 (distinct sources) (distinct types) (max 0 1))
        t'.opportunities.items)
unfolding refresh_trade_scope_from_existing_rows
refresh_trade_scope_from_existing_rows-sources_example =
    refresh_trade_scope_from_existing_rows-sources whole prices_of no_refresh 1 5
      (λ t sources types. prices_of-All sources market.source_min_price_by_loc_type) 9 (some 8) none
      0 scope_tables refl

-- All sources of one type.
prepare_trade_period-refresh_trade_scope_from_existing_rows_example :
    let t' =
      (refresh_trade_scope_from_existing_rows whole prices_of no_refresh 1 5 9 none
        (some 34)
        7
        scope_tables).1 in
    (prepare_trade_period whole prices_of no_refresh 1 5 false 9 none
      (some 34)
      7
      t').opportunities.items
    ≡ t'.opportunities.items
prepare_trade_period-refresh_trade_scope_from_existing_rows_example =
    prepare_trade_period-refresh_trade_scope_from_existing_rows whole prices_of no_refresh 1 5
      (λ t sources types. prices_of-All sources market.source_min_price_by_loc_type) (λ t o. refl) 9
      none (some 34) 7 scope_tables
