-- ===== src/Trade/Prepare.antt =====
-- `prepare_trade_period`, `refresh_trade_scope_from_existing_rows`, `_trade_period_type_ids`,
-- `_trade_period_source_location_ids` and `_configured_source_region_ids` of
-- backend/app/services/sync/service.py: which types and sources a rebuild generates.
use eve_station_trader.Prelude.{
  ℕ, ◌==◌, leb, ltb, max, Bool, true, false, not, ◌&&◌, Option, none, some, List, [], ◌∷◌, map,
  select, among, is_none, if◌then◌else◌,
}
use eve_station_trader.Prelude.Ids.{get}
use eve_station_trader.Ingest.Rows.{
  Region, Location, LocationType, npc_station, structure, EsiMarketOrder,
}
use eve_station_trader.Opportunities.Floats.{Float}
use eve_station_trader.Opportunities.Items.{Lookups}
use eve_station_trader.Opportunities.Generation.{
  distinct, OpportunityTables, OpportunityGenerationResult, generate_for_target,
}
use eve_station_trader.Trade.Rows.{Item, resolve_type_id}

-- The tables that choose the scope, and those of the opportunities; `configured` is source_region_ids
-- of the settings.
pub record ScopeTables (F : Type 0) : Type 0 where
  pub configured : List ℕ
  pub regions : List Region
  pub locations : List Location
  pub items : List Item
  pub orders : List (EsiMarketOrder F)
  pub opportunities : OpportunityTables F

unfoldable pub insert_id : ℕ → List ℕ → List ℕ
insert_id a [] = a ∷ []
insert_id a (x ∷ xs) = if leb a x then a ∷ x ∷ xs else x ∷ insert_id a xs

-- sorted(ids)
unfoldable pub sorted_ids : List ℕ → List ℕ
unfolding insert_id
sorted_ids [] = []
sorted_ids (x ∷ xs) = insert_id x (sorted_ids xs)

unfoldable pub insert_region : Region → List Region → List Region
insert_region r [] = r ∷ []
insert_region r (x ∷ xs) =
    if leb r.region_id x.region_id then r ∷ x ∷ xs else x ∷ insert_region r xs

unfoldable pub order_regions : List Region → List Region
unfolding insert_region
order_regions [] = []
order_regions (x ∷ xs) = insert_region x (order_regions xs)

-- All regions, if none is configured.
unfoldable pub is_configured : List ℕ → Region → Bool
is_configured [] r = true
is_configured (c ∷ cs) r = among r.region_id (c ∷ cs)

abbrev pub located_in : List ℕ → Option Location → Bool
located_in region_ids none = false
located_in region_ids (some l) = among l.region_id region_ids

abbrev pub one_id : Option ℕ → List ℕ
one_id none = []
one_id (some i) = i ∷ []

unfoldable pub requested_among : Option ℕ → List ℕ → List ℕ
requested_among none sources = sources
requested_among (some s) sources = if among s sources then s ∷ [] else []

abbrev pub is_structure : LocationType → Bool
is_structure structure = true
is_structure npc_station = false

-- The refreshes of prices and demand, as changes to the tables.
pub record Refreshers (F : Type 0) : Type 0 where
  pub market_prices : List ℕ → List ℕ → ℕ → ScopeTables F → ScopeTables F
  pub structure_demand : Location → List ℕ → ℕ → ScopeTables F → ScopeTables F
  pub target_market_demand : List ℕ → List ℕ → ℕ → ScopeTables F → ScopeTables F
  pub market_demand : List ℕ → List ℕ → ℕ → ScopeTables F → ScopeTables F

module _ {F : Type 0} where
  unfoldable pub configured_source_region_ids : ScopeTables F → List ℕ
  unfolding is_configured order_regions
  configured_source_region_ids t =
      map (λ (r : Region). r.id) (order_regions (select (is_configured t.configured) t.regions))

  -- A sell order outside of the target, at a location in one of the regions.
  unfoldable pub is_source_sale : ℕ → List ℕ → ScopeTables F → EsiMarketOrder F → Bool
  is_source_sale target region_ids t o =
      not o.is_buy_order
      && located_in region_ids (get (λ (l : Location). l.id) o.location_id t.locations)
      && not (o.location_id == target)

  unfoldable pub trade_period_type_ids : ℕ → Option ℕ → ScopeTables F → List ℕ
  unfolding configured_source_region_ids is_source_sale sorted_ids distinct resolve_type_id
  trade_period_type_ids target (some requested) t = one_id (resolve_type_id requested t.items)
  trade_period_type_ids target none t = sorted_ids (
      distinct (
        map (λ (o : EsiMarketOrder F). o.type_id)
          (select (is_source_sale target (configured_source_region_ids t) t) t.orders)))

  unfoldable pub trade_period_source_location_ids : ℕ → List ℕ → Option ℕ → ScopeTables F → List ℕ
  unfolding configured_source_region_ids is_source_sale sorted_ids distinct requested_among
  trade_period_source_location_ids target type_ids requested t = requested_among requested (
      sorted_ids (
        distinct (
          map (λ (o : EsiMarketOrder F). o.location_id)
            (select
              (λ o.
                is_source_sale target (configured_source_region_ids t) t o
                && among o.type_id type_ids)
              t.orders))))

  unfoldable pub refresh_inputs :
      Refreshers F → Location → List ℕ → ℕ → ScopeTables F → ScopeTables F
  unfolding configured_source_region_ids sorted_ids distinct
  refresh_inputs r target type_ids period_days t =
      let priced = r.market_prices (target.id ∷ []) type_ids period_days t in
      if is_structure target.location_type
      then (let counted = r.structure_demand target type_ids period_days priced in
          r.market_demand (target.id ∷ []) type_ids period_days counted)
      else r.target_market_demand (target.id ∷ [])
          (sorted_ids (distinct (target.region_id ∷ configured_source_region_ids priced)))
          period_days priced

-- `query` gives the dicts of a generation from the tables.
module _ {F : Type 0} (f : Float F) (query : ScopeTables F → List ℕ → List ℕ → Lookups F)
    (refreshers : Refreshers F) (shipping_cost_per_m3 : F) (now : ℕ) where
  unfoldable pub generate :
      Bool
      → Bool
      → ℕ
      → ℕ
      → List ℕ
      → List ℕ
      → ScopeTables F
      → OpportunityGenerationResult × ScopeTables F
  unfolding generate_for_target
  generate known entire target period_days sources types t =
      let (result, opportunities) =
        generate_for_target f known entire
          (record {
            target_location_id = target;
            period_days = period_days;
            shipping_cost_per_m3 = shipping_cost_per_m3;
            computed_at = now;
          })
          sources types (query t) t.opportunities in
      (result, record t { opportunities = opportunities })

  -- With both lists; an empty one ends the call.
  unfoldable pub refresh_scope :
      Bool → Bool → ℕ → ℕ → List ℕ → List ℕ → ScopeTables F → Bool × ScopeTables F
  unfolding generate
  refresh_scope known entire target period_days sources [] t = (false, t)
  refresh_scope known entire target period_days [] (y ∷ ys) t = (false, t)
  refresh_scope known entire target period_days (s ∷ ss) (y ∷ ys) t =
      let (result, t') = generate known entire target period_days (s ∷ ss) (y ∷ ys) t in
      (ltb 0 result.item_count, t')

  unfoldable pub refresh_trade_scope_from_existing_rows :
      ℕ → Option ℕ → Option ℕ → ℕ → ScopeTables F → Bool × ScopeTables F
  unfolding trade_period_type_ids trade_period_source_location_ids refresh_scope
  refresh_trade_scope_from_existing_rows target source type_id period_days t =
      let types = trade_period_type_ids target type_id t in
      let known = not (is_none (get (λ (l : Location). l.id) target t.locations)) in
      refresh_scope known (is_none source && is_none type_id) target (max period_days 1)
        (trade_period_source_location_ids target types source t) types t

  unfoldable pub prepare_scope :
      Bool → Location → Bool → ℕ → List ℕ → List ℕ → ScopeTables F → ScopeTables F
  unfolding refresh_inputs generate
  prepare_scope refresh target entire period_days sources [] t = t
  prepare_scope refresh target entire period_days [] (y ∷ ys) t = t
  prepare_scope refresh target entire period_days (s ∷ ss) (y ∷ ys) t =
      let t' = if refresh then refresh_inputs refreshers target (y ∷ ys) period_days t else t in
      (generate true entire target.id period_days (s ∷ ss) (y ∷ ys) t').1

  unfoldable pub prepare_found :
      Bool → Option Location → Option ℕ → Option ℕ → ℕ → ScopeTables F → ScopeTables F
  unfolding trade_period_type_ids trade_period_source_location_ids prepare_scope
  prepare_found refresh none source type_id period_days t = t
  prepare_found refresh (some target) source type_id period_days t =
      let types = trade_period_type_ids target.id type_id t in
      prepare_scope refresh target (is_none source && is_none type_id) (max period_days 1)
        (trade_period_source_location_ids target.id types source t) types t

  unfoldable pub prepare_trade_period :
      Bool → ℕ → Option ℕ → Option ℕ → ℕ → ScopeTables F → ScopeTables F
  unfolding prepare_found
  prepare_trade_period refresh target source type_id period_days t =
      prepare_found refresh (get (λ (l : Location). l.id) target t.locations) source type_id
        period_days t
