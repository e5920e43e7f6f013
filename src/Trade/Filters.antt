-- ===== src/Trade/Filters.antt =====
-- `_item_filter_conditions` and `_min_security_threshold` of
-- backend/app/repositories/trade_repository.py: which items the page shows.
use eve_station_trader.Prelude.{
  ℕ, ◌==◌, Bool, true, false, not, ◌&&◌, ◌||◌, Option, none, some, List, String, str_eq, is_none,
  if◌then◌else◌,
}
use eve_station_trader.Prelude.Ids.{get}
use eve_station_trader.Prelude.Texts.{strip, ilike_part}
use eve_station_trader.Ingest.Rows.{Location, Station, LocationType, npc_station, structure}
use eve_station_trader.Opportunities.Floats.{Float}
use eve_station_trader.Opportunities.Items.{OpportunityItem}
use eve_station_trader.Opportunities.Summaries.{item_qty}
use eve_station_trader.Trade.Rows.{Item}

-- The arguments of a request for summaries or items.
pub record Filters (F : Type 0) : Type 0 where
  pub item_search : String
  pub min_profit : F
  pub min_roi_now_pct : F
  pub min_demand_day : F
  pub max_dos : Option F
  pub max_item_volume_m3 : Option F
  pub source_type : String
  pub min_security : String
  pub demand_source : String
  pub min_esi_demand_day : F

-- The tables that the page joins.
pub record TradeNames : Type 0 where
  pub locations : List Location
  pub stations : List Station
  pub catalog : List Item

abbrev pub is_npc : LocationType → Bool
is_npc npc_station = true
is_npc structure = false

module _ {F : Type 0} (f : Float F) where
  -- 0.5, 0.0 or -10.0
  unfoldable pub min_security_threshold : String → F
  min_security_threshold min_security =
      if str_eq min_security "highsec"
      then f.div (f.of_ℕ 1) (f.of_ℕ 2)
      else if str_eq min_security "lowsec"
      then f.zero
      else f.sub f.zero (f.of_ℕ 10)

  -- column <= limit, where a limit is given
  abbrev pub at_most : Option F → F → Bool
  at_most none x = true
  at_most (some limit) x = not (f.lt limit x)

  -- The conditions on a row, its location and the name of its item, in their order.
  unfoldable pub item_filter_conditions :
      Filters F → LocationType → String → OpportunityItem F → Bool
  unfolding min_security_threshold item_qty strip ilike_part
  item_filter_conditions q location_type item_name r =
      (str_eq (strip q.item_search) "" || ilike_part item_name (strip q.item_search))
      && (not (f.lt f.zero q.min_profit)
          || f.lt q.min_profit (f.mul r.target_now_profit (item_qty f r)))
      && (not (f.lt f.zero q.min_roi_now_pct)
          || f.lt (f.div q.min_roi_now_pct (f.of_ℕ 100)) r.roi_now)
      && (not (f.lt f.zero q.min_demand_day) || not (f.lt r.target_demand_day q.min_demand_day))
      && at_most q.max_dos r.target_dos
      && at_most q.max_item_volume_m3 r.item_volume_m3
      && not (f.lt r.source_security_status (min_security_threshold q.min_security))
      && (not (str_eq q.source_type "npc") || is_npc location_type)
      && (not (str_eq q.source_type "structure") || not (is_npc location_type))
      && (str_eq q.demand_source "all" || str_eq r.demand_source q.demand_source)
      && (not (f.lt f.zero q.min_esi_demand_day)
          || not (f.lt r.esi_demand_day q.min_esi_demand_day))

  unfoldable pub has_item_filters : Filters F → Bool
  unfolding strip
  has_item_filters q =
      not (str_eq (strip q.item_search) "")
      || f.lt f.zero q.min_profit
      || f.lt f.zero q.min_roi_now_pct
      || f.lt f.zero q.min_demand_day
      || not (is_none q.max_dos)
      || not (is_none q.max_item_volume_m3)
      || not (str_eq q.source_type "all")
      || not (str_eq q.min_security "all")
      || not (str_eq q.demand_source "all")
      || f.lt f.zero q.min_esi_demand_day

  -- The inner joins with the location and the item, and the conditions.
  unfoldable pub joined_passes :
      Filters F → Option Location → Option Item → OpportunityItem F → Bool
  unfolding item_filter_conditions
  joined_passes q (some l) (some i) r = item_filter_conditions q l.location_type i.name r
  joined_passes q (some l) none r = false
  joined_passes q none i r = false

  unfoldable pub is_shown : Filters F → ℕ → ℕ → TradeNames → OpportunityItem F → Bool
  unfolding joined_passes
  is_shown q target period_days names r =
      r.target_location_id == target
      && r.period_days == period_days
      && joined_passes q (get (λ (l : Location). l.id) r.source_location_id names.locations)
          (get (λ (i : Item). i.id) r.type_id names.catalog) r
