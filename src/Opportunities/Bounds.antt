-- ===== src/Opportunities/Bounds.antt =====
-- The numbers of units in the rows that the generation makes.
use eve_station_trader.Prelude.{ℕ, Option, List, [], ◌∷◌, or_else, max, All}
use eve_station_trader.Opportunities.Floats.{Float, IsAtMost, IsOrdered}
use eve_station_trader.Opportunities.Inventory.{calculate_net_purchase_units-IsAtMost}
use eve_station_trader.Opportunities.Items.{
  PriceSource, SourcePrice, Lookups, Request, OpportunityItem, demand_or_zero, item_row, item_rows,
}
use eve_station_trader.Opportunities.Rows.{item_rows-All}

abbrev IsAny : {A : Type 0} → A → Type 0
IsAny a = Unit

All-IsAny : {A : Type 0} (xs : List A) → All IsAny xs
All-IsAny [] = tt
All-IsAny (x ∷ xs) = (tt, All-IsAny xs)

module _ {F : Type 0} (f : Float F) where
  -- A value of a dict is not negative; a missing one counts as zero.
  abbrev pub IsNonneg : Option F → Type 0
  IsNonneg o = IsAtMost f f.zero (or_else o f.zero)

  -- No sum of volumes, demand or stock in the results of the queries is negative.
  abbrev pub IsStocked : Lookups F → Type 0
  IsStocked l =
      ((loc type : ℕ) → IsNonneg (l.sell_volumes_by_loc_type loc type))
      × ((type : ℕ) → IsAtMost f f.zero (demand_or_zero f.zero (l.demands_by_type type)))
      × ((type : ℕ) → IsNonneg (l.asset_totals_by_type type))
      × ((type : ℕ) → IsNonneg (l.target_order_totals_by_type type))
      × ((loc type : ℕ) → IsNonneg (l.in_transit_totals_by_pair loc type))

  -- The units to buy of a row: not negative, at most those of the source and a day's demand.
  abbrev pub IsBuyable : OpportunityItem F → Type 0
  IsBuyable r =
      IsAtMost f f.zero r.purchase_units
      × IsAtMost f r.purchase_units r.source_units_available
      × IsAtMost f r.purchase_units r.target_demand_day

  item_row-IsBuyable :
      (laws : IsOrdered f) (q : Request F) (l : Lookups F) (stocked : IsStocked l) (type_id : ℕ)
      (volume : F) (price : F × PriceSource) (e : SourcePrice F) (system : ℕ)
      → IsBuyable (item_row f q l type_id volume price e system)
  unfolding item_row
  item_row-IsBuyable laws q l (sells, demands, assets, orders, transit) type_id volume price e
        system =
      calculate_net_purchase_units-IsAtMost f laws
        (or_else (l.sell_volumes_by_loc_type e.location_id type_id) f.zero)
        (f.div (demand_or_zero f.zero (l.demands_by_type type_id)) (f.of_ℕ (max q.period_days 1)))
        (or_else (l.asset_totals_by_type type_id) f.zero)
        (or_else (l.target_order_totals_by_type type_id) f.zero)
        (or_else (l.in_transit_totals_by_pair e.location_id type_id) f.zero)
        (sells e.location_id type_id)
        (laws.div_nonneg _ _ (demands type_id) (laws.of_ℕ_nonneg (max q.period_days 1)))
        (assets type_id) (orders type_id) (transit e.location_id type_id)

  -- Over results of the queries without negative sums, and floats that are not NaN, every row that the
  -- loop makes buys a number of units that is not negative, is at most what is offered at its source,
  -- and at most the demand of a day at the target.
  pub item_rows-IsBuyable :
      (laws : IsOrdered f) (q : Request F) (l : Lookups F) (types : List ℕ)
      → IsStocked l
      → All IsBuyable (item_rows f q l types)
  item_rows-IsBuyable laws q l types stocked =
      item_rows-All f q l IsBuyable IsAny IsAny
        (λ type_id volume price e system _ _.
          item_row-IsBuyable laws q l stocked type_id volume price e system)
        types (All-IsAny types) (All-IsAny l.source_min_price_by_loc_type)
