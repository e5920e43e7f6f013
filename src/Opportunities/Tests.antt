-- ===== src/Opportunities/Tests.antt =====
-- A small market in whole numbers, and the opportunities that are generated for it.
use eve_station_trader.Prelude.{
  ℕ, ◌≡◌, refl, true, false, [], ◌∷◌, select, delete, length, map, All,
}
use eve_station_trader.Opportunities.Whole.{whole, whole_laws}
use eve_station_trader.Opportunities.Samples.{market, request, empty}
use eve_station_trader.Opportunities.Items.{OpportunityItem, item_rows}
use eve_station_trader.Opportunities.Generation.{distinct, in_item_scope, generate_for_target}
use eve_station_trader.Opportunities.Bounds.{IsStocked, IsBuyable, item_rows-IsBuyable}
use eve_station_trader.Opportunities.Scope.{generate_for_target-items}

-- Sources in the order of their ids for each type; ten units a day less the four in stock.
made :
    map {B = ℕ × ℕ × ℕ}
      (λ (r : OpportunityItem ℕ). (r.type_id, r.source_location_id, r.purchase_units))
      (item_rows whole request market (34 ∷ 35 ∷ []))
    ≡ (34, 7, 6) ∷ (34, 8, 6) ∷ (35, 7, 6) ∷ []
unfolding item_rows
made = refl

market-IsStocked : IsStocked whole market
market-IsStocked = ((λ loc t. refl), (λ t. refl), (λ t. refl), (λ t. refl), (λ loc t. refl))

item_rows-IsBuyable_example : All (IsBuyable whole) (item_rows whole request market (34 ∷ 35 ∷ []))
item_rows-IsBuyable_example =
    item_rows-IsBuyable whole whole_laws request market (34 ∷ 35 ∷ []) market-IsStocked

generate_for_target-items_example :
    let sources = distinct (8 ∷ 7 ∷ 8 ∷ []) in
    let types = distinct (34 ∷ 35 ∷ []) in
    let scope = in_item_scope false 9 sources types 7 in
    let (r, t') =
      generate_for_target whole true false request
        (8 ∷ 7 ∷ 8 ∷ [])
        (34 ∷ 35 ∷ [])
        (λ ss ts. market)
        empty in
    (select scope t'.items ≡ item_rows whole request market types)
    × (r.item_count ≡ length (select scope t'.items))
    × (delete scope t'.items ≡ delete scope empty.items)
    × ((generate_for_target whole true false request
          (8 ∷ 7 ∷ 8 ∷ [])
          (34 ∷ 35 ∷ [])
          (λ ss ts. market)
          t').1.items
        ≡ t'.items)
unfolding distinct
generate_for_target-items_example =
    generate_for_target-items whole false request 8 34 (7 ∷ 8 ∷ []) (35 ∷ []) (λ ss ts. market)
      empty (refl, (refl, (refl, tt)))
