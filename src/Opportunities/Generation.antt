-- ===== src/Opportunities/Generation.antt =====
-- `generate_for_target` of backend/app/services/opportunities/generation.py.
use eve_station_trader.Prelude.{
  among, ℕ, Bool, true, false, ◌&&◌, List, [], ◌∷◌, ◌++◌, ◌==◌, delete, length, if◌then◌else◌,
}
use eve_station_trader.Opportunities.Floats.{Float}
use eve_station_trader.Opportunities.Items.{OpportunityItem, Lookups, Request, item_rows}
use eve_station_trader.Opportunities.Summaries.{OpportunitySourceSummary, summaries_for_sources}

pub record OpportunityGenerationResult : Type 0 where
  pub item_count : ℕ
  pub summary_count : ℕ

-- The two tables that it writes.
pub record OpportunityTables (F : Type 0) : Type 0 where
  pub items : List (OpportunityItem F)
  pub summaries : List (OpportunitySourceSummary F)

-- list(dict.fromkeys(ids)): the first of equal ids stays.
unfoldable pub distinct_from : List ℕ → List ℕ → List ℕ
distinct_from seen [] = []
distinct_from seen (x ∷ xs) =
    if among x seen then distinct_from seen xs else x ∷ distinct_from (x ∷ seen) xs

unfoldable pub distinct : List ℕ → List ℕ
unfolding distinct_from
distinct xs = distinct_from [] xs

module _ {F : Type 0} where
  -- The rows that the DELETE of items takes: all of the target, or those of the given sources and types.
  unfoldable pub in_item_scope : Bool → ℕ → List ℕ → List ℕ → ℕ → OpportunityItem F → Bool
  in_item_scope true target sources types period_days r =
      r.target_location_id == target && r.period_days == period_days
  in_item_scope false target sources types period_days r =
      r.target_location_id == target
      && among r.source_location_id sources
      && among r.type_id types
      && r.period_days == period_days

  unfoldable pub in_summary_scope : Bool → ℕ → List ℕ → ℕ → OpportunitySourceSummary F → Bool
  in_summary_scope true target sources period_days r =
      r.target_location_id == target && r.period_days == period_days
  in_summary_scope false target sources period_days r =
      r.target_location_id == target
      && among r.source_location_id sources
      && r.period_days == period_days

  module _ (f : Float F) where
    -- Both ids known: the DELETEs, the rows of items, then the summaries over the new table of items.
    unfoldable pub replace_rows :
        Bool
        → Request F
        → List ℕ
        → List ℕ
        → Lookups F
        → OpportunityTables F
        → OpportunityGenerationResult × OpportunityTables F
    unfolding in_item_scope in_summary_scope item_rows summaries_for_sources
    replace_rows entire q sources types l t =
        let target = q.target_location_id in
        let rows = item_rows f q l types in
        let items =
          delete (in_item_scope entire target sources types q.period_days) t.items ++ rows in
        let summaries = summaries_for_sources f target sources q.period_days q.computed_at items in
        (
          record { item_count = length rows; summary_count = length summaries },
          record {
            items = items;
            summaries =
                delete (in_summary_scope entire target sources q.period_days) t.summaries
                ++ summaries;
          },
        )

    -- `known` says whether the target is a location, `query` gives the dicts for distinct ids.
    unfoldable pub generate_for_target :
        Bool
        → Bool
        → Request F
        → List ℕ
        → List ℕ
        → (List ℕ → List ℕ → Lookups F)
        → OpportunityTables F
        → OpportunityGenerationResult × OpportunityTables F
    unfolding replace_rows distinct
    generate_for_target known entire q [] types query t =
        (record { item_count = 0; summary_count = 0 }, t)
    generate_for_target known entire q (s ∷ ss) [] query t =
        (record { item_count = 0; summary_count = 0 }, t)
    generate_for_target known entire q (s ∷ ss) (y ∷ ys) query t =
        let sources = distinct (s ∷ ss) in
        let types = distinct (y ∷ ys) in
        if known
        then replace_rows entire q sources types (query sources types) t
        else (record { item_count = 0; summary_count = 0 }, t)
