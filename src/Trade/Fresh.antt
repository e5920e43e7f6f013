-- ===== src/Trade/Fresh.antt =====
-- After a generation of all opportunities of a target, the stored summaries are what the page would
-- sum again (proofs).
use eve_station_trader.Prelude.{
  among, ℕ, ◌==◌, ◌≡◌, refl, sym, subst, ap, ◌∙◌, true, false, Option, none, some, List, [], ◌∷◌,
  ◌++◌, arith, select, delete, select-replaced, any_row, All, inl, inr, Bool-cases, ==_iff, is_none,
  str_eq, eq_iff,
}
use eve_station_trader.Prelude.Ids.{get}
use eve_station_trader.Prelude.Texts.{strip}
use eve_station_trader.Ingest.Rows.{Location}
use eve_station_trader.Opportunities.Floats.{Float}
use eve_station_trader.Opportunities.Items.{
  PriceSource, SourcePrice, Lookups, Request, OpportunityItem, item_row, item_rows,
}
use eve_station_trader.Opportunities.Rows.{item_rows-All}
use eve_station_trader.Opportunities.Scope.{IsAsked}
use eve_station_trader.Opportunities.Summaries.{
  summary_row, in_sources, grouped, summaries_for_sources,
}
use eve_station_trader.Opportunities.Generation.{
  distinct, distinct_from, in_item_scope, in_summary_scope, OpportunityTables, replace_rows,
  generate_for_target,
}
use eve_station_trader.Trade.Rows.{Item}
use eve_station_trader.Trade.Filters.{
  Filters, TradeNames, at_most, min_security_threshold, item_filter_conditions, has_item_filters,
  joined_passes, is_shown,
}
use eve_station_trader.Trade.Summaries.{
  SourceSummary, source_summary, with_name, named_summaries, in_target, stored_summaries,
  summed_again,
}

module _ {F : Type 0} (f : Float F) where
  -- The row's location and item are known, and its security is not below -10.
  abbrev pub IsListed : TradeNames → OpportunityItem F → Type 0
  IsListed names r =
      ((l : Location) × (get (λ (l : Location). l.id) r.source_location_id names.locations
          ≡ some l))
      × ((i : Item) × (get (λ (i : Item). i.id) r.type_id names.catalog ≡ some i))
      × (f.lt r.source_security_status (f.sub f.zero (f.of_ℕ 10)) ≡ false)

  none_at_most : (limit : Option F) (x : F) → is_none limit ≡ true → at_most f limit x ≡ true
  none_at_most none x h = refl
  none_at_most (some a) x h = cc

  -- Without filters, a row passes the conditions if its security is not below -10.
  no_filters-passes :
      (q : Filters F) (l : Location) (i : Item) (r : OpportunityItem F)
      → has_item_filters f q ≡ false
      → f.lt r.source_security_status (f.sub f.zero (f.of_ℕ 10)) ≡ false
      → item_filter_conditions f q l.location_type i.name r ≡ true
  unfolding has_item_filters item_filter_conditions min_security_threshold
  no_filters-passes q l i r h s =
      let a : str_eq (strip q.item_search) "" ≡ true = ground arith in
      let b : f.lt f.zero q.min_profit ≡ false = ground arith in
      let c : f.lt f.zero q.min_roi_now_pct ≡ false = ground arith in
      let d : f.lt f.zero q.min_demand_day ≡ false = ground arith in
      let e : is_none q.max_dos ≡ true = ground arith in
      let g : is_none q.max_item_volume_m3 ≡ true = ground arith in
      let t : q.source_type ≡ "all" = (eq_iff q.source_type "all").0 (ground arith) in
      let m : q.min_security ≡ "all" = (eq_iff q.min_security "all").0 (ground arith) in
      let k : str_eq q.demand_source "all" ≡ true = ground arith in
      let n : f.lt f.zero q.min_esi_demand_day ≡ false = ground arith in
      rw
        (
          a,
          b,
          c,
          d,
          none_at_most q.max_dos r.target_dos e,
          none_at_most q.max_item_volume_m3 r.item_volume_m3 g,
          m,
          s,
          t,
          k,
          n,
        )
        refl

  grouped-in_target :
      (target period_days now : ℕ) (rows rest : List (OpportunityItem F))
      → All
          (λ s. in_target f target period_days s ≡ true)
          (grouped f target period_days now rows rest)
  unfolding grouped in_target summary_row
  grouped-in_target target period_days now rows [] = tt
  grouped-in_target target period_days now rows (r ∷ rest) =
      elim (Bool-cases (any_row (λ o. o.source_location_id == r.source_location_id) rest)) [
        | inl e ↦ rw e (grouped-in_target target period_days now rows rest)
        | inr e ↦ rw e (ground arith, grouped-in_target target period_days now rows rest)
      ]

  -- The time of a summary is not shown.
  with_name-time :
      (names : TradeNames) (target period_days now source : ℕ) (rows : List (OpportunityItem F))
      (o : Option Location) (rest : List (SourceSummary F))
      → with_name f names o (summary_row f target period_days now source rows) rest
        ≡ with_name f names o (summary_row f target period_days 0 source rows) rest
  unfolding with_name source_summary summary_row
  with_name-time names target period_days now source rows none rest = refl
  with_name-time names target period_days now source rows (some l) rest = refl

  summary_row-source :
      (target period_days now source : ℕ) (rows : List (OpportunityItem F))
      → (summary_row f target period_days now source rows).source_location_id ≡ source
  unfolding summary_row
  summary_row-source target period_days now source rows = refl

  named-grouped :
      (names : TradeNames) (target period_days now : ℕ) (rows rest : List (OpportunityItem F))
      → named_summaries f names (grouped f target period_days now rows rest)
        ≡ named_summaries f names (grouped f target period_days 0 rows rest)
  unfolding grouped named_summaries summary_row
  named-grouped names target period_days now rows [] = refl
  named-grouped names target period_days now rows (r ∷ rest) =
      elim (Bool-cases (any_row (λ o. o.source_location_id == r.source_location_id) rest)) [
        | inl e ↦ rw e (named-grouped names target period_days now rows rest)
        | inr e ↦ rw e (
            rw (named-grouped names target period_days now rows rest) (
              with_name-time names target period_days now r.source_location_id
                (select (λ o. o.source_location_id == r.source_location_id) rows)
                (get (λ (l : Location). l.id) r.source_location_id names.locations)
                (named_summaries f names (grouped f target period_days 0 rows rest))))
      ]

  module _ (q : Request F) (l : Lookups F) where
    abbrev pub IsOfScope : List ℕ → OpportunityItem F → Type 0
    IsOfScope sources r =
        (r.target_location_id == q.target_location_id) ≡ true
        × ((r.period_days == q.period_days) ≡ true)
        × (among r.source_location_id sources ≡ true)

    pub item_row-IsOfScope :
        (sources : List ℕ) (type_id : ℕ) (volume : F) (price : F × PriceSource) (e : SourcePrice F)
        (system : ℕ)
        → Unit {0}
        → IsAsked sources e
        → IsOfScope sources (item_row f q l type_id volume price e system)
    unfolding item_row
    item_row-IsOfScope sources type_id volume price e system u a =
        ((==_iff _ _).1 refl, (==_iff _ _).1 refl, a)

    shown :
        (g : Filters F) (names : TradeNames) (sources : List ℕ) (rows : List (OpportunityItem F))
        → has_item_filters f g ≡ false
        → All (IsOfScope sources) rows
        → All (IsListed names) rows
        → All (λ r. is_shown f g q.target_location_id q.period_days names r ≡ true) rows
    unfolding is_shown joined_passes
    shown g names sources [] h a b = tt
    shown g names sources (r ∷ rows) h a b =
        let (place, item, s) = b.0 in
        (
          rw (a.0.0, a.0.1, place.1, item.1) (no_filters-passes g place.0 item.0 r h s),
          shown g names sources rows h a.1 b.1,
        )

    sourced :
        (sources : List ℕ) (rows : List (OpportunityItem F))
        → All (IsOfScope sources) rows
        → All (λ r. in_sources f q.target_location_id sources q.period_days r ≡ true) rows
    unfolding in_sources
    sourced sources [] a = tt
    sourced sources (r ∷ rows) a = (rw (a.0.0, a.0.1, a.0.2) refl, sourced sources rows a.1)

module _ {F : Type 0} (f : Float F) where
  shown-in_scope :
      (g : Filters F) (target period_days : ℕ) (names : TradeNames) (sources types : List ℕ)
      (r : OpportunityItem F)
      → is_shown f g target period_days names r ≡ true
      → in_item_scope true target sources types period_days r ≡ true
  unfolding is_shown in_item_scope
  shown-in_scope g target period_days names sources types r e = ground arith

  sourced-in_scope :
      (target period_days : ℕ) (sources types : List ℕ) (r : OpportunityItem F)
      → in_sources f target sources period_days r ≡ true
      → in_item_scope true target sources types period_days r ≡ true
  unfolding in_sources in_item_scope
  sourced-in_scope target period_days sources types r e = ground arith

  -- The summaries of the generation are those of the new rows.
  made_of :
      (target period_days now a : ℕ) (others types : List ℕ) (old rows : List (OpportunityItem F))
      → All (λ r. in_sources f target (a ∷ others) period_days r ≡ true) rows
      → summaries_for_sources f target
          (a ∷ others)
          period_days
          now
          (delete (in_item_scope true target (a ∷ others) types period_days) old ++ rows)
        ≡ grouped f target period_days now rows rows
  unfolding summaries_for_sources
  made_of target period_days now a others types old rows h =
      ap (λ xs. grouped f target period_days now xs xs)
        (select-replaced (in_sources f target (a ∷ others) period_days)
          (in_item_scope true target (a ∷ others) types period_days) rows old
          (λ r e. sourced-in_scope target period_days (a ∷ others) types r e) h)

pub All-unit : (xs : List ℕ) → All (λ _. Unit {0}) xs
All-unit [] = tt
All-unit (x ∷ xs) = (tt, All-unit xs)

-- Let all opportunities of a known target be generated, from prices of the sources that were asked
-- for, and let each new item have a known source and type and a security not below -10. Then, for a
-- request without filters, the stored summaries of the target and period are the same rows, in the
-- same order, as the sums over the items that pass the conditions of the request.
pub stored_summaries-summed_again :
    {F : Type 0} (f : Float F) (q : Request F) (s y : ℕ) (ss ys : List ℕ)
    (query : List ℕ → List ℕ → Lookups F) (t : OpportunityTables F) (g : Filters F)
    (names : TradeNames)
    → All
        (IsAsked (distinct (s ∷ ss)))
        (query (distinct (s ∷ ss)) (distinct (y ∷ ys))).source_min_price_by_loc_type
    → All
        (IsListed f names)
        (item_rows f q (query (distinct (s ∷ ss)) (distinct (y ∷ ys))) (distinct (y ∷ ys)))
    → has_item_filters f g ≡ false
    → let (r, t') = generate_for_target f true true q (s ∷ ss) (y ∷ ys) query t in
      stored_summaries f q.target_location_id q.period_days names t'.summaries
      ≡ summed_again f g q.target_location_id q.period_days names t'.items
unfolding generate_for_target replace_rows stored_summaries summed_again distinct distinct_from
    in_target in_summary_scope
stored_summaries-summed_again {F} f q s y ss ys query t g names asked listed h =
    let target = q.target_location_id in
    let sources = distinct (s ∷ ss) in
    let types = distinct (y ∷ ys) in
    let l = query sources types in
    let rows = item_rows f q l types in
    let mine : All (IsOfScope f q l sources) rows =
      item_rows-All f q l (IsOfScope f q l sources) (λ _. Unit {0}) (IsAsked sources)
        (item_row-IsOfScope f q l sources) types (All-unit types) asked in
    let scope = in_item_scope {F = F} true target sources types q.period_days in
    let items = delete scope t.items ++ rows in
    let sums = summaries_for_sources f target sources q.period_days q.computed_at items in
    let again = grouped f target q.period_days q.computed_at rows rows in
    let made : sums ≡ again =
      made_of f target q.period_days q.computed_at s (distinct_from (s ∷ []) ss) types t.items rows
        (sourced f q l sources rows mine) in
    let kept : select (in_target f target q.period_days)
          (delete (in_summary_scope true target sources q.period_days) t.summaries ++ sums)
        ≡ sums =
      select-replaced (in_target f target q.period_days)
        (in_summary_scope true target sources q.period_days) sums t.summaries (λ x e. e)
        (subst (All (λ s. in_target f target q.period_days s ≡ true)) (sym made)
          (grouped-in_target f target q.period_days q.computed_at rows rows)) in
    let seen : select (is_shown f g target q.period_days names) items ≡ rows =
      select-replaced (is_shown f g target q.period_days names) scope rows t.items
        (λ r e. shown-in_scope f g target q.period_days names sources types r e)
        (shown f q l g names sources rows h mine listed) in
    ap (named_summaries f names) (kept ∙ made)
    ∙ named-grouped f names target q.period_days q.computed_at rows rows
    ∙ ap (λ xs. named_summaries f names (grouped f target q.period_days 0 xs xs)) (sym seen)
