-- ===== src/Trade/Sources.antt =====
-- The sources of the opportunities that a rebuild generates (proofs).
use eve_station_trader.Prelude.{
  ℕ, ◌==◌, max, ◌≡◌, refl, sym, ◌∙◌, subst, Bool, true, false, not, ◌&&◌, ◌||◌, Option, none, some,
  List, [], ◌∷◌, map, select, among, any_row, is_none, All, arith, inl, inr, Bool-cases,
}
use eve_station_trader.Prelude.Ids.{get}
use eve_station_trader.Ingest.Rows.{Location, EsiMarketOrder}
use eve_station_trader.Opportunities.Floats.{Float}
use eve_station_trader.Opportunities.Items.{Lookups, Request, OpportunityItem}
use eve_station_trader.Opportunities.Rows.{item_rows-All}
use eve_station_trader.Opportunities.Scope.{IsAsked, generate_for_target-items, distinct-IsDistinct}
use eve_station_trader.Opportunities.Generation.{distinct, in_item_scope, generate_for_target}
use eve_station_trader.Trade.Fresh.{item_row-IsOfScope, All-unit}
use eve_station_trader.Trade.Prepare.{
  ScopeTables, insert_id, sorted_ids, configured_source_region_ids, is_source_sale,
  trade_period_type_ids, requested_among, trade_period_source_location_ids, Refreshers, generate,
  refresh_scope, refresh_trade_scope_from_existing_rows,
}

among-insert_id : (a x : ℕ) (xs : List ℕ) → among a (insert_id x xs) ≡ x == a || among a xs
unfolding insert_id
among-insert_id a x [] = refl
among-insert_id a x (y ∷ xs) = ground (arith, among-insert_id a x xs)

among-sorted_ids : (a : ℕ) (xs : List ℕ) → among a (sorted_ids xs) ≡ among a xs
unfolding sorted_ids
among-sorted_ids a [] = refl
among-sorted_ids a (x ∷ xs) =
    ground (arith, among-insert_id a x (sorted_ids xs), among-sorted_ids a xs)

among-map-select {ℓ} :
    {A : Type ℓ} (a : ℕ) (g : A → ℕ) (p : A → Bool) (xs : List A)
    → among a (map g (select p xs)) ≡ any_row (λ x. p x && (g x == a)) xs
among-map-select a g p [] = refl
among-map-select a g p (x ∷ xs) = ground (arith, among-map-select a g p xs)

among-requested_among :
    (a : ℕ) (requested : Option ℕ) (xs : List ℕ)
    → among a (requested_among requested xs) ≡ true
    → among a xs ≡ true
unfolding requested_among
among-requested_among a none xs h = h
among-requested_among a (some s) xs h = elim (Bool-cases (among s xs)) [
  | inl e ↦ let m : s ≡ a = at_one (rw e at h) in rw m at e
  | inr e ↦ absurd (nowhere (rw e at h))
]
  where
    at_one : among a (s ∷ []) ≡ true → s ≡ a
    at_one k = ground arith

    nowhere : among a [] ≡ true → ⊥
    nowhere k = cc

-- The source that was asked for, if one was.
abbrev pub is_requested : Option ℕ → ℕ → Bool
is_requested none a = true
is_requested (some s) a = s == a

among-is_requested :
    (a : ℕ) (requested : Option ℕ) (xs : List ℕ)
    → among a (requested_among requested xs) ≡ true
    → is_requested requested a ≡ true
unfolding requested_among
among-is_requested a none xs h = refl
among-is_requested a (some s) xs h = ground arith

module _ {F : Type 0} where
  -- A sell order of one of the types at the location, outside of the target and in a source region.
  abbrev pub has_sale : ℕ → List ℕ → ScopeTables F → ℕ → Bool
  has_sale target type_ids t location_id =
      any_row
        (λ o.
          is_source_sale target (configured_source_region_ids t) t o
          && among o.type_id type_ids
          && (o.location_id == location_id))
        t.orders

  source-has_sale :
      (target : ℕ) (types : List ℕ) (requested : Option ℕ) (t : ScopeTables F) (a : ℕ)
      → among a (trade_period_source_location_ids target types requested t) ≡ true
      → has_sale target types t a ≡ true
  unfolding trade_period_source_location_ids
  source-has_sale target types requested t a h =
      let sale = λ (o : EsiMarketOrder F).
        is_source_sale target (configured_source_region_ids t) t o && among o.type_id types in
      let found = map (λ (o : EsiMarketOrder F). o.location_id) (select sale t.orders) in
      sym (among-map-select a (λ (o : EsiMarketOrder F). o.location_id) sale t.orders)
      ∙ sym ((distinct-IsDistinct found).1 a)
      ∙ sym (among-sorted_ids a (distinct found))
      ∙ among-requested_among a requested (sorted_ids (distinct found)) h

  source-is_requested :
      (target : ℕ) (types : List ℕ) (requested : Option ℕ) (t : ScopeTables F) (a : ℕ)
      → among a (trade_period_source_location_ids target types requested t) ≡ true
      → is_requested requested a ≡ true
  unfolding trade_period_source_location_ids
  source-is_requested target types requested t a h = among-is_requested a requested _ h

module _ {F : Type 0} (f : Float F) (query : ScopeTables F → List ℕ → List ℕ → Lookups F)
    (refreshers : Refreshers F) (shipping_cost_per_m3 : F) (now : ℕ)
    (asked : (t : ScopeTables F) (sources types : List ℕ)
      → All (IsAsked sources) (query t sources types).source_min_price_by_loc_type) where
  -- What a generation for the two lists makes in its scope.
  generated-All :
      (P : OpportunityItem F → Type 0) (entire : Bool) (target period_days s y : ℕ) (ss ys : List ℕ)
      (t : ScopeTables F)
      → ((r : OpportunityItem F) → among r.source_location_id (s ∷ ss) ≡ true → P r)
      → All P (
          select
            (in_item_scope entire target (distinct (s ∷ ss)) (distinct (y ∷ ys)) period_days)
            (generate f query refreshers shipping_cost_per_m3 now true entire target period_days
              (s ∷ ss)
              (y ∷ ys)
              t).1.opportunities.items)
  unfolding generate
  generated-All P entire target period_days s y ss ys t here =
      let q : Request F = record {
        target_location_id = target;
        period_days = period_days;
        shipping_cost_per_m3 = shipping_cost_per_m3;
        computed_at = now;
      } in
      let sources = distinct (s ∷ ss) in
      let types = distinct (y ∷ ys) in
      let l = query t sources types in
      let made =
        generate_for_target-items f entire q s y ss ys (query t) t.opportunities
          (asked t sources types) in
      subst (All P) (sym made.0) (
        item_rows-All f q l P (λ _. Unit {0}) (IsAsked sources)
          (λ type_id volume price e system u a. here _ (
            sym ((distinct-IsDistinct (s ∷ ss)).1 _)
            ∙ (item_row-IsOfScope f q l sources type_id volume price e system u a).2))
          types (All-unit types) (asked t sources types))

  scope-All :
      (P : OpportunityItem F → Type 0) (known entire : Bool) (target period_days : ℕ)
      (sources types : List ℕ) (t : ScopeTables F)
      → ((r : OpportunityItem F) → among r.source_location_id sources ≡ true → P r)
      → let (made, t') =
          refresh_scope f query refreshers shipping_cost_per_m3 now known entire target period_days
            sources types t in
        made ≡ true
        → All P (
            select
              (in_item_scope entire target (distinct sources) (distinct types) period_days)
              t'.opportunities.items)
  unfolding refresh_scope generate generate_for_target
  scope-All P known entire target period_days sources [] t here h = cc
  scope-All P known entire target period_days [] (y ∷ ys) t here h = cc
  scope-All P false entire target period_days (s ∷ ss) (y ∷ ys) t here h = cc
  scope-All P true entire target period_days (s ∷ ss) (y ∷ ys) t here h =
      generated-All P entire target period_days s y ss ys t here

  -- If refresh_trade_scope_from_existing_rows finds opportunities, where the query gives prices of the
  -- sources asked for only, then each item in the scope that it has replaced has a source with a sell
  -- order, of one of the types of the scope, outside of the target and in one of the source regions;
  -- with a source requested, it is that source.
  pub refresh_trade_scope_from_existing_rows-sources :
      (target : ℕ) (source type_id : Option ℕ) (period_days : ℕ) (t : ScopeTables F)
      → let types = trade_period_type_ids target type_id t in
        let sources = trade_period_source_location_ids target types source t in
        let (made, t') =
          refresh_trade_scope_from_existing_rows f query refreshers shipping_cost_per_m3 now target
            source type_id period_days t in
        made ≡ true
        → All
            (λ r.
              (has_sale target types t r.source_location_id ≡ true)
              × (is_requested source r.source_location_id ≡ true))
            (select
              (in_item_scope
                (is_none source && is_none type_id)
                target
                (distinct sources)
                (distinct types)
                (max period_days 1))
              t'.opportunities.items)
  unfolding refresh_trade_scope_from_existing_rows
  refresh_trade_scope_from_existing_rows-sources target source type_id period_days t =
      let types = trade_period_type_ids target type_id t in
      let sources = trade_period_source_location_ids target types source t in
      let known = not (is_none (get (λ (x : Location). x.id) target t.locations)) in
      scope-All _ known (is_none source && is_none type_id) target (max period_days 1) sources types
        t
        (λ r a. (
          source-has_sale target types source t r.source_location_id a,
          source-is_requested target types source t r.source_location_id a,
        ))
