-- ===== src/Trade/Again.antt =====
-- A preparation without refreshed inputs, after a generation from the same rows (proofs).
use eve_station_trader.Prelude.{
  ℕ, max, ◌≡◌, refl, ap, ◌∙◌, subst, Bool, true, false, not, ◌&&◌, Option, none, some, List, [],
  ◌∷◌, ◌==◌, Bool-cases, is_none, All, arith, inl, inr,
}
use eve_station_trader.Prelude.Ids.{get}
use eve_station_trader.Ingest.Rows.{Location}
use eve_station_trader.Opportunities.Floats.{Float}
use eve_station_trader.Opportunities.Items.{Lookups, Request}
use eve_station_trader.Opportunities.Scope.{IsAsked, generate_for_target-items}
use eve_station_trader.Opportunities.Generation.{distinct, OpportunityTables, generate_for_target}
use eve_station_trader.Trade.Prepare.{
  ScopeTables, trade_period_type_ids, trade_period_source_location_ids, Refreshers, generate,
  refresh_scope, refresh_trade_scope_from_existing_rows, prepare_scope, prepare_found,
  prepare_trade_period,
}

module _ {F : Type 0} (t : ScopeTables F) (o : OpportunityTables F) where
  types-kept :
      (target : ℕ) (type_id : Option ℕ)
      → trade_period_type_ids target type_id (record t { opportunities = o })
        ≡ trade_period_type_ids target type_id t
  unfolding trade_period_type_ids
  types-kept target none = refl
  types-kept target (some i) = refl

  sources-kept :
      (target : ℕ) (types : List ℕ) (source : Option ℕ)
      → trade_period_source_location_ids target types source (record t { opportunities = o })
        ≡ trade_period_source_location_ids target types source t
  unfolding trade_period_source_location_ids
  sources-kept target types source = refl

-- A location that is looked up by its key has that key.
get-elim :
    (P : Option Location → Type 0) (i : ℕ) (rows : List Location)
    → P none
    → ((l : Location) → l.id ≡ i → P (some l))
    → P (get (λ (x : Location). x.id) i rows)
get-elim P i [] absent found = absent
get-elim P i (x ∷ rows) absent found = elim (Bool-cases (x.id == i)) [
  | inl e ↦ rw e (found x (ground arith))
  | inr e ↦ rw e (get-elim P i rows absent found)
]

-- `blind`: the query reads no opportunities.
module _ {F : Type 0} (f : Float F) (query : ScopeTables F → List ℕ → List ℕ → Lookups F)
    (refreshers : Refreshers F) (shipping_cost_per_m3 : F) (now : ℕ)
    (asked : (t : ScopeTables F) (sources types : List ℕ)
      → All (IsAsked sources) (query t sources types).source_min_price_by_loc_type)
    (blind : (t : ScopeTables F) (o : OpportunityTables F)
      → query (record t { opportunities = o }) ≡ query t) where
  generate-again :
      (entire : Bool) (target period_days s y : ℕ) (ss ys : List ℕ) (t : ScopeTables F)
      → let make = λ (x : ScopeTables F).
        (generate f query refreshers shipping_cost_per_m3 now true entire target period_days
          (s ∷ ss)
          (y ∷ ys)
          x).1 in
        (make (make t)).opportunities.items ≡ (make t).opportunities.items
  unfolding generate
  generate-again entire target period_days s y ss ys t =
      let q : Request F = record {
        target_location_id = target;
        period_days = period_days;
        shipping_cost_per_m3 = shipping_cost_per_m3;
        computed_at = now;
      } in
      let again = λ (look : List ℕ → List ℕ → Lookups F) (o : OpportunityTables F).
        (generate_for_target f true entire q (s ∷ ss) (y ∷ ys) look o).1 in
      let o = again (query t) t.opportunities in
      ap (λ look. (again look o).items) (blind t o)
      ∙ (generate_for_target-items f entire q s y ss ys (query t) t.opportunities
          (asked t (distinct (s ∷ ss)) (distinct (y ∷ ys)))).3

  refresh_scope-kept :
      (known entire : Bool) (target period_days : ℕ) (sources types : List ℕ) (t : ScopeTables F)
      → let t' =
          (refresh_scope f query refreshers shipping_cost_per_m3 now known entire target period_days
            sources types t).1 in
        t' ≡ record t { opportunities = t'.opportunities }
  unfolding refresh_scope generate
  refresh_scope-kept known entire target period_days sources [] t = refl
  refresh_scope-kept known entire target period_days [] (y ∷ ys) t = refl
  refresh_scope-kept known entire target period_days (s ∷ ss) (y ∷ ys) t = refl

  scope-again :
      (l : Location) (entire : Bool) (period_days : ℕ) (sources types : List ℕ) (t : ScopeTables F)
      → let t' =
          (refresh_scope f query refreshers shipping_cost_per_m3 now true entire l.id period_days
            sources types t).1 in
        (prepare_scope f query refreshers shipping_cost_per_m3 now false l entire period_days
          sources types t').opportunities.items
        ≡ t'.opportunities.items
  unfolding refresh_scope prepare_scope
  scope-again l entire period_days sources [] t = refl
  scope-again l entire period_days [] (y ∷ ys) t = refl
  scope-again l entire period_days (s ∷ ss) (y ∷ ys) t =
      generate-again entire l.id period_days s y ss ys t

  found-again :
      (l : Location) (source type_id : Option ℕ) (period_days : ℕ) (t : ScopeTables F)
      → let types = trade_period_type_ids l.id type_id t in
        let t' =
          (refresh_scope f query refreshers shipping_cost_per_m3 now true
            (is_none source && is_none type_id)
            l.id
            (max period_days 1)
            (trade_period_source_location_ids l.id types source t)
            types
            t).1 in
        (prepare_found f query refreshers shipping_cost_per_m3 now false
          (some l)
          source
          type_id
          period_days
          t').opportunities.items
        ≡ t'.opportunities.items
  unfolding prepare_found
  found-again l source type_id period_days t =
      let entire = is_none source && is_none type_id in
      let types = trade_period_type_ids l.id type_id t in
      let sources = trade_period_source_location_ids l.id types source t in
      let t' : ScopeTables F =
        (refresh_scope f query refreshers shipping_cost_per_m3 now true entire l.id
          (max period_days 1) sources types t).1 in
      let kept = refresh_scope-kept true entire l.id (max period_days 1) sources types t in
      let same_types : trade_period_type_ids l.id type_id t' ≡ types =
        ap (trade_period_type_ids l.id type_id) kept ∙ types-kept t t'.opportunities l.id type_id in
      let same_sources : trade_period_source_location_ids l.id types source t' ≡ sources =
        ap (trade_period_source_location_ids l.id types source) kept
        ∙ sources-kept t t'.opportunities l.id types source in
      let run = λ (ss ts : List ℕ).
        (prepare_scope f query refreshers shipping_cost_per_m3 now false l entire
          (max period_days 1) ss ts t').opportunities.items in
      ap (λ ts. run (trade_period_source_location_ids l.id ts source t') ts) same_types
      ∙ ap (λ ss. run ss types) same_sources
      ∙ scope-again l entire (max period_days 1) sources types t

  -- Where the query gives prices of the sources asked for only and reads no opportunities, a
  -- prepare_trade_period that does not refresh the inputs, after a
  -- refresh_trade_scope_from_existing_rows for the same scope, leaves the items as they are, also when
  -- the latter has found nothing and asks for a preparation in full.
  pub prepare_trade_period-refresh_trade_scope_from_existing_rows :
      (target : ℕ) (source type_id : Option ℕ) (period_days : ℕ) (t : ScopeTables F)
      → let t' =
          (refresh_trade_scope_from_existing_rows f query refreshers shipping_cost_per_m3 now target
            source type_id period_days t).1 in
        (prepare_trade_period f query refreshers shipping_cost_per_m3 now false target source
          type_id period_days t').opportunities.items
        ≡ t'.opportunities.items
  unfolding refresh_trade_scope_from_existing_rows prepare_trade_period prepare_found
  prepare_trade_period-refresh_trade_scope_from_existing_rows target source type_id period_days t =
      let entire = is_none source && is_none type_id in
      let scoped = λ (known : Bool) (i : ℕ).
        let types = trade_period_type_ids i type_id t in
        (refresh_scope f query refreshers shipping_cost_per_m3 now known entire i
          (max period_days 1) (trade_period_source_location_ids i types source t) types t).1 in
      let prepared = λ (l : Option Location) (x : ScopeTables F).
        (prepare_found f query refreshers shipping_cost_per_m3 now false l source type_id
          period_days x).opportunities.items in
      let find = λ (rows : List Location). get (λ (x : Location). x.id) target rows in
      let known = not (is_none (find t.locations)) in
      let types = trade_period_type_ids target type_id t in
      let kept =
        refresh_scope-kept known entire target (max period_days 1)
          (trade_period_source_location_ids target types source t) types t in
      ap (λ (x : ScopeTables F). prepared (find x.locations) (scoped known target)) kept
      ∙ get-elim
          (λ l.
            prepared l (scoped (not (is_none l)) target)
            ≡ (scoped (not (is_none l)) target).opportunities.items)
          target t.locations refl
          (λ l e.
            subst (λ i. prepared (some l) (scoped true i) ≡ (scoped true i).opportunities.items) e
              (found-again l source type_id period_days t))
