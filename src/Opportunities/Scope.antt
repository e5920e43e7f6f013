-- ===== src/Opportunities/Scope.antt =====
-- Which rows of opportunity_items a generation replaces.
use eve_station_trader.Prelude.{
  among, ℕ, ◌≡◌, refl, sym, ap, Bool, true, false, List, [], ◌∷◌, ◌++◌, select, delete, length, All,
  ◌==◌, ==_iff, Bool-cases, inl, inr, arith,
}
use eve_station_trader.Opportunities.Floats.{Float}
use eve_station_trader.Opportunities.Items.{
  PriceSource, SourcePrice, Lookups, Request, OpportunityItem, item_row, item_rows,
}
use eve_station_trader.Opportunities.Generation.{
  distinct, distinct_from, in_item_scope, OpportunityTables, replace_rows, generate_for_target,
}
use eve_station_trader.Opportunities.Rows.{item_rows-All}

among_cons :
    (xs ys : List ℕ)
    → All (λ x. among x ys ≡ true) xs
    → (y : ℕ) → All (λ x. among x (y ∷ ys) ≡ true) xs
among_cons [] ys h y = tt
among_cons (x ∷ xs) ys h y = (ground (arith, h.0), among_cons xs ys h.1 y)

pub All-among : (xs : List ℕ) → All (λ x. among x xs ≡ true) xs
All-among [] = tt
All-among (x ∷ xs) = (ground arith, among_cons xs xs (All-among xs) x)

module _ {F : Type 0} where
  -- The price of a source that was asked for.
  abbrev pub IsAsked : List ℕ → SourcePrice F → Type 0
  IsAsked sources e = among e.location_id sources ≡ true

  item_row-in_scope :
      (f : Float F) (entire : Bool) (q : Request F) (l : Lookups F) (sources types : List ℕ)
      (type_id : ℕ) (volume : F) (price : F × PriceSource) (e : SourcePrice F) (system : ℕ)
      → among type_id types ≡ true
      → IsAsked sources e
      → in_item_scope entire q.target_location_id sources types q.period_days
          (item_row f q l type_id volume price e system)
        ≡ true
  unfolding in_item_scope item_row
  item_row-in_scope f true q l sources types type_id volume price e system h k =
      rw
        (
          (==_iff q.target_location_id q.target_location_id).1 refl,
          (==_iff q.period_days q.period_days).1 refl,
        )
        refl
  item_row-in_scope f false q l sources types type_id volume price e system h k =
      rw
        (
          (==_iff q.target_location_id q.target_location_id).1 refl,
          (==_iff q.period_days q.period_days).1 refl,
          h,
          k,
        )
        refl

  module _ (p : OpportunityItem F → Bool) where
    select-replaced :
        (rows old : List (OpportunityItem F))
        → All (λ r. p r ≡ true) rows
        → select p (delete p old ++ rows) ≡ rows
    select-replaced [] [] h = refl
    select-replaced (r ∷ rows) [] h = rw (h.0, select-replaced rows [] h.1) refl
    select-replaced rows (o ∷ old) h = elim (Bool-cases (p o)) [
      | inl e ↦ rw e (select-replaced rows old h)
      | inr e ↦ rw (e, e) (select-replaced rows old h)
    ]

    delete-replaced :
        (rows old : List (OpportunityItem F))
        → All (λ r. p r ≡ true) rows
        → delete p (delete p old ++ rows) ≡ delete p old
    delete-replaced [] [] h = refl
    delete-replaced (r ∷ rows) [] h = rw (h.0, delete-replaced rows [] h.1) refl
    delete-replaced rows (o ∷ old) h = elim (Bool-cases (p o)) [
      | inl e ↦ rw e (delete-replaced rows old h)
      | inr e ↦
          rw (e, e) (ap (λ (xs : List (OpportunityItem F)). o ∷ xs) (delete-replaced rows old h))
    ]

  -- Let the target be known, some sources and types be given, and the prices that the queries find be
  -- prices of those sources. Then a generation leaves in its scope (the target, period, sources and
  -- types; all sources and types of the target when the entire scope is replaced) just the rows that
  -- the loop over the distinct types makes, as many as it reports; every other row is as it was; and a
  -- second generation over the same results of the queries leaves the same items.
  pub generate_for_target-items :
      (f : Float F) (entire : Bool) (q : Request F) (s y : ℕ) (ss ys : List ℕ)
      (query : List ℕ → List ℕ → Lookups F) (t : OpportunityTables F)
      → let sources = distinct (s ∷ ss) in
        let types = distinct (y ∷ ys) in
        All (IsAsked sources) (query sources types).source_min_price_by_loc_type
        → let scope = in_item_scope entire q.target_location_id sources types q.period_days in
          let (r, t') = generate_for_target f true entire q (s ∷ ss) (y ∷ ys) query t in
          (select scope t'.items ≡ item_rows f q (query sources types) types)
          × (r.item_count ≡ length (select scope t'.items))
          × (delete scope t'.items ≡ delete scope t.items)
          × ((generate_for_target f true entire q (s ∷ ss) (y ∷ ys) query t').1.items ≡ t'.items)
  unfolding generate_for_target replace_rows
  generate_for_target-items f entire q s y ss ys query t asked = (
    select-replaced scope rows t.items inside,
    ap length (sym (select-replaced scope rows t.items inside)),
    delete-replaced scope rows t.items inside,
    ap (λ (xs : List (OpportunityItem F)). xs ++ rows) (delete-replaced scope rows t.items inside),
  )
    where
      sources : List ℕ
      sources = distinct (s ∷ ss)

      types : List ℕ
      types = distinct (y ∷ ys)

      scope : OpportunityItem F → Bool
      scope = in_item_scope entire q.target_location_id sources types q.period_days

      rows : List (OpportunityItem F)
      rows = item_rows f q (query sources types) types

      inside : All (λ (r : OpportunityItem F). scope r ≡ true) rows
      inside =
          item_rows-All f q (query sources types) (λ r. scope r ≡ true) (λ x. among x types ≡ true)
            (IsAsked sources) (item_row-in_scope f entire q (query sources types) sources types)
            types (All-among types) asked

-- No id occurs twice.
abbrev pub IsDistinct : List ℕ → Type 0
IsDistinct [] = Unit
IsDistinct (x ∷ xs) = (among x xs ≡ false) × IsDistinct xs

differs : (x a : ℕ) (seen : List ℕ) → among a seen ≡ true → among x seen ≡ false → (x == a) ≡ false
differs x a [] h k = cc
differs x a (y ∷ seen) h k = ground (arith, differs x a seen)

distinct_from-fresh :
    (a : ℕ) (seen xs : List ℕ) → among a seen ≡ true → among a (distinct_from seen xs) ≡ false
unfolding distinct_from
distinct_from-fresh a seen [] h = refl
distinct_from-fresh a seen (x ∷ xs) h = elim (Bool-cases (among x seen)) [
  | inl e ↦ rw e (distinct_from-fresh a seen xs h)
  | inr e ↦
      let apart = differs x a seen h e in
      rw (e, apart) (distinct_from-fresh a (x ∷ seen) xs (rw apart h))
]

distinct_from-IsDistinct : (seen xs : List ℕ) → IsDistinct (distinct_from seen xs)
unfolding distinct_from
distinct_from-IsDistinct seen [] = tt
distinct_from-IsDistinct seen (x ∷ xs) = elim (Bool-cases (among x seen)) [
  | inl e ↦ rw e (distinct_from-IsDistinct seen xs)
  | inr e ↦
      rw e
        (distinct_from-fresh x (x ∷ seen) xs (ground arith), distinct_from-IsDistinct (x ∷ seen) xs)
]

same-among :
    (x a : ℕ) (seen : List ℕ) → (x == a) ≡ true → among a seen ≡ false → among x seen ≡ false
same-among x a [] e h = refl
same-among x a (y ∷ seen) e h = ground (arith, same-among x a seen)

distinct_from-among :
    (a : ℕ) (seen xs : List ℕ) → among a seen ≡ false → among a (distinct_from seen xs) ≡ among a xs
unfolding distinct_from
distinct_from-among a seen [] h = refl
distinct_from-among a seen (x ∷ xs) h = elim (Bool-cases (x == a)) [
  | inl e ↦ rw (e, same-among x a seen e h, e) refl
  | inr e ↦ elim (Bool-cases (among x seen)) [
    | inl k ↦ rw (e, k) (distinct_from-among a seen xs h)
    | inr k ↦ rw (e, k, e) (distinct_from-among a (x ∷ seen) xs (rw e h))
  ]
]

-- The ids that are used: each of the given ones, once.
pub distinct-IsDistinct :
    (xs : List ℕ) → IsDistinct (distinct xs) × ((a : ℕ) → among a (distinct xs) ≡ among a xs)
unfolding distinct
distinct-IsDistinct xs = (distinct_from-IsDistinct [] xs, λ a. distinct_from-among a [] xs refl)
