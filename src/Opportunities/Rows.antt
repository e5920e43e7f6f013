-- ===== src/Opportunities/Rows.antt =====
-- A property of all rows that the loop over types makes, from one of the row of a type and a source.
use eve_station_trader.Prelude.{
  ℕ, Bool, Option, none, some, List, [], ◌∷◌, select, ◌==◌, All, All-append, Bool-cases, inl, inr,
}
use eve_station_trader.Prelude.{ltb}
use eve_station_trader.Opportunities.Floats.{Float}
use eve_station_trader.Opportunities.Items.{
  PriceSource, SourcePrice, Lookups, Request, OpportunityItem, insert_source, sort_sources,
  actual_sources, item_row, located_row, add_item, source_rows, type_rows, item_rows,
}

module _ {F : Type 0} (Q : SourcePrice F → Type 0) where
  insert_source-All :
      (a : SourcePrice F) (bs : List (SourcePrice F)) → Q a → All Q bs → All Q (insert_source a bs)
  unfolding insert_source
  insert_source-All a [] h k = (h, tt)
  insert_source-All a (b ∷ bs) h k = elim (Bool-cases (ltb b.location_id a.location_id)) [
    | inl e ↦ rw e (k.0, insert_source-All a bs h k.1)
    | inr e ↦ rw e (h, k)
  ]

  sort_sources-All : (es : List (SourcePrice F)) → All Q es → All Q (sort_sources es)
  unfolding sort_sources
  sort_sources-All [] h = tt
  sort_sources-All (a ∷ rest) h =
      insert_source-All a (sort_sources rest) h.0 (sort_sources-All rest h.1)

  select-All :
      (p : SourcePrice F → Bool) (es : List (SourcePrice F)) → All Q es → All Q (select p es)
  select-All p [] h = tt
  select-All p (a ∷ rest) h = elim (Bool-cases (p a)) [
    | inl e ↦ rw e (h.0, select-All p rest h.1)
    | inr e ↦ rw e (select-All p rest h.1)
  ]

module _ {F : Type 0} (f : Float F) (q : Request F) (l : Lookups F) (P : OpportunityItem F → Type 0)
    (T : ℕ → Type 0) (Q : SourcePrice F → Type 0)
    (here : (type_id : ℕ) (volume : F) (price : F × PriceSource) (e : SourcePrice F) (system : ℕ)
      → T type_id
      → Q e
      → P (item_row f q l type_id volume price e system)) where
  source_rows-All :
      (type_id : ℕ) (volume : F) (price : F × PriceSource) (es : List (SourcePrice F))
      → T type_id
      → All Q es
      → All P (source_rows f q l type_id volume price es)
  unfolding source_rows
  source_rows-All type_id volume price [] h k = tt
  source_rows-All type_id volume price (e ∷ es) h k =
      pick (l.source_systems_of e.location_id) (source_rows-All type_id volume price es h k.1)
    where
      pick :
          (o : Option ℕ)
          → All P (source_rows f q l type_id volume price es)
          → All P (
              add_item
                (located_row f q l type_id volume price e o)
                (source_rows f q l type_id volume price es))
      pick none rest = rest
      pick (some system) rest = (here type_id volume price e system h k.0, rest)

  type_rows-All :
      (type_id : ℕ) (volume : Option F) (price : Option (F × PriceSource))
      → T type_id
      → All Q l.source_min_price_by_loc_type
      → All P (type_rows f q l type_id volume price)
  unfolding type_rows actual_sources
  type_rows-All type_id none price h k = tt
  type_rows-All type_id (some volume) none h k = tt
  type_rows-All type_id (some volume) (some price) h k =
      source_rows-All type_id volume price (actual_sources type_id l.source_min_price_by_loc_type) h
        (sort_sources-All Q _
          (select-All Q (λ e. e.type_id == type_id) l.source_min_price_by_loc_type k))

  pub item_rows-All :
      (types : List ℕ)
      → All T types
      → All Q l.source_min_price_by_loc_type
      → All P (item_rows f q l types)
  unfolding item_rows
  item_rows-All [] h k = tt
  item_rows-All (type_id ∷ types) h k =
      All-append P (type_rows f q l type_id (l.item_volumes type_id) _) (item_rows f q l types)
        (type_rows-All type_id (l.item_volumes type_id) _ h.0 k) (item_rows-All types h.1 k)
