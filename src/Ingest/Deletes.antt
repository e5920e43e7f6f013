-- ===== src/Ingest/Deletes.antt =====
-- What `_delete_stale_orders` leaves (proofs).
use eve_station_trader.Prelude.{
  ℕ, ◌+◌, ◌==◌, ◌≡◌, refl, sym, ap, subst, ◌∙◌, Bool, false, not, ◌&&◌, Option, none, some, List,
  [], ◌∷◌, map, arith, any_row, select, length, if◌then◌else◌, inl, inr, Bool-cases, All,
}
use eve_station_trader.Prelude.Ids.{IsUnique}
use eve_station_trader.Ingest.Rows.{EsiMarketOrder, find_order}
use eve_station_trader.Ingest.Regions.{delete_in, stale_order_ids, delete_stale_orders}
use eve_station_trader.Ingest.Rounds.{delete_stale_lem, find_order-delete_in}

any_row-select-not :
    (k : ℕ) (seen xs : List ℕ)
    → any_row (λ i. i == k) (select (λ i. not (any_row (λ x. x == i) seen)) xs)
      ≡ not (any_row (λ x. x == k) seen) && any_row (λ i. i == k) xs
any_row-select-not k seen [] = ground arith
any_row-select-not k seen (i ∷ xs) = elim (Bool-cases (i == k)) [
  | inl e ↦ let m : i ≡ k = ground arith in rw m (ground (arith, any_row-select-not k seen xs))
  | inr e ↦ ground (arith, any_row-select-not k seen xs)
]

module _ {F : Type 0} where
  -- Whether the row that a unique key finds is of the region.
  abbrev pub of_region : ℕ → Option (EsiMarketOrder F) → Bool
  of_region region_id none = false
  of_region region_id (some o) = o.region_id == region_id

  any_row-ids_fresh :
      (region_id k : ℕ) (orders : List (EsiMarketOrder F))
      → All (λ o. (o.order_id == k) ≡ false) orders
      → any_row
          (λ i. i == k)
          (map (λ o. o.order_id) (select (λ o. o.region_id == region_id) orders))
        ≡ false
  any_row-ids_fresh region_id k [] h = refl
  any_row-ids_fresh region_id k (o ∷ orders) h =
      ground (arith, any_row-ids_fresh region_id k orders h.1)

  any_row-ids :
      (region_id k : ℕ) (orders : List (EsiMarketOrder F))
      → IsUnique (λ o. o.order_id) orders
      → any_row
          (λ i. i == k)
          (map (λ o. o.order_id) (select (λ o. o.region_id == region_id) orders))
        ≡ of_region region_id (find_order k orders)
  any_row-ids region_id k [] u = refl
  any_row-ids region_id k (o ∷ orders) u = elim (Bool-cases (o.order_id == k)) [
    | inl e ↦
        let m : k ≡ o.order_id = ground arith in
        let rest = any_row-ids_fresh region_id o.order_id orders u.0 in rw m (ground (arith, rest))
    | inr e ↦ ground (arith, any_row-ids region_id k orders u.1)
  ]

  -- What the deletion of the stale orders leaves for each id.
  pub find_order-delete_stale_orders :
      (region_id k : ℕ) (seen : List ℕ) (orders : List (EsiMarketOrder F))
      → IsUnique (λ o. o.order_id) orders
      → find_order k (delete_stale_orders region_id seen orders).1 ≡ (
          if not (any_row (λ x. x == k) seen) && of_region region_id (find_order k orders)
          then none
          else find_order k orders)
  unfolding delete_stale_orders stale_order_ids
  find_order-delete_stale_orders region_id k seen orders u =
      let ids = stale_order_ids region_id seen orders in
      ap (λ (p : ℕ × List (EsiMarketOrder F)). find_order k p.1) (delete_stale_lem ids orders)
      ∙ find_order-delete_in k ids orders
      ∙ ap (λ (b : Bool). if b then none else find_order k orders)
          (any_row-select-not k seen _
            ∙ ap (λ (b : Bool). not (any_row (λ x. x == k) seen) && b)
                (any_row-ids region_id k orders u))

  -- Each row is the one that its id finds.
  IsUnique-found :
      (orders : List (EsiMarketOrder F))
      → IsUnique (λ o. o.order_id) orders
      → All (λ o. find_order o.order_id orders ≡ some o) orders
  IsUnique-found [] u = tt
  IsUnique-found (o ∷ orders) u = (ground arith, behind orders (IsUnique-found orders u.1) u.0)
    where
      behind :
          (rest : List (EsiMarketOrder F))
          → All (λ r. find_order r.order_id orders ≡ some r) rest
          → All (λ r. (r.order_id == o.order_id) ≡ false) rest
          → All (λ r. find_order r.order_id (o ∷ orders) ≡ some r) rest
      behind [] h d = tt
      behind (r ∷ rest) h d = (ground (arith, h.0, d.0), behind rest h.1 d.1)

  abbrev is_stale : ℕ → List ℕ → EsiMarketOrder F → Bool
  is_stale region_id seen o =
      not (any_row (λ x. x == o.order_id) seen) && (o.region_id == region_id)

  stale-any_row :
      (region_id : ℕ) (seen : List ℕ) (orders rest : List (EsiMarketOrder F))
      → IsUnique (λ o. o.order_id) orders
      → All (λ o. find_order o.order_id orders ≡ some o) rest
      → All
          (λ o.
            any_row (λ i. i == o.order_id) (stale_order_ids region_id seen orders)
            ≡ is_stale region_id seen o)
          rest
  unfolding stale_order_ids
  stale-any_row region_id seen orders [] u h = tt
  stale-any_row region_id seen orders (o ∷ rest) u h = (
    any_row-select-not o.order_id seen _
        ∙ ap (λ (b : Bool). not (any_row (λ x. x == o.order_id) seen) && b)
            (any_row-ids region_id o.order_id orders u ∙ rw h.0 refl),
    stale-any_row region_id seen orders rest u h.1,
  )

  length-delete_in :
      (region_id : ℕ) (seen ids : List ℕ) (rest : List (EsiMarketOrder F))
      → All (λ o. any_row (λ i. i == o.order_id) ids ≡ is_stale region_id seen o) rest
      → length (delete_in ids rest) + length (stale_order_ids region_id seen rest) ≡ length rest
  unfolding delete_in stale_order_ids
  length-delete_in region_id seen ids [] h = omega arith
  length-delete_in region_id seen ids (o ∷ rest) h =
      ground (arith, h.0, length-delete_in region_id seen ids rest h.1)

  -- The count that the deletion returns is that of the rows that are gone.
  pub length-delete_stale_orders :
      (region_id : ℕ) (seen : List ℕ) (orders : List (EsiMarketOrder F))
      → IsUnique (λ o. o.order_id) orders
      → length (delete_stale_orders region_id seen orders).1
          + (delete_stale_orders region_id seen orders).0
        ≡ length orders
  unfolding delete_stale_orders
  length-delete_stale_orders region_id seen orders u =
      let ids = stale_order_ids region_id seen orders in
      ap (λ (p : ℕ × List (EsiMarketOrder F)). length p.1 + p.0) (delete_stale_lem ids orders)
      ∙ length-delete_in region_id seen ids orders
          (stale-any_row region_id seen orders orders u (IsUnique-found orders u))

  delete_in-fresh :
      (k : ℕ) (ids : List ℕ) (orders : List (EsiMarketOrder F))
      → All (λ o. (o.order_id == k) ≡ false) orders
      → All (λ o. (o.order_id == k) ≡ false) (delete_in ids orders)
  unfolding delete_in
  delete_in-fresh k ids [] h = tt
  delete_in-fresh k ids (o ∷ orders) h = elim (Bool-cases (any_row (λ i. i == o.order_id) ids)) [
    | inl e ↦ rw e (delete_in-fresh k ids orders h.1)
    | inr e ↦ rw e (h.0, delete_in-fresh k ids orders h.1)
  ]

  delete_in-IsUnique :
      (ids : List ℕ) (orders : List (EsiMarketOrder F))
      → IsUnique (λ o. o.order_id) orders
      → IsUnique (λ o. o.order_id) (delete_in ids orders)
  unfolding delete_in
  delete_in-IsUnique ids [] u = tt
  delete_in-IsUnique ids (o ∷ orders) u = elim (Bool-cases (any_row (λ i. i == o.order_id) ids)) [
    | inl e ↦ rw e (delete_in-IsUnique ids orders u.1)
    | inr e ↦ rw e (delete_in-fresh o.order_id ids orders u.0, delete_in-IsUnique ids orders u.1)
  ]

  pub delete_stale_orders-IsUnique :
      (region_id : ℕ) (seen : List ℕ) (orders : List (EsiMarketOrder F))
      → IsUnique (λ o. o.order_id) orders
      → IsUnique (λ o. o.order_id) (delete_stale_orders region_id seen orders).1
  unfolding delete_stale_orders
  delete_stale_orders-IsUnique region_id seen orders u =
      let ids = stale_order_ids region_id seen orders in
      subst (λ (p : ℕ × List (EsiMarketOrder F)). IsUnique (λ o. o.order_id) p.1)
        (sym (delete_stale_lem ids orders)) (delete_in-IsUnique ids orders u)
