-- ===== src/Ingest/Replaced.antt =====
-- What the DELETE and the INSERT of `_ingest_batches_via_postgres_copy` leave at an id (proofs).
use eve_station_trader.Prelude.{
  among, ℕ, ◌==◌, ◌≡◌, refl, ◌∙◌, Bool, true, false, Option, none, some, List, [], ◌∷◌, ◌++◌, arith,
  any_row, find_first-append_some, find_first-append_none, if◌then◌else◌, inl, inr, Bool-cases, All,
}
use eve_station_trader.Ingest.Rows.{
  EsiMarketOrder, done, raise, eq_of_done, find_order, integrity_error,
}
use eve_station_trader.Prelude.Ids.{IsUnique}
use eve_station_trader.Ingest.Copies.{has_order, kept_orders, insert_valid}

module _ {F : Type 0} where
  any_row-find_order :
      (k : ℕ) (rows : List (EsiMarketOrder F)) (o : EsiMarketOrder F)
      → find_order k rows ≡ some o
      → any_row (λ o. o.order_id == k) rows ≡ true
  any_row-find_order k [] o h = cc
  any_row-find_order k (x ∷ rows) o h = ground (arith, any_row-find_order k rows o)

  -- With the INSERT accepted, a valid row's id is not in the rest of the table.
  clash_free :
      (k : ℕ) (valid kept : List (EsiMarketOrder F)) (o v : EsiMarketOrder F)
      → find_order k kept ≡ some o
      → find_order k valid ≡ some v
      → any_row (λ v. has_order v.order_id kept) valid ≡ true
  unfolding has_order
  clash_free k [] kept o v h e = cc
  clash_free k (x ∷ valid) kept o v h e = elim (Bool-cases (x.order_id == k)) [
    | inl m ↦
        let n : x.order_id ≡ k = ground arith in
        let found = any_row-find_order k kept o h in rw (n, found) refl
    | inr m ↦ ground (arith, clash_free k valid kept o v h (rw m at e))
  ]

  -- A row, or else another.
  abbrev pub or_row :
      Option (EsiMarketOrder F) → Option (EsiMarketOrder F) → Option (EsiMarketOrder F)
  or_row (some v) d = some v
  or_row none d = d

  or_row-none : (o : Option (EsiMarketOrder F)) → o ≡ or_row o none
  or_row-none none = refl
  or_row-none (some v) = refl

  pub find_order-insert_valid :
      (k : ℕ) (valid kept orders : List (EsiMarketOrder F))
      → insert_valid valid kept ≡ done orders
      → find_order k orders ≡ or_row (find_order k valid) (find_order k kept)
  unfolding insert_valid
  find_order-insert_valid k valid kept orders h =
      elim (Bool-cases (any_row (λ v. has_order v.order_id kept) valid)) [
        | inl e ↦ absurd (refused (rw e at h))
        | inr e ↦
            let m : kept ++ valid ≡ orders = eq_of_done (rw e at h) in
            rw (← m) (both e (find_order k kept) refl (find_order k valid) refl)
      ]
    where
      refused : raise integrity_error ≡ done orders → ⊥
      refused c = cc

      clash : (b : Bool) → b ≡ true → b ≡ false → ⊥
      clash b e f = cc

      both :
          any_row (λ v. has_order v.order_id kept) valid ≡ false
          → (o : Option (EsiMarketOrder F)) → find_order k kept ≡ o
          → (v : Option (EsiMarketOrder F)) → find_order k valid ≡ v
          → find_order k (kept ++ valid) ≡ or_row (find_order k valid) (find_order k kept)
      both e none f v g =
          find_first-append_none (λ o. o.order_id == k) kept valid f
          ∙ rw f (or_row-none (find_order k valid))
      both e (some o) f none g =
          find_first-append_some (λ o. o.order_id == k) kept valid o f ∙ rw (g, f) refl
      both e (some o) f (some v) g = absurd (clash _ (clash_free k valid kept o v f g) e)

  -- The rows of other regions, at an id.
  abbrev pub outside : List ℕ → Option (EsiMarketOrder F) → Option (EsiMarketOrder F)
  outside region_ids none = none
  outside region_ids (some o) = if among o.region_id region_ids then none else some o

  kept_orders-absent :
      (k : ℕ) (region_ids : List ℕ) (orders : List (EsiMarketOrder F))
      → All (λ (o : EsiMarketOrder F). (o.order_id == k) ≡ false) orders
      → find_order k (kept_orders region_ids orders) ≡ none
  unfolding kept_orders
  kept_orders-absent k region_ids [] h = refl
  kept_orders-absent k region_ids (o ∷ orders) h =
      ground (arith, h.0, kept_orders-absent k region_ids orders h.1)

  pub find_order-kept_orders :
      (k : ℕ) (region_ids : List ℕ) (orders : List (EsiMarketOrder F))
      → IsUnique (λ (o : EsiMarketOrder F). o.order_id) orders
      → find_order k (kept_orders region_ids orders) ≡ outside region_ids (find_order k orders)
  unfolding kept_orders
  find_order-kept_orders k region_ids [] u = refl
  find_order-kept_orders k region_ids (o ∷ orders) u = elim (Bool-cases (o.order_id == k)) [
    | inl e ↦
        let m : k ≡ o.order_id = ground arith in
        let absent = kept_orders-absent o.order_id region_ids orders u.0 in
        rw m (ground (arith, absent))
    | inr e ↦ ground (arith, find_order-kept_orders k region_ids orders u.1)
  ]
