-- ===== src/Ingest/Rounds.antt =====
-- The deletes of `_delete_orders_by_ids`, batch by batch (proofs).
use eve_station_trader.Prelude.{
  ℕ, zero, suc, ◌+◌, ◌*◌, ◌/◌, ◌≤◌, ◌==◌, ◌≡◌, refl, sym, ap, ◌∙◌, Bool, ◌||◌, none, List, [], ◌∷◌,
  ◌++◌, arith, any_row, length, if◌then◌else◌, inl, inr, Bool-cases,
}
use eve_station_trader.Ingest.Rows.{EsiMarketOrder, find_order}
use eve_station_trader.Ingest.Regions.{
  take, drop, delete_in, delete_rounds, delete_orders_by_ids, delete_stale,
}

module _ {ℓ} {A : Type ℓ} where
  drop-nil : (n : ℕ) → drop {A = A} n [] ≡ []
  unfolding drop
  drop-nil zero = refl
  drop-nil (suc n) = refl

  take-nil : (n : ℕ) → take {A = A} n [] ≡ []
  unfolding take
  take-nil zero = refl
  take-nil (suc n) = refl

  drop-drop : (m n : ℕ) (xs : List A) → drop n (drop m xs) ≡ drop (m + n) xs
  unfolding drop
  drop-drop zero n xs = let e : 0 + n ≡ n = omega arith in rw e refl
  drop-drop (suc m) n [] = drop-nil n ∙ sym (drop-nil (suc m + n))
  drop-drop (suc m) n (x ∷ xs) =
      let e : suc m + n ≡ suc (m + n) = omega arith in rw e (drop-drop m n xs)

  take-add : (m n : ℕ) (xs : List A) → take (m + n) xs ≡ take m xs ++ take n (drop m xs)
  unfolding take drop
  take-add zero n xs = let e : 0 + n ≡ n = omega arith in rw e refl
  take-add (suc m) n [] = take-nil (suc m + n) ∙ sym (take-nil n)
  take-add (suc m) n (x ∷ xs) =
      let e : suc m + n ≡ suc (m + n) = omega arith in rw e (ap (λ ys. x ∷ ys) (take-add m n xs))

  take_all : (n : ℕ) (xs : List A) → length xs ≤ n → take n xs ≡ xs
  unfolding take
  take_all zero [] h = refl
  take_all zero (x ∷ xs) h = absurd (omega arith)
  take_all (suc n) [] h = refl
  take_all (suc n) (x ∷ xs) h = ap (λ ys. x ∷ ys) (take_all n xs (omega arith))

any_row-append :
    (p : ℕ → Bool) (xs ys : List ℕ) → any_row p (xs ++ ys) ≡ any_row p xs || any_row p ys
any_row-append p [] ys = refl
any_row-append p (x ∷ xs) ys = ground (arith, any_row-append p xs ys)

module _ {F : Type 0} where
  delete_in-nil : (orders : List (EsiMarketOrder F)) → delete_in [] orders ≡ orders
  unfolding delete_in
  delete_in-nil [] = refl
  delete_in-nil (o ∷ orders) = ap (λ os. o ∷ os) (delete_in-nil orders)

  delete_in-append :
      (xs ys : List ℕ) (orders : List (EsiMarketOrder F))
      → delete_in ys (delete_in xs orders) ≡ delete_in (xs ++ ys) orders
  unfolding delete_in
  delete_in-append xs ys [] = refl
  delete_in-append xs ys (o ∷ orders) =
      ground (arith, delete_in-append xs ys orders, any_row-append (λ i. i == o.order_id) xs ys)

  -- With rounds enough for all of the ids, the batches delete what one statement would.
  delete_rounds-rest :
      (size n start : ℕ) (ids : List ℕ) (orders : List (EsiMarketOrder F))
      → delete_rounds size n start ids orders ≡ delete_in (take (n * size) (drop start ids)) orders
  unfolding delete_rounds
  delete_rounds-rest size zero start ids orders =
      let e : 0 * size ≡ 0 = omega arith in rw e (sym (delete_in-nil orders))
  delete_rounds-rest size (suc n) start ids orders =
      let e : suc n * size ≡ size + n * size = grind arith in
      delete_rounds-rest size n (start + size) ids (delete_in (take size (drop start ids)) orders)
      ∙ delete_in-append (take size (drop start ids)) (take (n * size) (drop (start + size) ids))
          orders
      ∙ ap (λ xs. delete_in xs orders)
          (rw (e, take-add size (n * size) (drop start ids), drop-drop start size ids) refl)

  -- The batches of `_delete_orders_by_ids` cover all ids: they delete what one statement would.
  pub delete_orders_by_ids_lem :
      (ids : List ℕ) (orders : List (EsiMarketOrder F))
      → delete_orders_by_ids ids orders ≡ delete_in ids orders
  unfolding delete_orders_by_ids drop
  delete_orders_by_ids_lem ids orders =
      delete_rounds-rest 5_000 ((length ids + 4_999) / 5_000) 0 ids orders
      ∙ ap (λ xs. delete_in xs orders)
          (take_all ((length ids + 4_999) / 5_000 * 5_000) ids (omega arith))

  pub delete_stale_lem :
      (ids : List ℕ) (orders : List (EsiMarketOrder F))
      → delete_stale ids orders ≡ (length ids, delete_in ids orders)
  unfolding delete_stale
  delete_stale_lem [] orders =
      ap (λ (os : List (EsiMarketOrder F)). (0, os)) (sym (delete_in-nil orders))
  delete_stale_lem (i ∷ ids) orders =
      ap (λ (os : List (EsiMarketOrder F)). (length (i ∷ ids), os))
        (delete_orders_by_ids_lem (i ∷ ids) orders)

  pub find_order-delete_in :
      (k : ℕ) (ids : List ℕ) (orders : List (EsiMarketOrder F))
      → find_order k (delete_in ids orders)
        ≡ (if any_row (λ i. i == k) ids then none else find_order k orders)
  unfolding delete_in
  find_order-delete_in k ids [] = ground arith
  find_order-delete_in k ids (o ∷ orders) = elim (Bool-cases (o.order_id == k)) [
    | inl e ↦
        let m : o.order_id ≡ k = ground arith in
        rw m (ground (arith, find_order-delete_in k ids orders))
    | inr e ↦ ground (arith, find_order-delete_in k ids orders)
  ]
