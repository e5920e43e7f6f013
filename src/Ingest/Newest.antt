-- ===== src/Ingest/Newest.antt =====
-- The rows that the staging table of `_ingest_batches_via_postgres_copy` selects (proofs).
use Prim.Native.Nat.{compare, Ordering}
use eve_station_trader.Prelude.{
  among, ltb, sym, ap, ==_iff, eq_of_some, ℕ, ◌+◌, ◌≤◌, ◌==◌, ◌≡◌, refl, ◌∙◌, Bool, true, false,
  Option, none, some, List, [], ◌∷◌, arith, if◌then◌else◌, inl, inr, Bool-cases, All, All-map_of,
}
use eve_station_trader.Ingest.Rows.{EsiMarketOrder, Places, find_order}
use eve_station_trader.Ingest.Batches.{StageRow}
use eve_station_trader.Ingest.Copies.{
  stage_before, insert_staged, order_staged, distinct_on, joined, materialize_valid_stage,
}

module _ {F : Type 0} where
  -- Whether `y` is the newer row: issued later, or then of a higher region or location.
  abbrev pub is_later : EsiMarketOrder F → EsiMarketOrder F → Bool
  is_later y x = elim (compare y.issued x.issued) [
    | Ordering.gt ↦ true
    | Ordering.lt ↦ false
    | Ordering.eq ↦ elim (compare y.region_id x.region_id) [
      | Ordering.gt ↦ true
      | Ordering.lt ↦ false
      | Ordering.eq ↦ ltb x.location_id y.location_id
    ]
  ]

  abbrev pub newer_of : EsiMarketOrder F → Option (EsiMarketOrder F) → Option (EsiMarketOrder F)
  newer_of x none = some x
  newer_of x (some y) = if is_later y x then some y else some x

  -- The newest of the rows with the id `k`, the first of equal ones.
  unfoldable pub newest : ℕ → List (EsiMarketOrder F) → Option (EsiMarketOrder F)
  newest k [] = none
  newest k (x ∷ xs) = let rest = newest k xs in if x.order_id == k then newer_of x rest else rest

  -- The same by the ORDER BY of the statement.
  abbrev newer : EsiMarketOrder F → Option (EsiMarketOrder F) → Option (EsiMarketOrder F)
  newer x none = some x
  newer x (some y) = if stage_before y x then some y else some x

  newest_names :
      (k : ℕ) (xs : List (EsiMarketOrder F)) (y : EsiMarketOrder F)
      → newest k xs ≡ some y
      → y.order_id ≡ k
  unfolding newest
  newest_names k [] y h = cc
  newest_names k (x ∷ xs) y h = elim (Bool-cases (x.order_id == k)) [
    | inr e ↦ newest_names k xs y (rw e at h)
    | inl e ↦ among_two ((==_iff _ _).0 e) (newest k xs) (newest_names k xs) (rw e at h)
  ]
    where
      among_two :
          x.order_id ≡ k
          → (o : Option (EsiMarketOrder F)) → ((z : EsiMarketOrder F) → o ≡ some z → z.order_id ≡ k)
          → newer_of x o ≡ some y
          → y.order_id ≡ k
      among_two e none f g = ap (λ (o : EsiMarketOrder F). o.order_id) (sym (eq_of_some g)) ∙ e
      among_two e (some z) f g = elim (Bool-cases (is_later z x)) [
        | inl n ↦ f y (rw n at g)
        | inr n ↦ ap (λ (o : EsiMarketOrder F). o.order_id) (sym (eq_of_some (rw n at g))) ∙ e
      ]

  is_later-stage_before :
      (y x : EsiMarketOrder F) → y.order_id ≡ x.order_id → is_later y x ≡ stage_before y x
  unfolding stage_before
  is_later-stage_before y x e = ground arith

  newer-newer_of :
      (k : ℕ) (x : EsiMarketOrder F) (o : Option (EsiMarketOrder F))
      → x.order_id ≡ k
      → ((z : EsiMarketOrder F) → o ≡ some z → z.order_id ≡ k)
      → newer x o ≡ newer_of x o
  newer-newer_of k x none e f = refl
  newer-newer_of k x (some z) e f = rw (is_later-stage_before z x (f z refl ∙ sym e)) refl

  -- The ids do not fall.
  abbrev IsRising : List (EsiMarketOrder F) → Type 0
  IsRising [] = Unit
  IsRising (x ∷ xs) = All (λ (y : EsiMarketOrder F). x.order_id ≤ y.order_id) xs × IsRising xs

  stage_before-le : (a b : EsiMarketOrder F) → stage_before a b ≡ true → a.order_id ≤ b.order_id
  unfolding stage_before
  stage_before-le a b h = ground arith

  le-stage_before : (a b : EsiMarketOrder F) → stage_before a b ≡ false → b.order_id ≤ a.order_id
  unfolding stage_before
  le-stage_before a b h = ground arith

  lt-stage_before :
      (a b : EsiMarketOrder F)
      → a.order_id ≤ b.order_id
      → (a.order_id == b.order_id) ≡ false
      → stage_before a b ≡ true
  unfolding stage_before
  lt-stage_before a b h d = ground arith

  insert-above :
      (k : ℕ) (r : EsiMarketOrder F) (xs : List (EsiMarketOrder F))
      → k ≤ r.order_id
      → All (λ (y : EsiMarketOrder F). k ≤ y.order_id) xs
      → All (λ (y : EsiMarketOrder F). k ≤ y.order_id) (insert_staged r xs)
  unfolding insert_staged
  insert-above k r [] h a = (h, tt)
  insert-above k r (x ∷ xs) h a = elim (Bool-cases (stage_before x r)) [
    | inl e ↦ rw e (a.0, insert-above k r xs h a.1)
    | inr e ↦ rw e (h, a)
  ]

  insert_staged-IsRising :
      (r : EsiMarketOrder F) (xs : List (EsiMarketOrder F))
      → IsRising xs
      → IsRising (insert_staged r xs)
  unfolding insert_staged
  insert_staged-IsRising r [] h = (tt, tt)
  insert_staged-IsRising r (x ∷ xs) h = elim (Bool-cases (stage_before x r)) [
    | inl e ↦
        rw e (
          insert-above x.order_id r xs (stage_before-le x r e) h.0,
          insert_staged-IsRising r xs h.1,
        )
    | inr e ↦
        let l = le-stage_before x r e in
        rw e (
          (
            l,
            All-map_of (λ (y : EsiMarketOrder F). x.order_id ≤ y.order_id) xs
                (λ y m. omega (arith, m, l)) h.0,
          ),
          h,
        )
  ]

  find_order-above :
      (k : ℕ) (x : EsiMarketOrder F) (xs : List (EsiMarketOrder F))
      → All (λ (y : EsiMarketOrder F). x.order_id ≤ y.order_id) xs
      → k + 1 ≤ x.order_id
      → find_order k xs ≡ none
  find_order-above k x [] a h = refl
  find_order-above k x (y ∷ ys) a h = ground (arith, a.0, find_order-above k x ys a.1 h)

  find_order-insert_staged :
      (k : ℕ) (r : EsiMarketOrder F) (xs : List (EsiMarketOrder F))
      → IsRising xs
      → find_order k (insert_staged r xs)
        ≡ (if r.order_id == k then newer r (find_order k xs) else find_order k xs)
  unfolding insert_staged
  find_order-insert_staged k r [] h = ground arith
  find_order-insert_staged k r (x ∷ xs) h = elim (Bool-cases (stage_before x r)) [
    | inl e ↦ ground (arith, e, find_order-insert_staged k r xs h.1)
    | inr e ↦ behind e (le-stage_before x r e) (find_order-above k x xs h.0)
  ]
    where
      behind :
          stage_before x r ≡ false
          → r.order_id ≤ x.order_id
          → (k + 1 ≤ x.order_id → find_order k xs ≡ none)
          → find_order k (if stage_before x r then x ∷ insert_staged r xs else r ∷ x ∷ xs)
            ≡ (if r.order_id == k then newer r (find_order k (x ∷ xs)) else find_order k (x ∷ xs))
      behind e l above = ground arith

  order_staged-newest :
      (k : ℕ) (xs : List (EsiMarketOrder F))
      → IsRising (order_staged xs) × (find_order k (order_staged xs) ≡ newest k xs)
  unfolding order_staged newest
  order_staged-newest k [] = (tt, refl)
  order_staged-newest k (x ∷ xs) =
      let (s, e) = order_staged-newest k xs in
      (
        insert_staged-IsRising x (order_staged xs) s,
        find_order-insert_staged k x (order_staged xs) s ∙ rw e (chosen (newest_names k xs)),
      )
    where
      chosen :
          ((z : EsiMarketOrder F) → newest k xs ≡ some z → z.order_id ≡ k)
          → (if x.order_id == k then newer x (newest k xs) else newest k xs)
            ≡ (if x.order_id == k then newer_of x (newest k xs) else newest k xs)
      chosen f = elim (Bool-cases (x.order_id == k)) [
        | inl m ↦ rw m (newer-newer_of k x (newest k xs) ((==_iff _ _).0 m) f)
        | inr m ↦ rw m refl
      ]

  find_order-distinct_on :
      (k : ℕ) (seen : List ℕ) (xs : List (EsiMarketOrder F))
      → find_order k (distinct_on seen xs) ≡ (if among k seen then none else find_order k xs)
  unfolding distinct_on
  find_order-distinct_on k seen [] = ground arith
  find_order-distinct_on k seen (x ∷ xs) = elim (Bool-cases (x.order_id == k)) [
    | inl e ↦
        let m : x.order_id ≡ k = ground arith in
        let ih = find_order-distinct_on k seen xs in rw m (ground (arith, ih))
    | inr e ↦
        ground
          (arith, find_order-distinct_on k seen xs, find_order-distinct_on k (x.order_id ∷ seen) xs)
  ]

  -- The valid stage has of each id the newest row that the joins give.
  pub find_order-materialize_valid_stage :
      (k now : ℕ) (p : Places) (stage : List (StageRow F))
      → find_order k (materialize_valid_stage now p stage) ≡ newest k (joined now p stage)
  unfolding materialize_valid_stage
  find_order-materialize_valid_stage k now p stage =
      find_order-distinct_on k [] (order_staged (joined now p stage))
      ∙ (order_staged-newest k (joined now p stage)).1
