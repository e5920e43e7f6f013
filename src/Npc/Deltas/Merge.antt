-- ===== src/Npc/Deltas/Merge.antt =====
-- The single pass over two sorted lists gives what a lookup of each previous order gives.
use eve_station_trader.Prelude.{
  ℕ, ◌≡◌, refl, sym, ap, ◌∙◌, true, false, List, [], ◌∷◌, ◌++◌, arith, All-map_of, inl, inr,
  Bool-cases, find_first, Option, none, some,
}
use eve_station_trader.Npc.Rows.{
  MarketOrder, StagedOrder, OrderDelta, Key, key_eq, key_lt, prev_key, new_key,
}
use eve_station_trader.Npc.Deltas.{disappeared_row, same_order, merge_diff}
use eve_station_trader.Npc.Deltas.Keys.{
  AllAfter, IsFresh, IsSorted, AllAfter-weaken, AllAfter-IsFresh, key_gt, key_eq_sym, key_eq-lt,
  key_lt-ne,
}
use eve_station_trader.Npc.Deltas.Sorting.{with_key}

module _ {P : Type 0} (loc time : ℕ) where
  -- The rows for one previous order, given the order of its key in the new snapshot.
  unfoldable pub lookup_rows : MarketOrder P → Option (StagedOrder P) → List (OrderDelta P)
  lookup_rows p none = disappeared_row loc time p ∷ []
  lookup_rows p (some n) = same_order loc time p n []

  -- The description of the deltas: look each previous order up in the new snapshot.
  unfoldable pub lookup_diff : List (MarketOrder P) → List (StagedOrder P) → List (OrderDelta P)
  unfolding lookup_rows
  lookup_diff [] ns = []
  lookup_diff (p ∷ ps) ns =
      lookup_rows p (find_first (with_key new_key (prev_key p)) ns) ++ lookup_diff ps ns

  same_order-append :
      (p : MarketOrder P) (n : StagedOrder P) (rest : List (OrderDelta P))
      → same_order loc time p n rest ≡ same_order loc time p n [] ++ rest
  unfolding same_order
  same_order-append p n rest = ground arith

  find_first-IsFresh :
      (k : Key) (ns : List (StagedOrder P))
      → IsFresh new_key k ns
      → find_first (with_key new_key k) ns ≡ none
  find_first-IsFresh k [] h = refl
  find_first-IsFresh k (n ∷ ns) h = rw h.0 (find_first-IsFresh k ns h.1)

  -- A new row before all previous ones is never looked up.
  lookup_diff-skip :
      (n : StagedOrder P) (ps : List (MarketOrder P)) (ns : List (StagedOrder P))
      → AllAfter prev_key (new_key n) ps
      → lookup_diff ps (n ∷ ns) ≡ lookup_diff ps ns
  unfolding lookup_diff
  lookup_diff-skip n [] ns h = refl
  lookup_diff-skip n (p ∷ ps) ns h = rw (
    key_eq_sym (prev_key p) (new_key n),
    key_lt-ne (new_key n) (prev_key p) h.0,
    lookup_diff-skip n ps ns h.1,
  )

  -- What one turn of the loop does, for each order of the two keys.
  module _ (p : MarketOrder P) (ps : List (MarketOrder P)) (n : StagedOrder P)
      (ns : List (StagedOrder P)) where
    merge_diff-eq :
        key_eq (prev_key p) (new_key n) ≡ true
        → merge_diff loc time (p ∷ ps) (n ∷ ns)
          ≡ same_order loc time p n (merge_diff loc time ps ns)
    unfolding merge_diff
    merge_diff-eq e = rw (e, merge_diff)

    merge_diff-lt :
        key_eq (prev_key p) (new_key n) ≡ false
        → key_lt (prev_key p) (new_key n) ≡ true
        → merge_diff loc time (p ∷ ps) (n ∷ ns)
          ≡ disappeared_row loc time p ∷ merge_diff loc time ps (n ∷ ns)
    unfolding merge_diff
    merge_diff-lt e l = rw (e, l, merge_diff)

    merge_diff-gt :
        key_eq (prev_key p) (new_key n) ≡ false
        → key_lt (prev_key p) (new_key n) ≡ false
        → merge_diff loc time (p ∷ ps) (n ∷ ns) ≡ merge_diff loc time (p ∷ ps) ns
    unfolding merge_diff
    merge_diff-gt e l = rw (e, l, merge_diff)

    lookup_diff-eq :
        key_eq (prev_key p) (new_key n) ≡ true
        → AllAfter prev_key (prev_key p) ps
        → lookup_diff (p ∷ ps) (n ∷ ns) ≡ same_order loc time p n (lookup_diff ps ns)
    unfolding lookup_diff
    lookup_diff-eq e after =
        rw
          (
            e,
            lookup_diff-skip n ps ns (
                All-map_of (λ q. key_lt (prev_key p) (prev_key q) ≡ true) ps
                  (λ q. key_eq-lt (prev_key p) (new_key n) (prev_key q) e) after),
          )
          (sym (same_order-append p n (lookup_diff ps ns)))

    lookup_diff-lt :
        AllAfter new_key (prev_key p) (n ∷ ns)
        → lookup_diff (p ∷ ps) (n ∷ ns) ≡ disappeared_row loc time p ∷ lookup_diff ps (n ∷ ns)
    unfolding lookup_diff
    lookup_diff-lt after =
        ap (λ o. lookup_rows p o ++ lookup_diff ps (n ∷ ns))
          (find_first-IsFresh (prev_key p) (n ∷ ns)
            (AllAfter-IsFresh new_key (prev_key p) (n ∷ ns) after))

  pub merge_diff-eq-lookup_diff :
      (ps : List (MarketOrder P)) (ns : List (StagedOrder P))
      → IsSorted prev_key ps
      → IsSorted new_key ns
      → merge_diff loc time ps ns ≡ lookup_diff ps ns
  unfolding merge_diff lookup_diff
  merge_diff-eq-lookup_diff [] ns s t = refl
  merge_diff-eq-lookup_diff (p ∷ ps) [] s t =
      ap (λ rest. disappeared_row loc time p ∷ rest) (merge_diff-eq-lookup_diff ps [] s.1 tt)
  merge_diff-eq-lookup_diff (p ∷ ps) (n ∷ ns) s t =
      elim (Bool-cases (key_eq (prev_key p) (new_key n))) [
        | inl e ↦
            merge_diff-eq p ps n ns e
            ∙ ap (same_order loc time p n) (merge_diff-eq-lookup_diff ps ns s.1 t.1)
            ∙ sym (lookup_diff-eq p ps n ns e s.0)
        | inr e ↦ elim (Bool-cases (key_lt (prev_key p) (new_key n))) [
          | inl l ↦
              merge_diff-lt p ps n ns e l
              ∙ ap (λ rest. disappeared_row loc time p ∷ rest)
                  (merge_diff-eq-lookup_diff ps (n ∷ ns) s.1 t)
              ∙ sym (
                  lookup_diff-lt p ps n ns
                    (l, AllAfter-weaken new_key (prev_key p) (new_key n) ns l t.0))
          | inr g ↦
              let before : key_lt (new_key n) (prev_key p) ≡ true =
                key_gt (prev_key p) (new_key n) e g in
              merge_diff-gt p ps n ns e g
              ∙ merge_diff-eq-lookup_diff (p ∷ ps) ns s t.1
              ∙ sym (
                  lookup_diff-skip n (p ∷ ps) ns
                    (before, AllAfter-weaken prev_key (new_key n) (prev_key p) ps before s.0))
        ]
      ]
