-- ===== src/Npc/Deltas/Sorting.antt =====
-- ORDER BY type_id, order_id gives rows in strictly rising keys, with the same rows by key.
use eve_station_trader.Prelude.{
  ◌≡◌, refl, Bool, true, false, List, [], ◌∷◌, arith, All, inl, inr, Bool-cases, if◌then◌else◌,
  find_first, some,
}
use eve_station_trader.Npc.Rows.{Key, key_eq, key_lt}
use eve_station_trader.Npc.Deltas.{insert_by, order_by}
use eve_station_trader.Npc.Deltas.Keys.{
  IsFresh, IsSorted, IsUnique, AllAfter-weaken, key_gt, key_eq_sym, key_eq_trans,
}

module _ {R : Type 0} (key : R → Key) where
  All-insert_by :
      (P : R → Type 0) (r : R) (rs : List R) → P r → All P rs → All P (insert_by key r rs)
  unfolding insert_by
  All-insert_by P r [] h k = (h, tt)
  All-insert_by P r (x ∷ xs) h k = elim (Bool-cases (key_lt (key x) (key r))) [
    | inl e ↦ rw e (k.0, All-insert_by P r xs h k.1)
    | inr e ↦ rw e (h, k)
  ]

  pub All-order_by : (P : R → Type 0) (rs : List R) → All P rs → All P (order_by key rs)
  unfolding order_by
  All-order_by P [] h = tt
  All-order_by P (r ∷ rs) h = All-insert_by P r (order_by key rs) h.0 (All-order_by P rs h.1)

  insert_by-IsSorted :
      (r : R) (rs : List R)
      → IsFresh key (key r) rs
      → IsSorted key rs
      → IsSorted key (insert_by key r rs)
  unfolding insert_by
  insert_by-IsSorted r [] f s = (tt, tt)
  insert_by-IsSorted r (x ∷ xs) f s = elim (Bool-cases (key_lt (key x) (key r))) [
    | inl e ↦ rw e (
      All-insert_by (λ y. key_lt (key x) (key y) ≡ true) r xs e s.0,
      insert_by-IsSorted r xs f.1 s.1,
    )
    | inr e ↦
        let before : key_lt (key r) (key x) ≡ true = key_gt (key x) (key r) (rw key_eq_sym f.0) e in
        rw e ((before, AllAfter-weaken key (key r) (key x) xs before s.0), s)
  ]

  pub order_by-IsSorted : (rs : List R) → IsUnique key rs → IsSorted key (order_by key rs)
  unfolding order_by
  order_by-IsSorted [] h = tt
  order_by-IsSorted (r ∷ rs) h =
      insert_by-IsSorted r (order_by key rs)
        (All-order_by (λ y. key_eq (key r) (key y) ≡ false) rs h.0) (order_by-IsSorted rs h.1)

  module _ (k : Key) where
    abbrev pub with_key : R → Bool
    with_key r = key_eq k (key r)

    find_first-insert_by :
        (r : R) (rs : List R)
        → IsFresh key (key r) rs
        → find_first with_key (insert_by key r rs)
          ≡ (if key_eq k (key r) then some r else find_first with_key rs)
    unfolding insert_by
    find_first-insert_by r [] f = refl
    find_first-insert_by r (x ∷ xs) f =
        ground (arith, find_first-insert_by r xs f.1, f.0, key_eq_trans k (key r) (key x))

    -- A row is found by its key in the sorted list as in the unsorted one.
    pub find_first-order_by :
        (rs : List R)
        → IsUnique key rs
        → find_first with_key (order_by key rs) ≡ find_first with_key rs
    unfolding order_by
    find_first-order_by [] h = refl
    find_first-order_by (r ∷ rs) h =
        rw
          (find_first-insert_by r (order_by key rs)
            (All-order_by (λ y. key_eq (key r) (key y) ≡ false) rs h.0))
          (rw (find_first-order_by rs h.1) refl)
