-- ===== src/Npc/Deltas/Units.antt =====
-- What the rows of npc_stations/deltas.py say about the volumes that were traded.
use eve_station_trader.Prelude.{
  ℕ, ◌≡◌, refl, true, false, Option, none, some, List, [], ◌∷◌, arith, All, All-append, find_first,
  Bool-cases, not, is_none, ◌||◌, inl, inr, ◌⊎◌,
}
use eve_station_trader.Prelude.Int.{pos, ◌+ℤ◌, ◌-ℤ◌, ◌≤ℤ◌, neg_ℤ, max_ℤ, ltb_ℤ, is_zero}
use eve_station_trader.Npc.Rows.{MarketOrder, StagedOrder, OrderDelta, prev_key, new_key}
use eve_station_trader.Npc.Deltas.{Tables, changed_row, disappeared_row, same_order, prev_rows}
use eve_station_trader.Npc.Deltas.Sorting.{with_key, All-order_by}
use eve_station_trader.Npc.Deltas.Merge.{lookup_rows, lookup_diff}
use eve_station_trader.Npc.Deltas.Station.{at_prev, at_new, station_rows}

module _ {P : Type 0} where
  -- A row accounts for the volumes of its order: the delta is their difference and is not zero but
  -- for an order that disappeared, the units traded are what the volume fell by (0 if it rose), and
  -- a side is inferred exactly if the volume fell or the order disappeared.
  pub record IsAccounted (d : OrderDelta P) : Type 0 where
    pub adds_up : d.old_volume +ℤ d.delta_volume ≡ d.new_volume
    pub fallen : d.inferred_trade_units ≡ max_ℤ (d.old_volume -ℤ d.new_volume) (pos 0)
    pub changed : (d.disappeared ≡ true) ⊎ (is_zero d.delta_volume ≡ false)
    pub gone : d.disappeared ≡ true → d.new_volume ≡ pos 0
    pub sided :
        not (is_none d.inferred_trade_side) ≡ d.disappeared || ltb_ℤ d.new_volume d.old_volume

  disappeared_row-IsAccounted :
      (loc time : ℕ) (p : MarketOrder P)
      → pos 0 ≤ℤ p.volume_remain
      → IsAccounted (disappeared_row loc time p)
  unfolding disappeared_row ◌+ℤ◌ ◌-ℤ◌ neg_ℤ max_ℤ
  disappeared_row-IsAccounted loc time p h = record {
    adds_up = ground arith;
    fallen = ground arith;
    changed = inl refl;
    gone = λ _. refl;
    sided = refl;
  }

  changed_row-IsAccounted :
      (loc time : ℕ) (p : MarketOrder P) (n : StagedOrder P)
      → is_zero (n.volume_remain -ℤ p.volume_remain) ≡ false
      → IsAccounted (changed_row loc time p n)
  unfolding changed_row ◌+ℤ◌ ◌-ℤ◌ neg_ℤ max_ℤ
  changed_row-IsAccounted loc time p n h = record {
    adds_up = ground arith;
    fallen = ground arith;
    changed = inr h;
    gone = λ e. cc;
    sided = ground arith;
  }

  lookup_rows-IsAccounted :
      (loc time : ℕ) (p : MarketOrder P) (o : Option (StagedOrder P))
      → pos 0 ≤ℤ p.volume_remain
      → All IsAccounted (lookup_rows loc time p o)
  unfolding lookup_rows same_order
  lookup_rows-IsAccounted loc time p none h = (disappeared_row-IsAccounted loc time p h, tt)
  lookup_rows-IsAccounted loc time p (some n) h =
      elim (Bool-cases (is_zero (n.volume_remain -ℤ p.volume_remain))) [
        | inl e ↦ rw e tt
        | inr e ↦ rw e (changed_row-IsAccounted loc time p n e, tt)
      ]

  lookup_diff-IsAccounted :
      (loc time : ℕ) (ps : List (MarketOrder P)) (ns : List (StagedOrder P))
      → All (λ p. pos 0 ≤ℤ p.volume_remain) ps
      → All IsAccounted (lookup_diff loc time ps ns)
  unfolding lookup_diff
  lookup_diff-IsAccounted loc time [] ns h = tt
  lookup_diff-IsAccounted loc time (p ∷ ps) ns h =
      let found = find_first (with_key new_key (prev_key p)) ns in
      All-append IsAccounted (lookup_rows loc time p found) (lookup_diff loc time ps ns)
        (lookup_rows-IsAccounted loc time p found h.0) (lookup_diff-IsAccounted loc time ps ns h.1)

  -- Where no previous order of the station has a negative volume, every delta row of the station
  -- accounts for the volumes of its order: the delta is their difference, the units traded are what the
  -- volume fell by, no order without a change has a row unless it disappeared, and a side is inferred
  -- exactly if the volume fell or the order disappeared.
  pub station_rows-IsAccounted :
      (time loc : ℕ) (t : Tables P)
      → All (λ p. pos 0 ≤ℤ p.volume_remain) (at_prev loc t)
      → All IsAccounted (station_rows time loc t)
  unfolding station_rows
  station_rows-IsAccounted time loc t h =
      lookup_diff-IsAccounted loc time (prev_rows loc t) (at_new loc t)
        (All-order_by prev_key (λ p. pos 0 ≤ℤ p.volume_remain) (at_prev loc t) h)
