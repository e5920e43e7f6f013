-- ===== src/Structures/Demand.antt =====
-- How `upsert_period` counts the trades that the snapshots show.
use eve_station_trader.Structures.Counting.{
  side_of, total_sold, side_units-append, counted-order_deltas_of, select-append,
}
use eve_station_trader.Prelude.{
  ℕ, ◌+◌, ◌*◌, ◌≡◌, ◌≤◌, refl, ◌∙◌, Bool, true, false, some, List, ◌++◌, select, find_first, ◌==◌,
  ==_iff,
}
use eve_station_trader.Prelude.Int.{◌+ℤ◌}
use eve_station_trader.Structures.Rows.{
  StructureSnapshot, Timestamp, ensure_utc, StructureOrderDelta, StructureSnapshotOrder, Tables,
}
use eve_station_trader.Structures.Snapshots.{
  persist_deltas_for_snapshots, persist_deltas_between, orders_by_id, order_deltas_of,
}
use eve_station_trader.Structures.Periods.{in_window, side_units, demand_period, upsert_period}

module _ {P : Type 0} where
  -- Let two snapshots of a structure be compared, the later one in the window that ends at a time.
  -- Then the period that is upserted as of that time counts, on each side, what it would have counted
  -- before the comparison, and the units that orders of its type lost while they stayed in the book:
  -- sell orders for buy_from_sell, buy orders for sell_to_buy. New orders, orders that are gone and
  -- raised volumes count nothing.
  pub upsert_period-total_sold :
      (structure_id type_id days : ℕ) (p_id c_id : ℕ) (p c : StructureSnapshot) (time : Timestamp)
      (now : ℕ) (t : Tables P)
      → find_first (λ s. s.id == p_id) t.snapshots ≡ some p
      → find_first (λ s. s.id == c_id) t.snapshots ≡ some c
      → p.structure_id ≡ structure_id
      → c.structure_id ≡ structure_id
      → ensure_utc time ≤ c.snapshot_time + days * 86400
      → c.snapshot_time ≤ ensure_utc time
      → let t' = (persist_deltas_for_snapshots structure_id p_id c_id t).1 in
        let before = (upsert_period structure_id type_id days (some time) now t).0.row in
        let after = (upsert_period structure_id type_id days (some time) now t').0.row in
        let earlier = orders_by_id p.id t.snapshot_orders in
        let later_orders = orders_by_id c.id t.snapshot_orders in
        (after.buy_from_sell_period
          ≡ before.buy_from_sell_period +ℤ total_sold false type_id earlier later_orders)
        × (after.sell_to_buy_period
            ≡ before.sell_to_buy_period +ℤ total_sold true type_id earlier later_orders)
  unfolding persist_deltas_for_snapshots persist_deltas_between upsert_period demand_period
      ensure_utc
  upsert_period-total_sold structure_id type_id days p_id c_id p c time now t hp hc sp sc h k =
      rw
        (
          hp,
          hc,
          (==_iff p.structure_id structure_id).1 sp,
          (==_iff c.structure_id structure_id).1 sc,
        )
        (side false, side true)
    where
      before : List (StructureSnapshotOrder P)
      before = orders_by_id p.id t.snapshot_orders

      after : List (StructureSnapshotOrder P)
      after = orders_by_id c.id t.snapshot_orders

      rows : List (StructureOrderDelta P)
      rows = order_deltas_of structure_id p.snapshot_time c.snapshot_time before after

      w : StructureOrderDelta P → Bool
      w = in_window structure_id type_id days (ensure_utc time)

      side :
          (buys : Bool)
          → side_units (side_of buys) (select w (t.order_deltas ++ rows))
            ≡ side_units (side_of buys) (select w t.order_deltas)
              +ℤ total_sold buys type_id before after
      side buys = rw (select-append w t.order_deltas rows) (
          side_units-append (side_of buys) (select w t.order_deltas) (select w rows)
          ∙ rw
              (counted-order_deltas_of buys structure_id type_id days (ensure_utc time)
                p.snapshot_time c.snapshot_time before after h k)
              refl)
