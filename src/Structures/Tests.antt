-- ===== src/Structures/Tests.antt =====
-- Two small snapshots of one structure, and what the services do on them.
use eve_station_trader.Prelude.{
  All, ℕ, ◌<◌, ◌≡◌, refl, Bool, true, false, some, List, [], ◌∷◌, ◌++◌, map, length, select,
  find_first, ◌==◌, arith,
}
use eve_station_trader.Prelude.Int.{pos, ◌+ℤ◌, ◌-ℤ◌}
use eve_station_trader.Structures.Rows.{
  naive, aware, ensure_utc, StructureOrderInput, StructureSnapshot, StructureOrderDelta, Tables, ok,
}
use eve_station_trader.Structures.Snapshots.{
  snapshot_order, persist_snapshot, persist_deltas_for_snapshots, orders_by_id,
}
use eve_station_trader.Structures.Orders.{
  read_order, in_utc, last_order, IsNumbered, persist_snapshot-orders,
}
use eve_station_trader.Structures.Changes.{
  delta_by_id, change, orders_of, persist_deltas_for_snapshots-rows,
}
use eve_station_trader.Structures.Periods.{upsert_period}
use eve_station_trader.Structures.Counting.{total_sold}
use eve_station_trader.Structures.Demand.{upsert_period-total_sold}

abbrev order : ℕ → Bool → ℕ → StructureOrderInput ℕ
order id buy volume = record {
  order_id = id;
  type_id = 34;
  is_buy_order = buy;
  price = 5;
  volume_remain = pos volume;
  issued = some (naive 3);
  duration = some 90;
}

abbrev empty : Tables ℕ
empty = record {
  next_snapshot_id = 1;
  snapshots = [];
  snapshot_orders = [];
  order_deltas = [];
  demand_periods = [];
}

-- Order 2 is bought down by 30 units, buy order 3 by 5, order 1 is gone and order 4 is new.
abbrev first_orders : List (StructureOrderInput ℕ)
first_orders = order 1 false 10 ∷ order 2 false 100 ∷ order 3 true 20 ∷ []

abbrev second_orders : List (StructureOrderInput ℕ)
second_orders = order 2 false 70 ∷ order 3 true 15 ∷ order 4 false 8 ∷ []

abbrev snapshot_at : ℕ → ℕ → StructureSnapshot
snapshot_at id time = record { id = id; structure_id = 77; snapshot_time = time }

abbrev loaded : Tables ℕ
unfolding snapshot_order
loaded = record {
  next_snapshot_id = 3;
  snapshots = snapshot_at 1 100 ∷ snapshot_at 2 200 ∷ [];
  snapshot_orders =
      map (snapshot_order 1 77) first_orders ++ map (snapshot_order 2 77) second_orders;
  order_deltas = [];
  demand_periods = [];
}

-- Two calls of `persist_snapshot` give those tables.
loaded_tables :
    (persist_snapshot 77
      (aware 200)
      second_orders
      (persist_snapshot 77 (naive 100) first_orders empty).1).1
    ≡ loaded
unfolding persist_snapshot ensure_utc loaded
loaded_tables = refl

persist_snapshot-orders_example :
    let (r, t') = persist_snapshot 77 (naive 100) first_orders empty in
    (find_first (λ s. s.id == r.snapshot_id) t'.snapshots
      ≡ some (record {
        id = r.snapshot_id;
        structure_id = 77;
        snapshot_time = ensure_utc (naive 100);
      }))
    × (map read_order (select (λ o. o.snapshot_id == r.snapshot_id) t'.snapshot_orders)
        ≡ map in_utc first_orders)
    × All
        (λ o. o.structure_id ≡ 77)
        (select (λ o. o.snapshot_id == r.snapshot_id) t'.snapshot_orders)
    × ((old : ℕ)
        → old < 1
        → select (λ o. o.snapshot_id == old) t'.snapshot_orders
          ≡ select (λ o. o.snapshot_id == old) empty.snapshot_orders)
    × IsNumbered t'
persist_snapshot-orders_example = persist_snapshot-orders 77 (naive 100) first_orders empty (tt, tt)

persist_deltas_for_snapshots-rows_example :
    (rows : List (StructureOrderDelta ℕ)) × (persist_deltas_for_snapshots 77 1 2 loaded ≡ (
      ok (record { delta_count = length rows }),
      record loaded { order_deltas = loaded.order_deltas ++ rows },
    ))
    × ((id : ℕ)
        → delta_by_id id rows
          ≡ change 77 100 200
              (last_order id (orders_of 1 loaded))
              (last_order id (orders_of 2 loaded)))
unfolding loaded
persist_deltas_for_snapshots-rows_example =
    persist_deltas_for_snapshots-rows 77 1 2 (snapshot_at 1 100) (snapshot_at 2 200) loaded refl
      refl refl refl

upsert_period-total_sold_example :
    let t' = (persist_deltas_for_snapshots 77 1 2 loaded).1 in
    let before = (upsert_period 77 34 7 (some (naive 300)) 0 loaded).0.row in
    let after = (upsert_period 77 34 7 (some (naive 300)) 0 t').0.row in
    (after.buy_from_sell_period
      ≡ before.buy_from_sell_period
        +ℤ total_sold false 34
            (orders_by_id 1 loaded.snapshot_orders)
            (orders_by_id 2 loaded.snapshot_orders))
    × (after.sell_to_buy_period
        ≡ before.sell_to_buy_period
          +ℤ total_sold true 34
              (orders_by_id 1 loaded.snapshot_orders)
              (orders_by_id 2 loaded.snapshot_orders))
unfolding loaded ensure_utc
upsert_period-total_sold_example =
    upsert_period-total_sold 77 34 7 1 2 (snapshot_at 1 100) (snapshot_at 2 200) (naive 300) 0
      loaded refl refl refl refl (omega arith) (omega arith)

-- The totals are the 30 units and the 5.
totals :
    (total_sold false 34
        (orders_by_id 1 loaded.snapshot_orders)
        (orders_by_id 2 loaded.snapshot_orders)
      ≡ pos 30)
    × (total_sold true 34
          (orders_by_id 1 loaded.snapshot_orders)
          (orders_by_id 2 loaded.snapshot_orders)
        ≡ pos 5)
unfolding loaded total_sold orders_by_id ◌+ℤ◌ ◌-ℤ◌
totals = (refl, refl)
