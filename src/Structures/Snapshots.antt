-- ===== src/Structures/Snapshots.antt =====
-- backend/app/services/structures/snapshots.py and inference.py.
use eve_station_trader.Prelude.{
  ℕ, ◌+◌, Bool, true, false, not, ◌&&◌, Option, none, some, List, [], ◌∷◌, ◌++◌, map, String,
  length, select, find_first, ◌==◌, ◌||◌, if◌then◌else◌,
}
use eve_station_trader.Prelude.Int.{pos, ◌-ℤ◌, neg_ℤ, ltb_ℤ, is_zero}
use eve_station_trader.Prelude.Upsert.{upsert_all, stored}
use eve_station_trader.Structures.Rows.{
  Timestamp, ensure_utc, StructureOrderInput, StructureSnapshot, StructureSnapshotOrder,
  buy_from_sell, sell_to_buy, StructureOrderDelta, Tables, Result, ok, value_error, order_key,
}

pub record StructureSnapshotPersistResult : Type 0 where
  pub snapshot_id : ℕ
  pub order_count : ℕ

pub record StructureDeltaPersistResult : Type 0 where
  pub delta_count : ℕ

abbrev pub utc_or_none : Option Timestamp → Option ℕ
unfolding ensure_utc
utc_or_none none = none
utc_or_none (some t) = some (ensure_utc t)

module _ {P : Type 0} where
  unfoldable pub snapshot_order : ℕ → ℕ → StructureOrderInput P → StructureSnapshotOrder P
  snapshot_order snapshot_id structure_id order = record {
    snapshot_id = snapshot_id;
    structure_id = structure_id;
    type_id = order.type_id;
    order_id = order.order_id;
    is_buy_order = order.is_buy_order;
    price = order.price;
    volume_remain = order.volume_remain;
    issued = utc_or_none order.issued;
    duration = order.duration;
  }

  unfoldable pub persist_snapshot :
      ℕ
      → Timestamp
      → List (StructureOrderInput P)
      → Tables P
      → StructureSnapshotPersistResult × Tables P
  unfolding snapshot_order ensure_utc
  persist_snapshot structure_id snapshot_time orders t =
      let id = t.next_snapshot_id in
      let snapshot : StructureSnapshot = record {
        id = id;
        structure_id = structure_id;
        snapshot_time = ensure_utc snapshot_time;
      } in
      (
        record { snapshot_id = id; order_count = length orders },
        record t {
          next_snapshot_id = id + 1;
          snapshots = t.snapshots ++ snapshot ∷ [];
          snapshot_orders = t.snapshot_orders ++ map (snapshot_order id structure_id) orders;
        },
      )

  abbrev pub is_lower : StructureSnapshotOrder P → StructureSnapshotOrder P → Bool
  unfolding ◌-ℤ◌
  is_lower previous current = ltb_ℤ (current.volume_remain -ℤ previous.volume_remain) (pos 0)

  -- `compute_order_delta`, stored with the times of the two snapshots.
  unfoldable pub compute_order_delta :
      ℕ → ℕ → ℕ → StructureSnapshotOrder P → StructureSnapshotOrder P → StructureOrderDelta P
  unfolding ◌-ℤ◌ neg_ℤ
  compute_order_delta structure_id from_time to_time previous current =
      let delta = current.volume_remain -ℤ previous.volume_remain in
      record {
        structure_id = structure_id;
        type_id = current.type_id;
        order_id = current.order_id;
        from_snapshot_time = from_time;
        to_snapshot_time = to_time;
        old_volume = previous.volume_remain;
        new_volume = current.volume_remain;
        delta_volume = delta;
        disappeared = false;
        inferred_trade_side = some (
            if not current.is_buy_order && ltb_ℤ delta (pos 0) then buy_from_sell else sell_to_buy);
        inferred_trade_units = if ltb_ℤ delta (pos 0) then neg_ℤ delta else pos 0;
        price = current.price;
      }

  unfoldable pub disappeared_delta : ℕ → ℕ → ℕ → StructureSnapshotOrder P → StructureOrderDelta P
  unfolding neg_ℤ
  disappeared_delta structure_id from_time to_time previous = record {
    structure_id = structure_id;
    type_id = previous.type_id;
    order_id = previous.order_id;
    from_snapshot_time = from_time;
    to_snapshot_time = to_time;
    old_volume = previous.volume_remain;
    new_volume = pos 0;
    delta_volume = neg_ℤ previous.volume_remain;
    disappeared = true;
    inferred_trade_side = none;
    inferred_trade_units = pos 0;
    price = previous.price;
  }

  -- One round of the loop: `none` where it continues.
  unfoldable pub order_delta :
      ℕ
      → ℕ
      → ℕ
      → StructureSnapshotOrder P
      → Option (StructureSnapshotOrder P)
      → Option (StructureOrderDelta P)
  unfolding compute_order_delta disappeared_delta
  order_delta structure_id from_time to_time previous none =
      some (disappeared_delta structure_id from_time to_time previous)
  order_delta structure_id from_time to_time previous (some current) =
      let delta = compute_order_delta structure_id from_time to_time previous current in
      if is_zero delta.delta_volume then none else some delta

  abbrev pub add_row :
      Option (StructureOrderDelta P) → List (StructureOrderDelta P) → List (StructureOrderDelta P)
  add_row none rows = rows
  add_row (some d) rows = d ∷ rows

  -- for order_id, previous_order in previous_orders.items()
  unfoldable pub order_deltas_of :
      ℕ
      → ℕ
      → ℕ
      → List (StructureSnapshotOrder P)
      → List (StructureSnapshotOrder P)
      → List (StructureOrderDelta P)
  unfolding order_delta
  order_deltas_of structure_id from_time to_time [] current_orders = []
  order_deltas_of structure_id from_time to_time (p ∷ ps) current_orders =
      add_row (order_delta structure_id from_time to_time p (stored order_key p current_orders))
        (order_deltas_of structure_id from_time to_time ps current_orders)

  -- The dict of the orders of a snapshot, by order id: a later row replaces an earlier one.
  unfoldable pub orders_by_id :
      ℕ → List (StructureSnapshotOrder P) → List (StructureSnapshotOrder P)
  unfolding upsert_all
  orders_by_id snapshot_id rows =
      upsert_all order_key (select (λ r. r.snapshot_id == snapshot_id) rows) []

  -- Both snapshots found: the last guard, the loop and the commit.
  unfoldable pub persist_deltas_between :
      ℕ
      → StructureSnapshot
      → StructureSnapshot
      → Tables P
      → Result String StructureDeltaPersistResult × Tables P
  unfolding orders_by_id order_deltas_of
  persist_deltas_between structure_id previous current t =
      let rows =
        order_deltas_of structure_id previous.snapshot_time current.snapshot_time
          (orders_by_id previous.id t.snapshot_orders)
          (orders_by_id current.id t.snapshot_orders) in
      if not (previous.structure_id == structure_id) || not (current.structure_id == structure_id)
      then (value_error "snapshots must belong to the requested structure", t)
      else (
        ok (record { delta_count = length rows }),
        record t { order_deltas = t.order_deltas ++ rows },
      )

  abbrev pub persist_found :
      ℕ
      → Option StructureSnapshot
      → Option StructureSnapshot
      → Tables P
      → Result String StructureDeltaPersistResult × Tables P
  unfolding persist_deltas_between
  persist_found structure_id (some p) (some c) t = persist_deltas_between structure_id p c t
  persist_found structure_id _ _ t = (value_error "snapshot ids must exist", t)

  unfoldable pub persist_deltas_for_snapshots :
      ℕ → ℕ → ℕ → Tables P → Result String StructureDeltaPersistResult × Tables P
  unfolding persist_deltas_between
  persist_deltas_for_snapshots structure_id previous_snapshot_id current_snapshot_id t =
      persist_found structure_id (find_first (λ s. s.id == previous_snapshot_id) t.snapshots)
        (find_first (λ s. s.id == current_snapshot_id) t.snapshots) t
