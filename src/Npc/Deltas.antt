-- ===== src/Npc/Deltas.antt =====
-- backend/app/services/npc_stations/deltas.py: the order book deltas of the NPC target stations.
pub mod Keys
pub mod Sorting
pub mod Merge
pub mod Station
pub mod Units
use eve_station_trader.Prelude.{
  ℕ, ◌+◌, ◌-◌, ◌*◌, Bool, true, false, none, some, List, [], ◌∷◌, ◌++◌, ◌==◌, ltb, if◌then◌else◌,
  select, delete, length,
}
use eve_station_trader.Prelude.Int.{pos, ◌-ℤ◌, neg_ℤ, ltb_ℤ, is_zero}
use eve_station_trader.Npc.Rows.{
  Side, sell_to_buy, buy_from_sell, MarketOrder, StagedOrder, OrderDelta, Key, key_eq, key_lt,
  prev_key, new_key,
}

-- side = "sell_to_buy" if is_buy else "buy_from_sell"
unfoldable pub traded_side : Bool → Side
traded_side is_buy = if is_buy then sell_to_buy else buy_from_sell

module _ {P : Type 0} where
  -- The branch of the merge for one order in both snapshots, with a volume that changed.
  unfoldable pub changed_row : ℕ → ℕ → MarketOrder P → StagedOrder P → OrderDelta P
  unfolding ◌-ℤ◌ neg_ℤ traded_side
  changed_row location_id snapshot_time p n =
      let delta_vol = n.volume_remain -ℤ p.volume_remain in
      record {
        location_id = location_id;
        type_id = p.type_id;
        order_id = p.order_id;
        from_snapshot_time = p.updated_at;
        to_snapshot_time = snapshot_time;
        old_volume = p.volume_remain;
        new_volume = n.volume_remain;
        delta_volume = delta_vol;
        disappeared = false;
        inferred_trade_side =
            if ltb_ℤ delta_vol (pos 0) then some (traded_side p.is_buy_order) else none;
        inferred_trade_units = if ltb_ℤ delta_vol (pos 0) then neg_ℤ delta_vol else pos 0;
        price = n.price;
      }

  -- The row of an order that is in the previous snapshot alone.
  unfoldable pub disappeared_row : ℕ → ℕ → MarketOrder P → OrderDelta P
  unfolding neg_ℤ traded_side
  disappeared_row location_id snapshot_time p = record {
    location_id = location_id;
    type_id = p.type_id;
    order_id = p.order_id;
    from_snapshot_time = p.updated_at;
    to_snapshot_time = snapshot_time;
    old_volume = p.volume_remain;
    new_volume = pos 0;
    delta_volume = neg_ℤ p.volume_remain;
    disappeared = true;
    inferred_trade_side = some (traded_side p.is_buy_order);
    inferred_trade_units = p.volume_remain;
    price = p.price;
  }

  -- One order in both snapshots: a row if the volume changed, before the rows that follow.
  unfoldable pub same_order :
      ℕ → ℕ → MarketOrder P → StagedOrder P → List (OrderDelta P) → List (OrderDelta P)
  unfolding ◌-ℤ◌
  same_order location_id snapshot_time p n rest =
      if is_zero (n.volume_remain -ℤ p.volume_remain)
      then rest
      else changed_row location_id snapshot_time p n ∷ rest

  -- The two loops of `_process_station`: the lists are the rows from `pi` and from `ni` on.
  unfoldable pub merge_diff :
      ℕ → ℕ → List (MarketOrder P) → List (StagedOrder P) → List (OrderDelta P)
  unfolding key_eq key_lt same_order changed_row disappeared_row
  merge_diff location_id snapshot_time [] ns = []
  merge_diff location_id snapshot_time (p ∷ ps) [] =
      disappeared_row location_id snapshot_time p ∷ merge_diff location_id snapshot_time ps []
  merge_diff location_id snapshot_time (p ∷ ps) (n ∷ ns) = elim (key_eq (prev_key p) (new_key n)) [
    | true ↦ same_order location_id snapshot_time p n (merge_diff location_id snapshot_time ps ns)
    | false ↦ elim (key_lt (prev_key p) (new_key n)) [
      | true ↦
          disappeared_row location_id snapshot_time p
          ∷ merge_diff location_id snapshot_time ps (n ∷ ns)
      | false ↦ merge_diff location_id snapshot_time (p ∷ ps) ns
    ]
  ]

-- SELECT ... ORDER BY type_id, order_id.
module _ {R : Type 0} (key : R → Key) where
  unfoldable pub insert_by : R → List R → List R
  unfolding key_lt
  insert_by r [] = r ∷ []
  insert_by r (x ∷ xs) = if key_lt (key x) (key r) then x ∷ insert_by r xs else r ∷ x ∷ xs

  unfoldable pub order_by : List R → List R
  unfolding insert_by
  order_by [] = []
  order_by (x ∷ xs) = insert_by x (order_by xs)

-- The tables that the service reads and writes.
pub record Tables (P : Type 0) : Type 0 where
  pub orders : List (MarketOrder P)
  pub stage : List (StagedOrder P)
  pub deltas : List (OrderDelta P)

pub record NpcDeltaResult : Type 0 where
  pub delta_count : ℕ
  pub stations_processed : ℕ

module _ {P : Type 0} where
  abbrev pub prev_rows : ℕ → Tables P → List (MarketOrder P)
  prev_rows loc t = order_by prev_key (select (λ r. r.location_id == loc) t.orders)

  abbrev pub new_rows : ℕ → Tables P → List (StagedOrder P)
  new_rows loc t = order_by new_key (select (λ r. r.location_id == loc) t.stage)

  -- `if not delta_rows: return 0`; else the rows are copied into the table at its end.
  unfoldable pub persist_rows : List (OrderDelta P) → Tables P → ℕ × Tables P
  persist_rows [] t = (0, t)
  persist_rows (d ∷ ds) t = (length (d ∷ ds), record t { deltas = t.deltas ++ (d ∷ ds) })

  -- `_process_station` on the rows of its two queries: without previous orders nothing is done.
  unfoldable pub diff_station :
      ℕ → ℕ → List (MarketOrder P) → List (StagedOrder P) → Tables P → ℕ × Tables P
  unfolding merge_diff persist_rows
  diff_station location_id snapshot_time [] ns t = (0, t)
  diff_station location_id snapshot_time (p ∷ ps) ns t =
      persist_rows (merge_diff location_id snapshot_time (p ∷ ps) ns) t

  unfoldable pub process_station : ℕ → ℕ → Tables P → ℕ × Tables P
  unfolding order_by diff_station
  process_station snapshot_time location_id t =
      diff_station location_id snapshot_time (prev_rows location_id t) (new_rows location_id t) t

  -- The loop over the target locations, with the running total.
  unfoldable pub process_stations : ℕ → List ℕ → ℕ → Tables P → ℕ × Tables P
  unfolding process_station
  process_stations snapshot_time [] total t = (total, t)
  process_stations snapshot_time (loc ∷ locs) total t =
      let (count, t') = process_station snapshot_time loc t in
      process_stations snapshot_time locs (total + count) t'

  unfoldable pub compute_and_persist_deltas : List ℕ → ℕ → Tables P → NpcDeltaResult × Tables P
  unfolding process_stations
  compute_and_persist_deltas [] snapshot_time t =
      (record { delta_count = 0; stations_processed = 0 }, t)
  compute_and_persist_deltas (loc ∷ locs) snapshot_time t =
      let (total, t') = process_stations snapshot_time (loc ∷ locs) 0 t in
      (record { delta_count = total; stations_processed = length (loc ∷ locs) }, t')

  -- `cleanup_old_deltas`, at time `now`; the retention is in days.
  unfoldable pub cleanup_old_deltas : ℕ → ℕ → Tables P → ℕ × Tables P
  cleanup_old_deltas now retention_days t =
      let cutoff = now - retention_days * 86400 in
      (
        length (select (λ d. ltb d.to_snapshot_time cutoff) t.deltas),
        record t { deltas = delete (λ d. ltb d.to_snapshot_time cutoff) t.deltas },
      )
