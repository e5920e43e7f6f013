-- ===== src/Structures/Periods.antt =====
-- backend/app/services/structures/demand_periods.py.
use eve_station_trader.Prelude.{
  ℕ, ◌+◌, ◌*◌, Bool, true, false, ◌&&◌, Option, none, some, List, [], ◌∷◌, ◌==◌, leb, length,
  select, is_none, if◌then◌else◌, min, max,
}
use eve_station_trader.Prelude.Int.{ℤ, pos, ◌+ℤ◌, ltb_ℤ}
use eve_station_trader.Prelude.Upsert.{stored, upsert}
use eve_station_trader.Structures.Rows.{
  Timestamp, ensure_utc, TradeSide, buy_from_sell, sell_to_buy, StructureOrderDelta,
  StructureDemandPeriod, Tables, period_key,
}

pub record StructureDemandPeriodResult : Type 0 where
  pub created : Bool
  pub row : StructureDemandPeriod
  pub delta_count : ℕ

abbrev pub is_side : TradeSide → Option TradeSide → Bool
is_side buy_from_sell (some buy_from_sell) = true
is_side sell_to_buy (some sell_to_buy) = true
is_side _ _ = false

-- as_of or datetime.now(UTC)
abbrev pub utc_or : ℕ → Option Timestamp → ℕ
unfolding ensure_utc
utc_or now none = now
utc_or now (some time) = ensure_utc time

module _ {P : Type 0} where
  -- The WHERE clause: the deltas of a structure and type in a window, both ends included. Their order
  -- does not matter below.
  unfoldable pub in_window : ℕ → ℕ → ℕ → ℕ → StructureOrderDelta P → Bool
  in_window structure_id type_id period_days computed_at d =
      d.structure_id == structure_id
      && d.type_id == type_id
      && leb computed_at (d.to_snapshot_time + period_days * 86400)
      && leb d.to_snapshot_time computed_at

  -- sum(delta.inferred_trade_units for delta in deltas if ... == side and ... > 0)
  unfoldable pub side_units : TradeSide → List (StructureOrderDelta P) → ℤ
  unfolding ◌+ℤ◌
  side_units side [] = pos 0
  side_units side (d ∷ ds) =
      (if is_side side d.inferred_trade_side && ltb_ℤ (pos 0) d.inferred_trade_units
        then d.inferred_trade_units
        else pos 0)
      +ℤ side_units side ds

  -- The values of the record that `upsert_period` creates or changes.
  unfoldable pub demand_period :
      ℕ → ℕ → ℕ → ℕ → List (StructureOrderDelta P) → StructureDemandPeriod
  unfolding side_units
  demand_period structure_id type_id period_days computed_at deltas = record {
    structure_id = structure_id;
    type_id = type_id;
    period_days = period_days;
    computed_at = computed_at;
    buy_from_sell_period = side_units buy_from_sell deltas;
    sell_to_buy_period = side_units sell_to_buy deltas;
    covered = min (length deltas) (max period_days 1);
    coverage_days = max period_days 1;
  }

  -- `upsert_period` at the time `now`, which `as_of` overrides.
  unfoldable pub upsert_period :
      ℕ → ℕ → ℕ → Option Timestamp → ℕ → Tables P → StructureDemandPeriodResult × Tables P
  unfolding ensure_utc in_window demand_period upsert
  upsert_period structure_id type_id period_days as_of now t =
      let computed_at = utc_or now as_of in
      let deltas = select (in_window structure_id type_id period_days computed_at) t.order_deltas in
      let row = demand_period structure_id type_id period_days computed_at deltas in
      (
        record {
          created = is_none (stored period_key row t.demand_periods);
          row = row;
          delta_count = length deltas;
        },
        record t { demand_periods = upsert period_key row t.demand_periods },
      )
