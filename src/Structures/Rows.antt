-- ===== src/Structures/Rows.antt =====
-- The rows that the structure services read and write: backend/app/models/all_models.py and the input
-- of backend/app/services/structures/snapshots.py.
use eve_station_trader.Prelude.{ℕ, ◌≡◌, Bool, true, Option, List, ◌==◌, ◌&&◌, arith}
use eve_station_trader.Prelude.Int.{ℤ}
use eve_station_trader.Prelude.Upsert.{KeyOf}

-- A datetime: a naive one has no time zone; the instants are seconds in UTC.
pub data Timestamp : Type 0 where
  naive : ℕ → Timestamp
  aware : ℕ → Timestamp

-- `_ensure_utc`: a naive datetime is one in UTC.
unfoldable pub ensure_utc : Timestamp → ℕ
ensure_utc (naive t) = t
ensure_utc (aware t) = t

-- Prices are only copied, so their type `P` is open. The fields that the service does not read
-- (volume_total, min_volume, order_range) are left out.
pub record StructureOrderInput (P : Type 0) : Type 0 where
  pub order_id : ℕ
  pub type_id : ℕ
  pub is_buy_order : Bool
  pub price : P
  pub volume_remain : ℤ
  pub issued : Option Timestamp
  pub duration : Option ℕ

pub record StructureSnapshot : Type 0 where
  pub id : ℕ
  pub structure_id : ℕ
  pub snapshot_time : ℕ

-- The rows below are never read by their own id, which is left out.
pub record StructureSnapshotOrder (P : Type 0) : Type 0 where
  pub snapshot_id : ℕ
  pub structure_id : ℕ
  pub type_id : ℕ
  pub order_id : ℕ
  pub is_buy_order : Bool
  pub price : P
  pub volume_remain : ℤ
  pub issued : Option ℕ
  pub duration : Option ℕ

pub data TradeSide : Type 0 where
  buy_from_sell : TradeSide
  sell_to_buy : TradeSide

pub record StructureOrderDelta (P : Type 0) : Type 0 where
  pub structure_id : ℕ
  pub type_id : ℕ
  pub order_id : ℕ
  pub from_snapshot_time : ℕ
  pub to_snapshot_time : ℕ
  pub old_volume : ℤ
  pub new_volume : ℤ
  pub delta_volume : ℤ
  pub disappeared : Bool
  pub inferred_trade_side : Option TradeSide
  pub inferred_trade_units : ℤ
  pub price : P

-- `coverage_pct` is the float quotient of two numbers, kept here.
pub record StructureDemandPeriod : Type 0 where
  pub structure_id : ℕ
  pub type_id : ℕ
  pub period_days : ℕ
  pub computed_at : ℕ
  pub buy_from_sell_period : ℤ
  pub sell_to_buy_period : ℤ
  pub covered : ℕ
  pub coverage_days : ℕ

-- The tables, and the next id of structure_snapshots.
pub record Tables (P : Type 0) : Type 0 where
  pub next_snapshot_id : ℕ
  pub snapshots : List StructureSnapshot
  pub snapshot_orders : List (StructureSnapshotOrder P)
  pub order_deltas : List (StructureOrderDelta P)
  pub demand_periods : List StructureDemandPeriod

-- What a service call gives: a value, or a ValueError.
pub data Result {ℓ} (E : Type 0) (A : Type ℓ) : Type ℓ where
  ok : A → Result E A
  value_error : E → Result E A

module _ {P : Type 0} where
  abbrev pub same_order : StructureSnapshotOrder P → StructureSnapshotOrder P → Bool
  same_order a b = a.order_id == b.order_id

  pub order_refl : (a : StructureSnapshotOrder P) → same_order a a ≡ true
  order_refl a = ground arith

  pub order_sym : (a b : StructureSnapshotOrder P) → same_order a b ≡ true → same_order b a ≡ true
  order_sym a b h = ground arith

  pub order_trans :
      (a b c : StructureSnapshotOrder P)
      → same_order a b ≡ true
      → same_order b c ≡ true
      → same_order a c ≡ true
  order_trans a b c h k = ground arith

  -- {order.order_id: order for order in ...}: the key of the dict.
  abbrev pub order_key : KeyOf (StructureSnapshotOrder P)
  order_key = record {
    same = same_order;
    same_refl = order_refl;
    same_sym = order_sym;
    same_trans = order_trans;
  }

-- UniqueConstraint("structure_id", "type_id", "period_days")
unfoldable pub same_period : StructureDemandPeriod → StructureDemandPeriod → Bool
same_period a b =
    a.structure_id == b.structure_id && a.type_id == b.type_id && a.period_days == b.period_days

pub period_refl : (a : StructureDemandPeriod) → same_period a a ≡ true
unfolding same_period
period_refl a = ground arith

pub period_sym : (a b : StructureDemandPeriod) → same_period a b ≡ true → same_period b a ≡ true
unfolding same_period
period_sym a b h = ground arith

pub period_trans :
    (a b c : StructureDemandPeriod)
    → same_period a b ≡ true
    → same_period b c ≡ true
    → same_period a c ≡ true
unfolding same_period
period_trans a b c h k = ground arith

abbrev pub period_key : KeyOf StructureDemandPeriod
period_key = record {
  same = same_period;
  same_refl = period_refl;
  same_sym = period_sym;
  same_trans = period_trans;
}
