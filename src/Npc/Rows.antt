-- ===== src/Npc/Rows.antt =====
-- The rows that the NPC station services read and write: backend/app/models/all_models.py, and the
-- columns that deltas.py selects from the two order tables.
use eve_station_trader.Prelude.{ℕ, Bool, Option, ◌==◌, ltb, ◌&&◌, ◌||◌}
use eve_station_trader.Prelude.Int.{ℤ}

pub data Side : Type 0 where
  sell_to_buy : Side
  buy_from_sell : Side

-- A row of esi_market_orders. Prices are only copied, so their type `P` is open; a timestamp is a
-- number of seconds.
pub record MarketOrder (P : Type 0) : Type 0 where
  pub location_id : ℕ
  pub type_id : ℕ
  pub order_id : ℕ
  pub is_buy_order : Bool
  pub price : P
  pub volume_remain : ℤ
  pub updated_at : ℕ

-- A row of esi_market_orders_valid_stage, which has no updated_at.
pub record StagedOrder (P : Type 0) : Type 0 where
  pub location_id : ℕ
  pub type_id : ℕ
  pub order_id : ℕ
  pub is_buy_order : Bool
  pub price : P
  pub volume_remain : ℤ

-- A row of npc_station_order_deltas; `none` for a side is SQL's NULL.
pub record OrderDelta (P : Type 0) : Type 0 where
  pub location_id : ℕ
  pub type_id : ℕ
  pub order_id : ℕ
  pub from_snapshot_time : ℕ
  pub to_snapshot_time : ℕ
  pub old_volume : ℤ
  pub new_volume : ℤ
  pub delta_volume : ℤ
  pub disappeared : Bool
  pub inferred_trade_side : Option Side
  pub inferred_trade_units : ℤ
  pub price : P

-- A key (type_id, order_id), compared as Python compares tuples.
pub record Key : Type 0 where
  pub type_id : ℕ
  pub order_id : ℕ

unfoldable pub key_eq : Key → Key → Bool
key_eq a b = a.type_id == b.type_id && a.order_id == b.order_id

unfoldable pub key_lt : Key → Key → Bool
key_lt a b = ltb a.type_id b.type_id || (a.type_id == b.type_id && ltb a.order_id b.order_id)

module _ {P : Type 0} where
  abbrev pub prev_key : MarketOrder P → Key
  prev_key p = record { type_id = p.type_id; order_id = p.order_id }

  abbrev pub new_key : StagedOrder P → Key
  new_key n = record { type_id = n.type_id; order_id = n.order_id }

  abbrev pub delta_key : OrderDelta P → Key
  delta_key d = record { type_id = d.type_id; order_id = d.order_id }
