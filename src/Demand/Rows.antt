-- ===== src/Demand/Rows.antt =====
-- The rows that the resolution of demand reads and writes: backend/app/models/all_models.py.
use eve_station_trader.Prelude.{ℕ, ◌≡◌, Bool, true, Option, List, String, ◌==◌, ◌&&◌, arith}
use eve_station_trader.Prelude.Upsert.{KeyOf}

pub data DemandSource : Type 0 where
  adam4eve : DemandSource
  local_structure : DemandSource
  regional_fallback : DemandSource
  esi_live : DemandSource
  npc_station_period : DemandSource

pub record Location : Type 0 where
  pub id : ℕ
  pub location_id : ℕ
  pub region_id : ℕ
  pub is_npc_station : Bool

pub record Item : Type 0 where
  pub id : ℕ
  pub type_id : ℕ

-- A row of adam_market_orders_trade_raw; days are numbered, and a volume of the history below is not
-- negative.
pub record AdamRow (F : Type 0) : Type 0 where
  pub location_id : ℕ
  pub type_id : ℕ
  pub scan_date : ℕ
  pub is_buy_order : ℕ
  pub amount : F

pub record EsiHistoryDaily (F : Type 0) : Type 0 where
  pub region_id : ℕ
  pub type_id : ℕ
  pub date : ℕ
  pub volume : ℕ
  pub average : F
  pub lowest : F
  pub highest : F

-- NpcStationDemandPeriod, by location, and StructureDemandPeriod, by structure.
pub record PeriodRow (F : Type 0) : Type 0 where
  pub place_id : ℕ
  pub type_id : ℕ
  pub period_days : ℕ
  pub buy_from_sell_period : F
  pub sell_to_buy_period : F
  pub coverage_pct : F

pub record MarketDemandResolved (F : Type 0) : Type 0 where
  pub location_id : ℕ
  pub type_id : ℕ
  pub period_days : ℕ
  pub demand_source : DemandSource
  pub buy_from_sell_period : F
  pub sell_to_buy_period : F
  pub esi_live_valid_days : Option ℕ
  pub esi_live_buy_from_sell_ratio_period : Option F
  pub esi_live_buy_from_sell_ratio_yesterday : Option F
  pub esi_live_fallback_reason : Option String
  pub computed_at : ℕ

pub record DemandTables (F : Type 0) : Type 0 where
  pub locations : List Location
  pub items : List Item
  pub adam_rows : List (AdamRow F)
  pub history : List (EsiHistoryDaily F)
  pub station_periods : List (PeriodRow F)
  pub structure_periods : List (PeriodRow F)
  pub resolved : List (MarketDemandResolved F)

module _ {F : Type 0} where
  -- UniqueConstraint("location_id", "type_id", "period_days")
  unfoldable pub same_demand : MarketDemandResolved F → MarketDemandResolved F → Bool
  same_demand a b =
      a.location_id == b.location_id && a.type_id == b.type_id && a.period_days == b.period_days

  pub demand_refl : (a : MarketDemandResolved F) → same_demand a a ≡ true
  unfolding same_demand
  demand_refl a = ground arith

  pub demand_sym : (a b : MarketDemandResolved F) → same_demand a b ≡ true → same_demand b a ≡ true
  unfolding same_demand
  demand_sym a b h = ground arith

  pub demand_trans :
      (a b c : MarketDemandResolved F)
      → same_demand a b ≡ true
      → same_demand b c ≡ true
      → same_demand a c ≡ true
  unfolding same_demand
  demand_trans a b c h k = ground arith

  abbrev pub demand_key : KeyOf (MarketDemandResolved F)
  demand_key = record {
    same = same_demand;
    same_refl = demand_refl;
    same_sym = demand_sym;
    same_trans = demand_trans;
  }
