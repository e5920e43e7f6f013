-- ===== src/Opportunities/Rules.antt =====
-- backend/app/domain/rules.py.
use eve_station_trader.Prelude.{if◌then◌else◌}
use eve_station_trader.Opportunities.Floats.{Float, min_of, max_of, abs_of}

module _ {F : Type 0} (f : Float F) where
  unfoldable pub calculate_target_now_profit : F → F → F
  calculate_target_now_profit target_station_sell_price source_station_sell_price =
      f.sub target_station_sell_price source_station_sell_price

  unfoldable pub calculate_target_period_profit : F → F → F
  calculate_target_period_profit target_period_avg_price source_station_sell_price =
      f.sub target_period_avg_price source_station_sell_price

  unfoldable pub calculate_capital_required : F → F → F
  calculate_capital_required source_station_sell_price purchase_units =
      f.mul source_station_sell_price purchase_units

  unfoldable pub calculate_roi : F → F → F
  calculate_roi profit source_station_sell_price =
      if f.lt (abs_of f source_station_sell_price) f.epsilon
      then f.zero
      else f.div profit source_station_sell_price

  unfoldable pub calculate_target_dos : F → F → F
  calculate_target_dos target_supply_units target_demand_day =
      f.div target_supply_units (max_of f target_demand_day f.epsilon)

  unfoldable pub calculate_purchase_units : F → F → F
  calculate_purchase_units source_units_available target_demand_day =
      min_of f source_units_available target_demand_day

  unfoldable pub calculate_net_purchase_units : F → F → F → F → F
  calculate_net_purchase_units purchase_units assets_units active_sell_orders_units
        in_transit_units =
      max_of f
        (f.sub (f.sub (f.sub purchase_units assets_units) active_sell_orders_units)
          in_transit_units)
        f.zero
