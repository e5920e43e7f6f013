-- ===== src/Npc/Tests.antt =====
-- Small inputs for npc_stations/deltas.py and demand_periods.py, and what the services do on them.
use eve_station_trader.Prelude.{
  ℕ, ◌≡◌, refl, true, false, some, List, [], ◌∷◌, ◌++◌, arith, All, length, any_row, if◌then◌else◌,
  ◌&&◌, ◌==◌,
}
use eve_station_trader.Prelude.Int.{ℤ, pos, negsuc}
use eve_station_trader.Prelude.Upsert.{stored}
use eve_station_trader.Npc.Rows.{buy_from_sell, MarketOrder, StagedOrder, OrderDelta, key_eq}
use eve_station_trader.Npc.Deltas.{Tables, process_station, compute_and_persist_deltas}
use eve_station_trader.Npc.Deltas.Station.{
  IsIndexed, station_rows, stations_rows, process_station-rows, compute_and_persist_deltas-rows,
}
use eve_station_trader.Npc.Deltas.Units.{IsAccounted, station_rows-IsAccounted}
use eve_station_trader.Npc.Periods.{
  DemandPeriod, period_key, windowed, in_group, period_row, refresh_for_locations,
}
use eve_station_trader.Npc.Periods.Refresh.{stored-refresh_for_locations}

-- (location, type, order, is_buy, price, volume, updated)
abbrev order : ℕ → ℕ → ℕ → ℕ → MarketOrder ℕ
order loc type id volume = record {
  location_id = loc;
  type_id = type;
  order_id = id;
  is_buy_order = false;
  price = 100;
  volume_remain = pos volume;
  updated_at = 5;
}

abbrev staged : ℕ → ℕ → ℕ → ℕ → StagedOrder ℕ
staged loc type id volume = record {
  location_id = loc;
  type_id = type;
  order_id = id;
  is_buy_order = false;
  price = 101;
  volume_remain = pos volume;
}

abbrev book : Tables ℕ
book = record {
  orders = order 60 34 7 10 ∷ order 61 34 8 4 ∷ order 60 34 2 5 ∷ order 60 35 1 9 ∷ [];
  stage = staged 60 35 1 9 ∷ staged 60 34 9 1 ∷ staged 60 34 7 3 ∷ staged 61 34 8 6 ∷ [];
  deltas = [];
}

abbrev delta : ℕ → ℕ → ℕ → ℤ → ℤ → ℤ → OrderDelta ℕ
delta type id old new change units = record {
  location_id = 60;
  type_id = type;
  order_id = id;
  from_snapshot_time = 5;
  to_snapshot_time = 900;
  old_volume = pos old;
  new_volume = new;
  delta_volume = change;
  disappeared = false;
  inferred_trade_side = some buy_from_sell;
  inferred_trade_units = units;
  price = 101;
}

-- Order 2 disappeared, order 7 fell from 10 to 3, order 1 did not change, and order 9 is new.
process_station-book : process_station 900 60 book ≡ (
  2,
  record book {
    deltas =
        record (delta 34 2 5 (pos 0) (negsuc 4) (pos 5)) { disappeared = true; price = 100 }
        ∷ delta 34 7 10 (pos 3) (negsuc 6) (pos 7)
        ∷ [];
  },
)
unfolding process_station
process_station-book = refl

book-IsIndexed : IsIndexed 60 book × IsIndexed 61 book
unfolding key_eq
book-IsIndexed = (
  record {
    prev = ((refl, (refl, tt)), ((refl, tt), (tt, tt)));
    new = ((refl, (refl, tt)), ((refl, tt), (tt, tt)));
  },
  record { prev = (tt, tt); new = (tt, tt) },
)

process_station-rows_example :
    process_station 900 60 book
    ≡ (length (station_rows 900 60 book), record book { deltas = [] ++ station_rows 900 60 book })
process_station-rows_example = process_station-rows 900 60 book book-IsIndexed.0

compute_and_persist_deltas-rows_example : compute_and_persist_deltas (60 ∷ 61 ∷ []) 900 book ≡ (
  record { delta_count = length (stations_rows 900 (60 ∷ 61 ∷ []) book); stations_processed = 2 },
  record book { deltas = [] ++ stations_rows 900 (60 ∷ 61 ∷ []) book },
)
compute_and_persist_deltas-rows_example =
    compute_and_persist_deltas-rows (60 ∷ 61 ∷ []) 900 book
      (book-IsIndexed.0, (book-IsIndexed.1, tt))

station_rows-IsAccounted_example : All IsAccounted (station_rows 900 60 book)
station_rows-IsAccounted_example = station_rows-IsAccounted 900 60 book (omega arith)

abbrev old_period : DemandPeriod
old_period = record {
  location_id = 60;
  type_id = 34;
  period_days = 14;
  buy_from_sell_period = pos 99;
  sell_to_buy_period = pos 0;
  covered_days = 1;
  coverage_days = 14;
  computed_at = 3;
}

abbrev book_deltas : List (OrderDelta ℕ)
book_deltas =
    delta 34 7 10 (pos 3) (negsuc 6) (pos 7) ∷ delta 34 2 5 (pos 0) (negsuc 4) (pos 5) ∷ []

refresh-book :
    refresh_for_locations (60 ∷ []) 14 1000 book_deltas (old_period ∷ [])
    ≡ (1, record old_period { buy_from_sell_period = pos 12; computed_at = 1000 } ∷ [])
unfolding refresh_for_locations
refresh-book = refl

stored-refresh_for_locations_example :
    stored period_key old_period
      (refresh_for_locations (60 ∷ []) 14 1000 book_deltas (old_period ∷ [])).1
    ≡ (if (14 == 14) && any_row (in_group 60 34) (windowed (60 ∷ []) 14 1000 book_deltas)
        then some (period_row 14 1000 (windowed (60 ∷ []) 14 1000 book_deltas) 60 34)
        else stored period_key old_period (old_period ∷ []))
stored-refresh_for_locations_example =
    stored-refresh_for_locations 60 [] 14 1000 book_deltas (old_period ∷ []) old_period
