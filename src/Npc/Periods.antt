-- ===== src/Npc/Periods.antt =====
-- backend/app/services/npc_stations/demand_periods.py: the deltas of a window, summed for each
-- location and type and upserted into npc_station_demand_period.
pub mod Refresh
use eve_station_trader.Prelude.{
  ℕ, ◌+◌, ◌-◌, ◌*◌, ◌/◌, ◌≡◌, Bool, true, false, Option, none, some, List, [], ◌∷◌, arith, ◌==◌,
  ◌&&◌, leb, if◌then◌else◌, select, any_row, count_where, min, max,
}
use eve_station_trader.Prelude.Int.{ℤ, pos, ◌+ℤ◌}
use eve_station_trader.Prelude.Upsert.{KeyOf, upsert_all}
use eve_station_trader.Npc.Rows.{Side, sell_to_buy, buy_from_sell, OrderDelta}

-- A row of npc_station_demand_period. `coverage_pct` is the float quotient of the last two but one
-- fields: LEAST(n / d, 1.0) is kept as the pair min(n, d), d.
pub record DemandPeriod : Type 0 where
  pub location_id : ℕ
  pub type_id : ℕ
  pub period_days : ℕ
  pub buy_from_sell_period : ℤ
  pub sell_to_buy_period : ℤ
  pub covered_days : ℕ
  pub coverage_days : ℕ
  pub computed_at : ℕ

-- ON CONFLICT (location_id, type_id, period_days)
unfoldable pub same_period : DemandPeriod → DemandPeriod → Bool
same_period a b =
    a.location_id == b.location_id && a.type_id == b.type_id && a.period_days == b.period_days

pub same_period_refl : (a : DemandPeriod) → same_period a a ≡ true
unfolding same_period
same_period_refl a = ground arith

pub same_period_sym : (a b : DemandPeriod) → same_period a b ≡ true → same_period b a ≡ true
unfolding same_period
same_period_sym a b h = ground arith

pub same_period_trans :
    (a b c : DemandPeriod)
    → same_period a b ≡ true
    → same_period b c ≡ true
    → same_period a c ≡ true
unfolding same_period
same_period_trans a b c h k = ground arith

abbrev pub period_key : KeyOf DemandPeriod
period_key = record {
  same = same_period;
  same_refl = same_period_refl;
  same_sym = same_period_sym;
  same_trans = same_period_trans;
}

-- location_id IN (...)
unfoldable pub in_list : ℕ → List ℕ → Bool
in_list a xs = any_row (λ x. x == a) xs

abbrev pub is_side : Side → Option Side → Bool
is_side sell_to_buy (some sell_to_buy) = true
is_side buy_from_sell (some buy_from_sell) = true
is_side _ _ = false

module _ {P : Type 0} where
  -- The WHERE clause: the deltas of the locations in the window that ends at `computed_at`.
  unfoldable pub windowed : List ℕ → ℕ → ℕ → List (OrderDelta P) → List (OrderDelta P)
  unfolding in_list
  windowed locs period_days computed_at deltas =
      select
        (λ d.
          in_list d.location_id locs
          && leb (computed_at - period_days * 86400) d.to_snapshot_time
          && leb d.to_snapshot_time computed_at)
        deltas

  unfoldable pub in_group : ℕ → ℕ → OrderDelta P → Bool
  in_group loc type d = d.location_id == loc && d.type_id == type

  -- COALESCE(SUM(CASE WHEN inferred_trade_side = side THEN inferred_trade_units ELSE 0 END), 0)
  unfoldable pub side_units : Side → List (OrderDelta P) → ℤ
  unfolding ◌+ℤ◌
  side_units side [] = pos 0
  side_units side (d ∷ ds) =
      (if is_side side d.inferred_trade_side then d.inferred_trade_units else pos 0)
      +ℤ side_units side ds

  -- COUNT(DISTINCT DATE(to_snapshot_time)); a day has 86400 seconds.
  unfoldable pub count_days : List (OrderDelta P) → ℕ
  count_days [] = 0
  count_days (d ∷ ds) =
      (if any_row (λ e. e.to_snapshot_time / 86400 == d.to_snapshot_time / 86400) ds then 0 else 1)
      + count_days ds

  -- One row of the SELECT: the group of a location and a type.
  unfoldable pub period_row : ℕ → ℕ → List (OrderDelta P) → ℕ → ℕ → DemandPeriod
  unfolding in_group side_units count_days
  period_row period_days computed_at deltas loc type =
      let group = select (in_group loc type) deltas in
      record {
        location_id = loc;
        type_id = type;
        period_days = period_days;
        buy_from_sell_period = side_units buy_from_sell group;
        sell_to_buy_period = side_units sell_to_buy group;
        covered_days = min (count_days group) (max period_days 1);
        coverage_days = max period_days 1;
        computed_at = computed_at;
      }

  -- SELECT ... GROUP BY location_id, type_id: one row for each pair that occurs in `ds`.
  unfoldable pub grouped : ℕ → ℕ → List (OrderDelta P) → List (OrderDelta P) → List DemandPeriod
  unfolding period_row same_period
  grouped period_days computed_at deltas [] = []
  grouped period_days computed_at deltas (d ∷ ds) =
      let row = period_row period_days computed_at deltas d.location_id d.type_id in
      let rest = grouped period_days computed_at deltas ds in
      if any_row (same_period row) rest then rest else row ∷ rest

  -- The rows of the INSERT.
  unfoldable pub period_rows : List ℕ → ℕ → ℕ → List (OrderDelta P) → List DemandPeriod
  unfolding windowed grouped
  period_rows locs period_days computed_at deltas =
      let rows = windowed locs period_days computed_at deltas in
      grouped period_days computed_at rows rows

  -- `refresh_for_locations`, at time `now`: the count, and the table of periods.
  unfoldable pub refresh_for_locations :
      List ℕ → ℕ → ℕ → List (OrderDelta P) → List DemandPeriod → ℕ × List DemandPeriod
  unfolding period_rows upsert_all in_list
  refresh_for_locations [] period_days now deltas periods = (0, periods)
  refresh_for_locations (loc ∷ locs) period_days now deltas periods =
      let rows = period_rows (loc ∷ locs) period_days now deltas in
      let stored = upsert_all period_key rows periods in
      (
        count_where (λ r. in_list r.location_id (loc ∷ locs) && r.period_days == period_days)
            stored,
        stored,
      )
