-- ===== src/Demand/Resolve.antt =====
-- `upsert_for_location` and the methods that it calls, of market_demand.py, without a preload.
-- The timings of a result are left out.
use eve_station_trader.Prelude.{
  ℕ, ◌+◌, ◌-◌, Bool, false, ◌&&◌, ◌||◌, Option, none, some, List, [], ◌∷◌, String, concat, ◌==◌,
  leb, max, select, delete, find_first, any_row, is_none, if◌then◌else◌,
}
use eve_station_trader.Prelude.Upsert.{stored, upsert}
use eve_station_trader.Prelude.Texts.{decimal}
use eve_station_trader.Opportunities.Floats.{Float}
use eve_station_trader.Demand.Rows.{
  DemandSource, adam4eve, local_structure, regional_fallback, esi_live, npc_station_period,
  Location, Item, AdamRow, PeriodRow, MarketDemandResolved, DemandTables, demand_key,
}
use eve_station_trader.Demand.Estimate.{EsiLiveDemandEstimate, estimate_esi_live_demand}

pub record MarketDemandResolutionResult (F : Type 0) : Type 0 where
  pub created : Bool
  pub row : Option (MarketDemandResolved F)
  pub points_used : ℕ

pub data Resolution (F : Type 0) : Type 0 where
  resolved : MarketDemandResolutionResult F → Resolution F
  value_error : String → Resolution F

-- What the Adam4EVE rows of the window sum to.
pub record AdamSums (F : Type 0) : Type 0 where
  pub bfs_yesterday : F
  pub bfs_period : F
  pub stb_period : F
  pub points : ℕ

module _ {F : Type 0} where
  abbrev pub latest_scan : List (AdamRow F) → ℕ
  latest_scan [] = 0
  latest_scan (r ∷ rs) = max r.scan_date (latest_scan rs)

  -- len(distinct_dates)
  abbrev pub count_dates : List (AdamRow F) → ℕ
  count_dates [] = 0
  count_dates (r ∷ rs) =
      (if any_row (λ o. o.scan_date == r.scan_date) rs then 0 else 1) + count_dates rs

  -- The source of a demand and its values, without the key and the time.
  unfoldable pub live_row : ℕ → ℕ → ℕ → ℕ → EsiLiveDemandEstimate F → MarketDemandResolved F
  live_row location_id type_id period_days now e = record {
    location_id = location_id;
    type_id = type_id;
    period_days = period_days;
    demand_source = esi_live;
    buy_from_sell_period = e.buy_from_sell_period;
    sell_to_buy_period = e.sell_to_buy_period;
    esi_live_valid_days = some e.valid_days;
    esi_live_buy_from_sell_ratio_period = e.buy_from_sell_ratio_period;
    esi_live_buy_from_sell_ratio_yesterday = e.buy_from_sell_ratio_yesterday;
    esi_live_fallback_reason = some e.fallback_reason;
    computed_at = now;
  }

  unfoldable pub plain_row : ℕ → ℕ → ℕ → ℕ → DemandSource → F → F → MarketDemandResolved F
  plain_row location_id type_id period_days now source bfs stb = record {
    location_id = location_id;
    type_id = type_id;
    period_days = period_days;
    demand_source = source;
    buy_from_sell_period = bfs;
    sell_to_buy_period = stb;
    esi_live_valid_days = none;
    esi_live_buy_from_sell_ratio_period = none;
    esi_live_buy_from_sell_ratio_yesterday = none;
    esi_live_fallback_reason = none;
    computed_at = now;
  }

  -- `_upsert_row`
  unfoldable pub upsert_row :
      MarketDemandResolved F → ℕ → DemandTables F → Resolution F × DemandTables F
  unfolding upsert
  upsert_row row points t = (
    resolved (record {
      created = is_none (stored demand_key row t.resolved);
      row = some row;
      points_used = points;
    }),
    record t { resolved = upsert demand_key row t.resolved },
  )

  -- `_delete_existing`: the key is unique, so the row that it deletes is the only one.
  unfoldable pub delete_existing : ℕ → ℕ → ℕ → DemandTables F → Resolution F × DemandTables F
  delete_existing location_id type_id period_days t = (
    resolved (record { created = false; row = none; points_used = 0 }),
    record t {
      resolved =
          delete
            (λ r.
              r.location_id == location_id && r.type_id == type_id && r.period_days == period_days)
            t.resolved;
    },
  )

  unfoldable pub is_period : ℕ → ℕ → ℕ → PeriodRow F → Bool
  is_period place_id type_id period_days r =
      r.place_id == place_id && r.type_id == type_id && r.period_days == period_days

module _ {F : Type 0} (f : Float F) where
  unfoldable pub add_adam : ℕ → AdamRow F → AdamSums F → AdamSums F
  add_adam latest r s =
      if r.is_buy_order == 0
      then record s {
        bfs_period = f.add s.bfs_period r.amount;
        bfs_yesterday =
            if r.scan_date == latest then f.add s.bfs_yesterday r.amount else s.bfs_yesterday;
      }
      else record s { stb_period = f.add s.stb_period r.amount }

  unfoldable pub add_adams : ℕ → List (AdamRow F) → AdamSums F → AdamSums F
  unfolding add_adam
  add_adams latest [] s = s
  add_adams latest (r ∷ rs) s = add_adams latest rs (add_adam latest r s)

  -- The lookup of Adam4EVE rows, and the loop over those in the window before the latest scan.
  unfoldable pub adam_sums : Location → Item → ℕ → List (AdamRow F) → AdamSums F
  unfolding add_adams
  adam_sums loc item period_days adam_rows =
      let own =
        select (λ r. r.location_id == loc.location_id && r.type_id == item.type_id) adam_rows in
      let latest = latest_scan own in
      let window = select (λ r. leb latest (r.scan_date + (period_days - 1))) own in
      let start : AdamSums F = record {
        bfs_yesterday = f.zero;
        bfs_period = f.zero;
        stb_period = f.zero;
        points = count_dates window;
      } in
      add_adams latest window start

  abbrev pub uncovered : AdamSums F
  uncovered = record {
    bfs_yesterday = f.zero;
    bfs_period = f.zero;
    stb_period = f.zero;
    points = 0;
  }

  -- The branch of an estimate: its row, or what `otherwise` does.
  unfoldable pub live_or :
      ℕ
      → ℕ
      → ℕ
      → ℕ
      → Option (EsiLiveDemandEstimate F)
      → Resolution F × DemandTables F
      → DemandTables F
      → Resolution F × DemandTables F
  unfolding upsert_row live_row
  live_or location_id type_id period_days now none otherwise t = otherwise
  live_or location_id type_id period_days now (some e) otherwise t =
      upsert_row (live_row location_id type_id period_days now e) e.valid_days t

  -- The branch of a demand period with sales: its row under the source, or what `otherwise` does.
  unfoldable pub period_or :
      ℕ
      → ℕ
      → ℕ
      → ℕ
      → DemandSource
      → (PeriodRow F → ℕ)
      → Option (PeriodRow F)
      → Resolution F × DemandTables F
      → DemandTables F
      → Resolution F × DemandTables F
  unfolding upsert_row plain_row
  period_or location_id type_id period_days now source points none otherwise t = otherwise
  period_or location_id type_id period_days now source points (some p) otherwise t =
      if f.lt f.zero p.buy_from_sell_period
      then upsert_row
          (plain_row location_id type_id period_days now source p.buy_from_sell_period
            p.sell_to_buy_period)
          (points p) t
      else otherwise

  -- `_upsert_npc_from_adam` for a location and an item that were found.
  unfoldable pub upsert_npc :
      Location → Item → ℕ → Bool → ℕ → DemandTables F → Resolution F × DemandTables F
  unfolding adam_sums upsert_row plain_row is_period estimate_esi_live_demand delete_existing
      live_or period_or
  upsert_npc loc item period_days adam_covered now t =
      let sums = if adam_covered then adam_sums loc item period_days t.adam_rows else uncovered in
      let reason = if adam_covered then "adam_zero_buy_from_sell" else "adam_not_covered" in
      let live =
        live_or loc.id item.id period_days now
          (estimate_esi_live_demand f loc item.id period_days reason t.history)
          (delete_existing loc.id item.id period_days t) t in
      let station =
        period_or loc.id item.id period_days now npc_station_period
          (λ p. f.trunc (f.mul p.coverage_pct (f.of_ℕ period_days)))
          (find_first (is_period loc.id item.id period_days) t.station_periods) live t in
      if f.lt f.zero sums.bfs_yesterday || f.lt f.zero sums.bfs_period
      then upsert_row
          (plain_row loc.id item.id period_days now adam4eve sums.bfs_period sums.stb_period)
          sums.points t
      else station

  unfoldable pub upsert_npc_found :
      Location → Option Item → ℕ → Bool → ℕ → DemandTables F → Resolution F × DemandTables F
  unfolding upsert_npc
  upsert_npc_found loc none period_days adam_covered now t =
      (value_error "location_id or type_id was not found", t)
  upsert_npc_found loc (some item) period_days adam_covered now t =
      upsert_npc loc item period_days adam_covered now t

  unfoldable pub fallback_row : ℕ → ℕ → ℕ → ℕ → MarketDemandResolved F
  unfolding plain_row
  fallback_row location_id type_id period_days now =
      record (plain_row location_id type_id period_days now regional_fallback f.zero f.zero) {
        esi_live_valid_days = some 0;
        esi_live_fallback_reason = some "missing_structure_period_and_esi_history";
      }

  -- A structure's own period, else `_upsert_structure_fallback`.
  unfoldable pub upsert_structure :
      Location → ℕ → ℕ → ℕ → DemandTables F → Resolution F × DemandTables F
  unfolding upsert_row fallback_row is_period estimate_esi_live_demand live_or period_or
  upsert_structure loc type_id period_days now t =
      let fallback =
        live_or loc.id type_id period_days now
          (estimate_esi_live_demand f loc type_id period_days "missing_structure_period" t.history)
          (upsert_row (fallback_row loc.id type_id period_days now) 0 t) t in
      period_or loc.id type_id period_days now local_structure (λ p. 1)
        (find_first (is_period loc.location_id type_id period_days) t.structure_periods) fallback t

  unfoldable pub upsert_found :
      ℕ → ℕ → Bool → ℕ → Option Location → ℕ → DemandTables F → Resolution F × DemandTables F
  unfolding upsert_npc_found upsert_structure decimal
  upsert_found location_id type_id adam_covered now none period_days t =
      (value_error (concat "location_id " (concat (decimal location_id) " was not found")), t)
  upsert_found location_id type_id adam_covered now (some loc) period_days t =
      if loc.is_npc_station
      then upsert_npc_found loc (find_first (λ i. i.id == type_id) t.items) period_days adam_covered
          now t
      else upsert_structure loc type_id period_days now t

  unfoldable pub upsert_for_location :
      ℕ → ℕ → ℕ → Bool → ℕ → DemandTables F → Resolution F × DemandTables F
  unfolding upsert_found
  upsert_for_location location_id type_id period_days adam_covered now t =
      upsert_found location_id type_id adam_covered now
        (find_first (λ l. l.id == location_id) t.locations) period_days t
