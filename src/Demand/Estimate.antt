-- ===== src/Demand/Estimate.antt =====
-- `_estimate_buy_from_sell_ratio` and `_estimate_esi_live_demand` of market_demand.py.
use eve_station_trader.Prelude.{
  ℕ, zero, suc, ◌+◌, not, ◌&&◌, Option, none, some, List, [], ◌∷◌, String, ◌==◌, ltb, max, select,
  if◌then◌else◌,
}
use eve_station_trader.Opportunities.Floats.{Float, min_of, max_of}
use eve_station_trader.Demand.Rows.{Location, EsiHistoryDaily}

pub record EsiLiveDemandEstimate (F : Type 0) : Type 0 where
  pub buy_from_sell_period : F
  pub sell_to_buy_period : F
  pub valid_days : ℕ
  pub buy_from_sell_ratio_period : Option F
  pub buy_from_sell_ratio_yesterday : Option F
  pub fallback_reason : String

-- The variables of the loop over the days.
pub record DaySums (F : Type 0) : Type 0 where
  pub buy_from_sell_period : F
  pub sell_to_buy_period : F
  pub valid_days : ℕ
  pub valid_volume_period : F
  pub buy_from_sell_ratio_yesterday : Option F

module _ {F : Type 0} where
  -- ORDER BY date DESC LIMIT n
  unfoldable pub insert_by_date :
      EsiHistoryDaily F → List (EsiHistoryDaily F) → List (EsiHistoryDaily F)
  insert_by_date r [] = r ∷ []
  insert_by_date r (x ∷ xs) = if ltb r.date x.date then x ∷ insert_by_date r xs else r ∷ x ∷ xs

  unfoldable pub order_by_date : List (EsiHistoryDaily F) → List (EsiHistoryDaily F)
  unfolding insert_by_date
  order_by_date [] = []
  order_by_date (x ∷ xs) = insert_by_date x (order_by_date xs)

  unfoldable pub limit : ℕ → List (EsiHistoryDaily F) → List (EsiHistoryDaily F)
  limit zero xs = []
  limit (suc n) [] = []
  limit (suc n) (x ∷ xs) = x ∷ limit n xs

  unfoldable pub history_rows :
      Location → ℕ → ℕ → List (EsiHistoryDaily F) → List (EsiHistoryDaily F)
  unfolding order_by_date limit
  history_rows loc type_id period_days history =
      limit (max period_days 1)
        (order_by_date (select (λ r. r.region_id == loc.region_id && r.type_id == type_id) history))

  -- max(row.date for row in history_rows)
  unfoldable pub latest_date : List (EsiHistoryDaily F) → ℕ
  latest_date [] = 0
  latest_date (r ∷ rs) = max r.date (latest_date rs)

module _ {F : Type 0} (f : Float F) where
  unfoldable pub estimate_buy_from_sell_ratio : F → F → F → F
  estimate_buy_from_sell_ratio median_price lowest_price highest_price =
      let ratio = f.div (f.sub median_price lowest_price) (f.sub highest_price lowest_price) in
      if not (f.lt lowest_price highest_price)
      then f.div (f.of_ℕ 1) (f.of_ℕ 2)
      else min_of f (max_of f ratio f.zero) (f.of_ℕ 1)

  -- One day of the loop: a day without volume is passed over.
  unfoldable pub add_day : ℕ → EsiHistoryDaily F → DaySums F → DaySums F
  unfolding estimate_buy_from_sell_ratio
  add_day latest r s =
      let ratio = estimate_buy_from_sell_ratio r.average r.lowest r.highest in
      let volume = f.of_ℕ r.volume in
      if r.volume == 0 then s else record {
        buy_from_sell_period = f.add s.buy_from_sell_period (f.mul volume ratio);
        sell_to_buy_period = f.add s.sell_to_buy_period (f.mul volume (f.sub (f.of_ℕ 1) ratio));
        valid_days = s.valid_days + 1;
        valid_volume_period = f.add s.valid_volume_period volume;
        buy_from_sell_ratio_yesterday =
            if r.date == latest then some ratio else s.buy_from_sell_ratio_yesterday;
      }

  unfoldable pub add_days : ℕ → List (EsiHistoryDaily F) → DaySums F → DaySums F
  unfolding add_day
  add_days latest [] s = s
  add_days latest (r ∷ rs) s = add_days latest rs (add_day latest r s)

  abbrev pub no_days : DaySums F
  no_days = record {
    buy_from_sell_period = f.zero;
    sell_to_buy_period = f.zero;
    valid_days = 0;
    valid_volume_period = f.zero;
    buy_from_sell_ratio_yesterday = none;
  }

  unfoldable pub estimate_of : String → DaySums F → Option (EsiLiveDemandEstimate F)
  estimate_of reason s =
      if s.valid_days == 0
      then none
      else some (record {
        buy_from_sell_period = s.buy_from_sell_period;
        sell_to_buy_period = s.sell_to_buy_period;
        valid_days = s.valid_days;
        buy_from_sell_ratio_period =
            if f.lt f.zero s.valid_volume_period
            then some (f.div s.buy_from_sell_period s.valid_volume_period)
            else none;
        buy_from_sell_ratio_yesterday = s.buy_from_sell_ratio_yesterday;
        fallback_reason = reason;
      })

  -- `_estimate_esi_live_demand` for a location that was found. Without rows no day is valid.
  unfoldable pub estimate_esi_live_demand :
      Location → ℕ → ℕ → String → List (EsiHistoryDaily F) → Option (EsiLiveDemandEstimate F)
  unfolding add_days estimate_of history_rows latest_date
  estimate_esi_live_demand loc type_id period_days reason history =
      let rows = history_rows loc type_id period_days history in
      estimate_of reason (add_days (latest_date rows) rows no_days)
