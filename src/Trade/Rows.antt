-- ===== src/Trade/Rows.antt =====
-- The tables that backend/app/repositories/trade_repository.py reads and writes
-- (backend/app/models/all_models.py), and how a reference to a location or an item is resolved.
use eve_station_trader.Prelude.{
  ℕ, ◌==◌, leb, Bool, not, ◌&&◌, ◌||◌, Option, none, some, List, String, find_first, starts_with,
  if◌then◌else◌,
}
use mathlib.Core.Option
use eve_station_trader.Ingest.Rows.{Location}

pub record Item : Type 0 where
  pub id : ℕ
  pub type_id : ℕ
  pub name : String

-- The key of a row of market_price_period or of market_demand_resolved.
pub record PeriodKey : Type 0 where
  pub location_id : ℕ
  pub period_days : ℕ

abbrev pub max_int32 : ℕ
max_int32 = 2_147_483_647

-- `_resolve_location_id`: a reference is a key `id`, if it fits, or a `location_id`; the first row of
-- the table that fits.
unfoldable pub is_referred : ℕ → Location → Bool
is_referred reference l = leb reference max_int32 && l.id == reference || l.location_id == reference

unfoldable pub resolve_location_id : ℕ → List Location → Option ℕ
unfolding is_referred
resolve_location_id reference locations =
    Option.map (λ (l : Location). l.id) (find_first (is_referred reference) locations)

unfoldable pub resolve_type_id : ℕ → List Item → Option ℕ
resolve_type_id reference items =
    Option.map (λ (i : Item). i.id)
      (find_first (λ i. i.id == reference || i.type_id == reference) items)

-- `_display_location_name`: a name that is no placeholder, of the station first.
unfoldable pub display_location_name : String → Option String → String
display_location_name location_name none = location_name
display_location_name location_name (some station_name) =
    if not (starts_with "Station " station_name)
    then station_name
    else if not (starts_with "Station " location_name)
    then location_name
    else station_name
