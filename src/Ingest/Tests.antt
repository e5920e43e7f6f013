-- ===== src/Ingest/Tests.antt =====
-- Runs of the ingestion of orders on a small market, and the theorems at them.
use eve_station_trader.Prelude.{
  ℕ, ◌==◌, ◌≡◌, refl, Bool, false, Option, none, some, List, [], ◌∷◌, if◌then◌else◌, String, str_eq,
}
use eve_station_trader.Prelude.Int.{pos}
use eve_station_trader.Prelude.Ids.{IsUnique}
use eve_station_trader.Ingest.Rows.{
  npc_station, StationSeed, Fetched, found, status_error, OrderRecord, EsiMarketOrder, Places, done,
  IngestionResult, find_order,
}
use eve_station_trader.Ingest.Regions.{Run}
use eve_station_trader.Ingest.Returns.{Returns}
use eve_station_trader.Ingest.Batches.{OrderBatch}
use eve_station_trader.Ingest.Copies.{
  IngestTables, joined, kept_orders, ingest_batches_via_postgres_copy,
}
use eve_station_trader.Ingest.Newest.{newest}
use eve_station_trader.Ingest.Replaced.{or_row, outside}
use eve_station_trader.Ingest.Copied.{
  stage_of, ingest_batches_via_postgres_copy-book, ingest_batches_via_postgres_copy-uncounted,
}
use eve_station_trader.Ingest.Service.{ingest_region_orders}

abbrev hub : StationSeed
hub = record { station_id = 60; system_id = 0; name = "Hub" }

universe : ℕ → Fetched
universe n = if n == 60 then found hub else status_error 404

parse_time : String → Option ℕ
parse_time s = if str_eq s "" then none else some 7

never : ℕ → Bool
never n = false

changed : EsiMarketOrder ℕ → EsiMarketOrder ℕ → Bool
changed a b = false

abbrev market : Places
market = record {
  regions = record { id = 1; region_id = 10 } ∷ record { id = 2; region_id = 20 } ∷ [];
  systems = record { id = 3; system_id = 30; region_id = 1 } ∷ [];
  stations = [];
  locations = [];
  items = record { id = 4; type_id = 34 } ∷ [];
  next_location = 5;
}

abbrev offer : ℕ → ℕ → ℕ → OrderRecord ℕ
offer order_id type_id location_id = record {
  order_id = order_id;
  type_id = type_id;
  location_id = location_id;
  system_id = 30;
  is_buy_order = false;
  price = 9;
  volume_total = pos 100;
  volume_remain = pos 40;
  min_volume = pos 1;
  range = "region";
  issued = "2026-03-01T00:00:00Z";
  duration = pos 90;
}

abbrev row : ℕ → ℕ → ℕ → ℕ → EsiMarketOrder ℕ
row order_id region_id issued updated_at = record {
  order_id = order_id;
  region_id = region_id;
  location_id = 5;
  type_id = 4;
  system_id = 3;
  is_buy_order = false;
  price = 9;
  volume_total = pos 100;
  volume_remain = pos 40;
  min_volume = pos 1;
  order_range = "region";
  issued = issued;
  duration = pos 90;
  updated_at = updated_at;
}

-- One order of a known item at a new station, one of an unknown item, one at an unknown station.
abbrev offers : List (OrderRecord ℕ)
offers = offer 500 34 60 ∷ offer 501 35 60 ∷ offer 502 34 61 ∷ []

abbrev old_orders : List (EsiMarketOrder ℕ)
old_orders = row 499 1 1 1 ∷ row 700 2 1 1 ∷ []

abbrev after_market : Places
after_market = record market {
  stations = record { station_id = 60; system_id = 3; region_id = 1; name = "Hub" } ∷ [];
  locations =
      record {
        id = 5;
        location_id = 60;
        location_type = npc_station;
        system_id = 3;
        region_id = 1;
        name = "Hub";
      }
      ∷ [];
  next_location = 6;
}

abbrev after_run : Run ℕ
after_run = record {
  places = after_market;
  orders = row 700 2 1 1 ∷ row 500 1 7 99 ∷ [];
  seen_order_ids = 500 ∷ [];
  created = 1;
  updated = 0;
  stations_created = 1;
  skipped_missing_items = 1;
  skipped_non_npc_locations = 1;
  processed_records = 3;
  reports = (3, 3) ∷ (2, 3) ∷ (1, 3) ∷ [];
}

abbrev outcome : ℕ → ℕ → IngestionResult
outcome region_id deleted = record {
  region_id = region_id;
  records_processed = 3;
  created = 1;
  updated = 0;
  deleted = deleted;
  stations_created = 1;
  items_created = 0;
  skipped_missing_items = 1;
  skipped_non_npc_locations = 1;
  delta_count = 0;
}

old_orders-IsUnique : IsUnique (λ (o : EsiMarketOrder ℕ). o.order_id) old_orders
old_orders-IsUnique = ((refl, tt), (tt, tt))

abbrev tables : IngestTables ℕ
tables = record { places = market; orders = old_orders; deltas = [] }

abbrev batch : List (OrderRecord ℕ) → OrderBatch ℕ
batch records = record { region_id = 1; eve_region_id = 10; records = records }

abbrev after_tables : IngestTables ℕ
after_tables = record {
  places = after_market;
  orders = row 700 2 1 1 ∷ row 500 1 7 99 ∷ [];
  deltas = [];
}

copies :
    ingest_batches_via_postgres_copy universe never parse_time 99 [] (batch offers ∷ []) tables
    ≡ done (record (outcome 0 1) { region_id = 0 }, after_tables)
unfolding ingest_batches_via_postgres_copy universe never parse_time
copies = refl

ingest_batches_via_postgres_copy-book_example :
    find_order 500 after_tables.orders
    ≡ or_row
        (newest 500 (joined 99 after_market (stage_of parse_time (batch offers ∷ []))))
        (outside (1 ∷ []) (find_order 500 old_orders))
ingest_batches_via_postgres_copy-book_example =
    ingest_batches_via_postgres_copy-book universe never parse_time 99 [] (batch offers ∷ []) tables
      (record (outcome 0 1) { region_id = 0 }) after_tables old_orders-IsUnique copies 500

ingest_batches_via_postgres_copy-uncounted_example :
    (result : IngestionResult) × (after : IngestTables ℕ) × (ingest_batches_via_postgres_copy
        universe never parse_time 99 []
        (batch [] ∷ [])
        tables
      ≡ done (result, after))
    × (after.orders ≡ kept_orders (1 ∷ []) old_orders)
    × (result.deleted ≡ 0)
ingest_batches_via_postgres_copy-uncounted_example =
    ingest_batches_via_postgres_copy-uncounted universe never parse_time 99 [] (batch [] ∷ [])
      tables (refl, tt)

-- Off PostgreSQL, the service takes the records one by one; an unknown region raises.
serves :
    (ingest_region_orders universe
      (λ b n. false)
      parse_time
      changed
      99
      false
      10
      offers
      tables).1.orders
    ≡ after_tables.orders
unfolding ingest_region_orders universe parse_time changed
serves = refl
