-- ===== src/Ingest/Regions.antt =====
-- `_ingest_via_orm`, `_delete_stale_orders`, `_delete_orders_by_ids` and `_require_region_id` of
-- backend/app/services/esi/orders_ingestion.py: the orders of one region, a record at a time.
use eve_station_trader.Prelude.{
  ℕ, zero, suc, ◌+◌, ◌/◌, ◌==◌, Bool, not, Option, none, some, List, [], ◌∷◌, ◌++◌, map, any_row,
  select, delete, update_where, length, if◌then◌else◌, String,
}
use eve_station_trader.Ingest.Rows.{
  Region, Location, Item, Fetched, OrderRecord, EsiMarketOrder, Places, Result, done, raise, ◌>>=◌,
  unknown_region, bad_time, job_cancelled_error, IngestionResult, find_region, find_item,
  find_order, add_id,
}
use eve_station_trader.Ingest.Stations.{ensure_station_location}

-- normalized_ids[start : start + size]
unfoldable pub drop {ℓ} : {A : Type ℓ} → ℕ → List A → List A
drop zero xs = xs
drop (suc n) [] = []
drop (suc n) (x ∷ xs) = drop n xs

unfoldable pub take {ℓ} : {A : Type ℓ} → ℕ → List A → List A
take zero xs = []
take (suc n) [] = []
take (suc n) (x ∷ xs) = x ∷ take n xs

abbrev pub delete_batch_size : ℕ
delete_batch_size = 5_000

-- The rows that the counters and the set of the loop are about.
pub record Run (F : Type 0) : Type 0 where
  pub places : Places
  pub orders : List (EsiMarketOrder F)
  pub seen_order_ids : List ℕ
  pub created : ℕ
  pub updated : ℕ
  pub stations_created : ℕ
  pub skipped_missing_items : ℕ
  pub skipped_non_npc_locations : ℕ
  pub processed_records : ℕ
  -- the calls of progress_callback, the last one first
  pub reports : List (ℕ × ℕ)

module _ {F : Type 0} where
  -- DELETE FROM esi_market_orders WHERE order_id IN (...)
  unfoldable pub delete_in : List ℕ → List (EsiMarketOrder F) → List (EsiMarketOrder F)
  delete_in ids orders = delete (λ o. any_row (λ i. i == o.order_id) ids) orders

  -- The rounds of `range(0, len(ids), size)` that are left, from `start` on.
  unfoldable pub delete_rounds :
      ℕ → ℕ → ℕ → List ℕ → List (EsiMarketOrder F) → List (EsiMarketOrder F)
  unfolding take drop delete_in
  delete_rounds size zero start ids orders = orders
  delete_rounds size (suc n) start ids orders =
      delete_rounds size n (start + size) ids (delete_in (take size (drop start ids)) orders)

  unfoldable pub delete_orders_by_ids : List ℕ → List (EsiMarketOrder F) → List (EsiMarketOrder F)
  unfolding delete_rounds
  delete_orders_by_ids ids orders =
      delete_rounds delete_batch_size ((length ids + 4_999) / 5_000) 0 ids orders

  unfoldable pub stale_order_ids : ℕ → List ℕ → List (EsiMarketOrder F) → List ℕ
  stale_order_ids region_id seen orders =
      select (λ i. not (any_row (λ x. x == i) seen))
        (map (λ o. o.order_id) (select (λ o. o.region_id == region_id) orders))

  unfoldable pub delete_stale : List ℕ → List (EsiMarketOrder F) → ℕ × List (EsiMarketOrder F)
  unfolding delete_orders_by_ids
  delete_stale [] orders = (0, orders)
  delete_stale (i ∷ ids) orders = (length (i ∷ ids), delete_orders_by_ids (i ∷ ids) orders)

  unfoldable pub delete_stale_orders :
      ℕ → List ℕ → List (EsiMarketOrder F) → ℕ × List (EsiMarketOrder F)
  unfolding delete_stale stale_order_ids
  delete_stale_orders region_id seen orders =
      delete_stale (stale_order_ids region_id seen orders) orders

  -- The row of a record.
  unfoldable pub order_row : ℕ → ℕ → Item → Location → ℕ → OrderRecord F → EsiMarketOrder F
  order_row utcnow region_id item location issued_at r = record {
    order_id = r.order_id;
    region_id = region_id;
    location_id = location.id;
    type_id = item.id;
    system_id = location.system_id;
    is_buy_order = r.is_buy_order;
    price = r.price;
    volume_total = r.volume_total;
    volume_remain = r.volume_remain;
    min_volume = r.min_volume;
    order_range = r.range;
    issued = issued_at;
    duration = r.duration;
    updated_at = utcnow;
  }

  -- `unchanged old new`: the ORM finds all assigned values as they were, so that it leaves the row
  -- and its updated_at.
  unfoldable pub written :
      (EsiMarketOrder F → EsiMarketOrder F → Bool)
      → EsiMarketOrder F
      → EsiMarketOrder F
      → EsiMarketOrder F
  written unchanged row old = if unchanged old row then old else row

  -- progress_callback(processed_records, len(records))
  unfoldable pub report : ℕ → Run F → Run F
  report total run = record run { reports = (run.processed_records, total) ∷ run.reports }

  unfoldable pub stored_order :
      (EsiMarketOrder F → EsiMarketOrder F → Bool)
      → EsiMarketOrder F
      → Option (EsiMarketOrder F)
      → Run F
      → Run F
  unfolding written
  stored_order unchanged row none run = record run {
    orders = run.orders ++ row ∷ [];
    created = run.created + 1;
  }
  stored_order unchanged row (some old) run = record run {
    orders = update_where (λ o. o.order_id == row.order_id) (written unchanged row) run.orders;
    updated = run.updated + 1;
  }

module _ {F : Type 0} where
  unfoldable pub fresh_run : Places → List (EsiMarketOrder F) → Run F
  fresh_run places orders = record {
    places = places;
    orders = orders;
    seen_order_ids = [];
    created = 0;
    updated = 0;
    stations_created = 0;
    skipped_missing_items = 0;
    skipped_non_npc_locations = 0;
    processed_records = 0;
    reports = [];
  }

  -- After the loop: the stale orders, the commit and the counts.
  unfoldable pub finished_result : ℕ → ℕ → Run F → IngestionResult × Run F
  unfolding delete_stale_orders
  finished_result total region_id run =
      let (deleted, orders) = delete_stale_orders region_id run.seen_order_ids run.orders in
      (
        record {
          region_id = region_id;
          records_processed = total;
          created = run.created;
          updated = run.updated;
          deleted = deleted;
          stations_created = run.stations_created;
          items_created = 0;
          skipped_missing_items = run.skipped_missing_items;
          skipped_non_npc_locations = run.skipped_non_npc_locations;
          delta_count = 0;
        },
        record run { orders = orders },
      )

-- `universe`: the answers of fetch_station. `cancelled n`: the check before the record after `n`
-- others raises. `parse_time`: datetime.fromisoformat.
module _ {F : Type 0} (universe : ℕ → Fetched) (cancelled : ℕ → Bool)
    (parse_time : String → Option ℕ) (unchanged : EsiMarketOrder F → EsiMarketOrder F → Bool)
    (utcnow : ℕ) where
  -- From `issued_at` on, with the time that was read.
  unfoldable pub at_time :
      ℕ → ℕ → OrderRecord F → Item → Location → Option ℕ → Run F → Result (Run F)
  unfolding report stored_order order_row
  at_time total region_id r item location none run = raise (bad_time r.issued)
  at_time total region_id r item location (some issued_at) run = done (
      report total (
        stored_order unchanged (order_row utcnow region_id item location issued_at r)
          (find_order r.order_id run.orders) run))

  unfoldable pub at_location :
      ℕ → ℕ → OrderRecord F → Item → Run F → Option Location × Bool × Places → Result (Run F)
  unfolding report at_time add_id
  at_location total region_id r item run (none, created, places) = done (
      report total (record run {
        places = places;
        skipped_non_npc_locations = run.skipped_non_npc_locations + 1;
      }))
  at_location total region_id r item run (some location, created, places) =
      at_time total region_id r item location (parse_time r.issued) (record run {
        places = places;
        stations_created = run.stations_created + (if created then 1 else 0);
        seen_order_ids = add_id r.order_id run.seen_order_ids;
      })

  unfoldable pub at_item : ℕ → ℕ → ℕ → OrderRecord F → Option Item → Run F → Result (Run F)
  unfolding report at_location ensure_station_location
  at_item total eve_region_id region_id r none run =
      done (report total (record run { skipped_missing_items = run.skipped_missing_items + 1 }))
  at_item total eve_region_id region_id r (some item) run =
      ensure_station_location universe eve_region_id r.location_id r.system_id run.places
      >>= at_location total region_id r item run

  -- One round of the loop.
  unfoldable pub ingest_record : ℕ → ℕ → ℕ → OrderRecord F → Run F → Result (Run F)
  unfolding at_item
  ingest_record total eve_region_id region_id r run =
      if cancelled run.processed_records
      then raise job_cancelled_error
      else at_item total eve_region_id region_id r (find_item r.type_id run.places)
          (record run { processed_records = run.processed_records + 1 })

  unfoldable pub ingest_records : ℕ → ℕ → ℕ → List (OrderRecord F) → Run F → Result (Run F)
  unfolding ingest_record
  ingest_records total eve_region_id region_id [] run = done run
  ingest_records total eve_region_id region_id (r ∷ rs) run =
      ingest_record total eve_region_id region_id r run >>= λ run'.
      ingest_records total eve_region_id region_id rs run'

  unfoldable pub ingest_known :
      ℕ
      → Option Region
      → List (OrderRecord F)
      → Places
      → List (EsiMarketOrder F)
      → Result (IngestionResult × Run F)
  unfolding ingest_records fresh_run finished_result
  ingest_known eve_region_id none records places orders = raise (unknown_region eve_region_id)
  ingest_known eve_region_id (some region) records places orders =
      ingest_records (length records) eve_region_id region.id records (fresh_run places orders)
      >>= λ run. done (finished_result (length records) region.id run)

  unfoldable pub ingest_via_orm :
      ℕ → List (OrderRecord F) → Places → List (EsiMarketOrder F) → Result (IngestionResult × Run F)
  unfolding ingest_known
  ingest_via_orm eve_region_id records places orders =
      ingest_known eve_region_id (find_region eve_region_id places) records places orders
