-- ===== src/Ingest/Service.antt =====
-- `ingest_order_batches`, `ingest_region_orders` and `_require_region_id` of
-- backend/app/services/esi/orders_ingestion.py. An exception leaves what was committed before it.
use eve_station_trader.Prelude.{
  ℕ, ◌+◌, Bool, true, false, Option, none, some, List, [], ◌∷◌, String,
}
use eve_station_trader.Ingest.Rows.{
  Region, Fetched, OrderRecord, EsiMarketOrder, Result, done, raise, unknown_region,
  IngestionResult, find_region,
}
use eve_station_trader.Ingest.Regions.{Run, ingest_via_orm}
use eve_station_trader.Ingest.Batches.{OrderBatch}
use eve_station_trader.Ingest.Copies.{IngestTables, empty_result, ingest_batches_via_postgres_copy}

-- The counts so far, and those of one more batch.
unfoldable pub aggregated : IngestionResult → IngestionResult → IngestionResult
aggregated a r = record {
  region_id = 0;
  records_processed = a.records_processed + r.records_processed;
  created = a.created + r.created;
  updated = a.updated + r.updated;
  deleted = a.deleted + r.deleted;
  stations_created = a.stations_created + r.stations_created;
  items_created = a.items_created + r.items_created;
  skipped_missing_items = a.skipped_missing_items + r.skipped_missing_items;
  skipped_non_npc_locations = a.skipped_non_npc_locations + r.skipped_non_npc_locations;
  delta_count = 0;
}

-- `cancelled b n`: the check in batch `b` before the record after `n` others raises; a COPY has
-- checks in batch 0 alone.
module _ {F : Type 0} (universe : ℕ → Fetched) (cancelled : ℕ → ℕ → Bool)
    (parse_time : String → Option ℕ) (unchanged : EsiMarketOrder F → EsiMarketOrder F → Bool)
    (utcnow : ℕ) where
  -- What the commit of one region leaves, or the exception.
  unfoldable pub committed :
      IngestTables F → Result (IngestionResult × Run F) → Result IngestionResult × IngestTables F
  committed t (raise e) = (raise e, t)
  committed t (done (result, run)) =
      (done result, record t { places = run.places; orders = run.orders })

  unfoldable pub ingest_batch :
      ℕ → OrderBatch F → IngestTables F → Result IngestionResult × IngestTables F
  unfolding committed ingest_via_orm
  ingest_batch b batch t = committed t (
      ingest_via_orm universe (cancelled b) parse_time unchanged utcnow batch.eve_region_id
        batch.records t.places t.orders)

  unfoldable pub ingest_batches :
      ℕ
      → List (OrderBatch F)
      → IngestionResult
      → IngestTables F
      → Result IngestionResult × IngestTables F
  unfolding ingest_batch aggregated
  ingest_batches b [] aggregate t = (done aggregate, t)
  ingest_batches b (batch ∷ batches) aggregate t =
      let (outcome, t') = ingest_batch b batch t in
      let rest = λ (result : IngestionResult).
        ingest_batches (b + 1) batches (aggregated aggregate result) t' in
      elim outcome [ raise e ↦ (raise e, t') | done result ↦ rest result ]

  unfoldable pub copied :
      IngestTables F
      → Result (IngestionResult × IngestTables F)
      → Result IngestionResult × IngestTables F
  copied t (raise e) = (raise e, t)
  copied t (done (result, t')) = (done result, t')

  -- `postgresql` is the test of the dialect.
  unfoldable pub ingest_order_batches :
      Bool → List ℕ → List (OrderBatch F) → IngestTables F → Result IngestionResult × IngestTables F
  unfolding ingest_batches copied ingest_batches_via_postgres_copy empty_result
  ingest_order_batches postgresql targets [] t = (done empty_result, t)
  ingest_order_batches false targets (b ∷ bs) t = ingest_batches 0 (b ∷ bs) empty_result t
  ingest_order_batches true targets (b ∷ bs) t =
      copied t (
        ingest_batches_via_postgres_copy universe (cancelled 0) parse_time utcnow targets (b ∷ bs)
          t)

  unfoldable pub require_region_id : ℕ → Option Region → Result ℕ
  require_region_id eve_region_id none = raise (unknown_region eve_region_id)
  require_region_id eve_region_id (some region) = done region.id

  unfoldable pub ingest_in_region :
      Bool
      → ℕ
      → List (OrderRecord F)
      → IngestTables F
      → Result ℕ
      → Result IngestionResult × IngestTables F
  unfolding ingest_order_batches
  ingest_in_region postgresql eve_region_id records t (raise e) = (raise e, t)
  ingest_in_region postgresql eve_region_id records t (done id) =
      ingest_order_batches postgresql []
        (record { region_id = id; eve_region_id = eve_region_id; records = records } ∷ []) t

  unfoldable pub ingest_region_orders :
      Bool → ℕ → List (OrderRecord F) → IngestTables F → Result IngestionResult × IngestTables F
  unfolding ingest_in_region require_region_id
  ingest_region_orders postgresql eve_region_id records t =
      ingest_in_region postgresql eve_region_id records t
        (require_region_id eve_region_id (find_region eve_region_id t.places))
