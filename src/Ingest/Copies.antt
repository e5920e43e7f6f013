-- ===== src/Ingest/Copies.antt =====
-- `_ingest_batches_via_postgres_copy`, `_materialize_valid_stage`, `ingest_order_batches` and
-- `ingest_region_orders` of backend/app/services/esi/orders_ingestion.py.
use eve_station_trader.Prelude.{
  among, ℕ, ◌+◌, ◌-◌, ◌==◌, ltb, Bool, not, ◌&&◌, ◌||◌, Option, none, some, List, [], ◌∷◌, ◌++◌,
  map, any_row, delete, count_where, length, is_none, if◌then◌else◌, String,
}
use eve_station_trader.Npc.Rows.{MarketOrder, StagedOrder, OrderDelta}
use eve_station_trader.Npc.Deltas.{compute_and_persist_deltas}
use eve_station_trader.Ingest.Rows.{
  Location, Item, Fetched, OrderRecord, EsiMarketOrder, Places, Result, done, raise, ◌>>=◌,
  bad_time, integrity_error, IngestionResult, find_location, find_item,
}
use eve_station_trader.Ingest.Regions.{order_row}
use eve_station_trader.Ingest.Batches.{
  OrderBatch, StageRow, collect_unique_station_rows, ensure_station_locations_for_batches,
}

-- The tables that an ingestion writes.
pub record IngestTables (F : Type 0) : Type 0 where
  pub places : Places
  pub orders : List (EsiMarketOrder F)
  pub deltas : List (OrderDelta F)

unfoldable pub empty_result : IngestionResult
empty_result = record {
  region_id = 0;
  records_processed = 0;
  created = 0;
  updated = 0;
  deleted = 0;
  stations_created = 0;
  items_created = 0;
  skipped_missing_items = 0;
  skipped_non_npc_locations = 0;
  delta_count = 0;
}

module _ {F : Type 0} where
  unfoldable pub stage_row :
      ℕ → ℕ → OrderRecord F → Option ℕ → Result (List (StageRow F)) → Result (List (StageRow F))
  stage_row region_id eve_region_id r none rest = raise (bad_time r.issued)
  stage_row region_id eve_region_id r (some t) rest = rest >>= λ rows. done (
      record { region_id = region_id; eve_region_id = eve_region_id; order = r; issued = t } ∷ rows)

  -- COPY of one batch into the stage; a time that cannot be read raises.
  unfoldable pub staged_rows :
      ℕ → ℕ → (String → Option ℕ) → List (OrderRecord F) → Result (List (StageRow F))
  unfolding stage_row
  staged_rows region_id eve_region_id parse_time [] = done []
  staged_rows region_id eve_region_id parse_time (r ∷ rs) =
      stage_row region_id eve_region_id r (parse_time r.issued)
        (staged_rows region_id eve_region_id parse_time rs)

  unfoldable pub with_batch :
      ℕ
      → ℕ
      → List (StageRow F)
      → List (StageRow F) × List (ℕ × ℕ)
      → List (StageRow F) × List (ℕ × ℕ)
  with_batch count total rows (rest, reports) = (rows ++ rest, (count, total) ∷ reports)

  -- All batches, with the calls of progress_callback.
  unfoldable pub stage_batches :
      ℕ → ℕ → (String → Option ℕ) → List (OrderBatch F) → Result (List (StageRow F) × List (ℕ × ℕ))
  unfolding staged_rows with_batch
  stage_batches total before parse_time [] = done ([], [])
  stage_batches total before parse_time (b ∷ bs) =
      let count = before + length b.records in
      staged_rows b.region_id b.eve_region_id parse_time b.records >>= λ rows.
      stage_batches total count parse_time bs >>= λ rest. done (with_batch count total rows rest)

  -- ORDER BY order_id, issued DESC, region_id DESC, locations.id DESC
  unfoldable pub stage_before : EsiMarketOrder F → EsiMarketOrder F → Bool
  stage_before a b =
      ltb a.order_id b.order_id
      || (a.order_id == b.order_id
          && (ltb b.issued a.issued
              || (a.issued == b.issued
                  && (ltb b.region_id a.region_id
                      || (a.region_id == b.region_id && ltb b.location_id a.location_id)))))

  unfoldable pub insert_staged :
      EsiMarketOrder F → List (EsiMarketOrder F) → List (EsiMarketOrder F)
  unfolding stage_before
  insert_staged r [] = r ∷ []
  insert_staged r (x ∷ xs) = if stage_before x r then x ∷ insert_staged r xs else r ∷ x ∷ xs

  unfoldable pub order_staged : List (EsiMarketOrder F) → List (EsiMarketOrder F)
  unfolding insert_staged
  order_staged [] = []
  order_staged (x ∷ xs) = insert_staged x (order_staged xs)

  -- SELECT DISTINCT ON (order_id): the first row of each id, where `seen` are those already given.
  unfoldable pub distinct_on : List ℕ → List (EsiMarketOrder F) → List (EsiMarketOrder F)
  distinct_on seen [] = []
  distinct_on seen (x ∷ xs) =
      let rest = distinct_on (x.order_id ∷ seen) xs in
      let others = distinct_on seen xs in if among x.order_id seen then others else x ∷ rest

  -- The two joins: by the unique keys of items and of locations.
  unfoldable pub joined_row :
      ℕ
      → StageRow F
      → Option Item
      → Option Location
      → List (EsiMarketOrder F)
      → List (EsiMarketOrder F)
  unfolding order_row
  joined_row utcnow s (some item) (some l) rows =
      order_row utcnow s.region_id item l s.issued s.order ∷ rows
  joined_row utcnow s (some item) none rows = rows
  joined_row utcnow s none l rows = rows

  unfoldable pub joined : ℕ → Places → List (StageRow F) → List (EsiMarketOrder F)
  unfolding joined_row
  joined utcnow p [] = []
  joined utcnow p (s ∷ stage) =
      joined_row utcnow s (find_item s.order.type_id p) (find_location s.order.location_id p)
        (joined utcnow p stage)

  unfoldable pub materialize_valid_stage : ℕ → Places → List (StageRow F) → List (EsiMarketOrder F)
  unfolding distinct_on order_staged joined
  materialize_valid_stage utcnow p stage = distinct_on [] (order_staged (joined utcnow p stage))

  -- order_id IN the rows
  unfoldable pub has_order : ℕ → List (EsiMarketOrder F) → Bool
  has_order k rows = any_row (λ o. o.order_id == k) rows

  unfoldable pub missing_items : Places → List (StageRow F) → ℕ
  missing_items p stage = count_where (λ s. is_none (find_item s.order.type_id p)) stage

  unfoldable pub missing_locations : Places → List (StageRow F) → ℕ
  missing_locations p stage =
      count_where
        (λ s.
          not (is_none (find_item s.order.type_id p))
          && is_none (find_location s.order.location_id p))
        stage

  -- What NpcStationDeltaService selects of the two tables.
  abbrev pub previous_order : EsiMarketOrder F → MarketOrder F
  previous_order o = record {
    location_id = o.location_id;
    type_id = o.type_id;
    order_id = o.order_id;
    is_buy_order = o.is_buy_order;
    price = o.price;
    volume_remain = o.volume_remain;
    updated_at = o.updated_at;
  }

  abbrev pub staged_order : EsiMarketOrder F → StagedOrder F
  staged_order o = record {
    location_id = o.location_id;
    type_id = o.type_id;
    order_id = o.order_id;
    is_buy_order = o.is_buy_order;
    price = o.price;
    volume_remain = o.volume_remain;
  }

  -- `if target_location_ids`: the deltas, before the old orders go.
  unfoldable pub record_deltas :
      List ℕ
      → ℕ
      → List (EsiMarketOrder F)
      → List (EsiMarketOrder F)
      → List (OrderDelta F)
      → ℕ × List (OrderDelta F)
  unfolding compute_and_persist_deltas
  record_deltas [] now orders valid deltas = (0, deltas)
  record_deltas (l ∷ ls) now orders valid deltas =
      let (result, t) = compute_and_persist_deltas (l ∷ ls) now (record {
        orders = map previous_order orders;
        stage = map staged_order valid;
        deltas = deltas;
      }) in
      (result.delta_count, t.deltas)

  -- The DELETE by region and the INSERT, which the unique index of order_id can refuse.
  unfoldable pub kept_orders : List ℕ → List (EsiMarketOrder F) → List (EsiMarketOrder F)
  kept_orders region_ids orders = delete (λ o. among o.region_id region_ids) orders

  unfoldable pub insert_valid :
      List (EsiMarketOrder F) → List (EsiMarketOrder F) → Result (List (EsiMarketOrder F))
  unfolding has_order
  insert_valid valid kept =
      if any_row (λ v. has_order v.order_id kept) valid
      then raise integrity_error
      else done (kept ++ valid)

  unfoldable pub total_records : List (OrderBatch F) → ℕ
  total_records [] = 0
  total_records (b ∷ bs) = length b.records + total_records bs

  -- The statements from the valid rows on.
  unfoldable pub replace_orders :
      ℕ
      → List ℕ
      → List (OrderBatch F)
      → ℕ
      → Places
      → List (StageRow F)
      → IngestTables F
      → Result (IngestionResult × IngestTables F)
  unfolding materialize_valid_stage missing_items missing_locations has_order record_deltas
      kept_orders insert_valid total_records
  replace_orders utcnow targets batches stations_created places stage t =
      let region_ids = map (λ (b : OrderBatch F). b.region_id) batches in
      let stage_regions = map (λ (s : StageRow F). s.region_id) stage in
      let valid = materialize_valid_stage utcnow places stage in
      let updated = count_where (λ v. has_order v.order_id t.orders) valid in
      let (delta_count, deltas) = record_deltas targets utcnow t.orders valid t.deltas in
      insert_valid valid (kept_orders region_ids t.orders) >>= λ orders. done (
        record {
          region_id = 0;
          records_processed = total_records batches;
          created = length valid - updated;
          updated = updated;
          deleted =
              count_where (λ o. among o.region_id stage_regions && not (has_order o.order_id valid))
                t.orders;
          stations_created = stations_created;
          items_created = 0;
          skipped_missing_items = missing_items places stage;
          skipped_non_npc_locations = missing_locations places stage;
          delta_count = delta_count;
        },
        record { places = places; orders = orders; deltas = deltas },
      )

module _ {F : Type 0} (universe : ℕ → Fetched) (cancelled : ℕ → Bool)
    (parse_time : String → Option ℕ) (utcnow : ℕ) where
  -- The rest of the ingestion, for batches that are not empty: stations, stage, statements.
  unfoldable pub ingest_batches_via_postgres_copy :
      List ℕ → List (OrderBatch F) → IngestTables F → Result (IngestionResult × IngestTables F)
  unfolding collect_unique_station_rows ensure_station_locations_for_batches stage_batches
      replace_orders
  ingest_batches_via_postgres_copy targets batches t =
      ensure_station_locations_for_batches universe cancelled (collect_unique_station_rows batches)
        t.places
      >>= λ s. stage_batches (total_records batches) 0 parse_time batches >>= λ stage.
          replace_orders utcnow targets batches s.0 s.1 stage.0 t
