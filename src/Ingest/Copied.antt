-- ===== src/Ingest/Copied.antt =====
-- What `_ingest_batches_via_postgres_copy` leaves of esi_market_orders (proofs).
use eve_station_trader.Prelude.{
  ℕ, ◌+◌, ◌≡◌, refl, sym, ap, ◌∙◌, Bool, false, Option, none, some, List, [], ◌∷◌, ◌++◌, map,
  length, String, or_else, All, arith, count_where,
}
use eve_station_trader.Prelude.Ids.{IsUnique}
use eve_station_trader.Ingest.Rows.{
  Fetched, OrderRecord, EsiMarketOrder, Places, Result, done, raise, ◌>>=◌, >>=-eq-done, eq_of_done,
  IngestionResult, find_order,
}
use eve_station_trader.Ingest.Batches.{
  OrderBatch, StationRow, StageRow, collect_rows, collect_batches, collect_unique_station_rows,
  ensure_rows, ensure_station_locations_for_batches,
}
use eve_station_trader.Ingest.Copies.{
  IngestTables, stage_row, staged_rows, stage_batches, with_batch, joined, order_staged,
  distinct_on, materialize_valid_stage, kept_orders, insert_valid, replace_orders, total_records,
  ingest_batches_via_postgres_copy,
}
use eve_station_trader.Ingest.Newest.{newest, find_order-materialize_valid_stage}
use eve_station_trader.Ingest.Replaced.{
  or_row, outside, find_order-insert_valid, find_order-kept_orders,
}

module _ {F : Type 0} (parse_time : String → Option ℕ) where
  -- The staged_rows rows of one batch, and of all, with the times as they are read.
  abbrev pub rows_of : ℕ → ℕ → List (OrderRecord F) → List (StageRow F)
  rows_of region_id eve_region_id [] = []
  rows_of region_id eve_region_id (r ∷ rs) =
      record {
        region_id = region_id;
        eve_region_id = eve_region_id;
        order = r;
        issued = or_else (parse_time r.issued) 0;
      }
      ∷ rows_of region_id eve_region_id rs

  abbrev pub stage_of : List (OrderBatch F) → List (StageRow F)
  stage_of [] = []
  stage_of (b ∷ bs) = rows_of b.region_id b.eve_region_id b.records ++ stage_of bs

  staged-eq-done :
      (region_id eve_region_id : ℕ) (rs : List (OrderRecord F)) (rows : List (StageRow F))
      → staged_rows region_id eve_region_id parse_time rs ≡ done rows
      → rows ≡ rows_of region_id eve_region_id rs
  unfolding staged_rows
  staged-eq-done region_id eve_region_id [] rows h = sym (eq_of_done h)
  staged-eq-done region_id eve_region_id (r ∷ rs) rows h =
      read (parse_time r.issued) (staged_rows region_id eve_region_id parse_time rs) h
        (staged-eq-done region_id eve_region_id rs)
    where
      read :
          (t : Option ℕ) (m : Result (List (StageRow F)))
          → stage_row region_id eve_region_id r t m ≡ done rows
          → ((rest : List (StageRow F)) → m ≡ done rest → rest ≡ rows_of region_id eve_region_id rs)
          → rows
            ≡ record {
              region_id = region_id;
              eve_region_id = eve_region_id;
              order = r;
              issued = or_else t 0;
            }
              ∷ rows_of region_id eve_region_id rs
      read none m e ih = cc
      read (some t) (raise x) e ih = cc
      read (some t) (done rest) e ih = rw (← ih rest refl) (sym (eq_of_done e))

  stage_batches-eq-done :
      (total before : ℕ) (bs : List (OrderBatch F)) (rows : List (StageRow F))
      (reports : List (ℕ × ℕ))
      → stage_batches total before parse_time bs ≡ done (rows, reports)
      → rows ≡ stage_of bs
  unfolding stage_batches with_batch
  stage_batches-eq-done total before [] rows reports h =
      sym (ap (λ (p : List (StageRow F) × List (ℕ × ℕ)). p.0) (eq_of_done h))
  stage_batches-eq-done total before (b ∷ bs) rows reports h =
      both (staged_rows b.region_id b.eve_region_id parse_time b.records)
        (stage_batches total (before + length b.records) parse_time bs) h
        (staged-eq-done b.region_id b.eve_region_id b.records)
        (stage_batches-eq-done total (before + length b.records) bs)
    where
      both :
          (m : Result (List (StageRow F))) (n : Result (List (StageRow F) × List (ℕ × ℕ)))
          → (m >>= λ mine.
              n >>= λ rest. done (with_batch (before + length b.records) total mine rest))
            ≡ done (rows, reports)
          → ((mine : List (StageRow F))
              → m ≡ done mine
              → mine ≡ rows_of b.region_id b.eve_region_id b.records)
          → ((rest : List (StageRow F)) (others : List (ℕ × ℕ))
              → n ≡ done (rest, others)
              → rest ≡ stage_of bs)
          → rows ≡ rows_of b.region_id b.eve_region_id b.records ++ stage_of bs
      both (raise e) n k f g = cc
      both (done mine) (raise e) k f g = cc
      both (done mine) (done (rest, others)) k f g =
          rw (← f mine refl, ← g rest others refl)
            (sym (ap (λ (p : List (StageRow F) × List (ℕ × ℕ)). p.0) (eq_of_done k)))

  -- The statements on the rows that are staged_rows.
  replace_orders-book :
      (utcnow : ℕ) (targets : List ℕ) (batches : List (OrderBatch F)) (stations_created : ℕ)
      (places : Places) (stage : List (StageRow F)) (t : IngestTables F) (result : IngestionResult)
      (after : IngestTables F)
      → IsUnique (λ (o : EsiMarketOrder F). o.order_id) t.orders
      → replace_orders utcnow targets batches stations_created places stage t ≡ done (result, after)
      → (after.places ≡ places)
        × ((k : ℕ)
            → find_order k after.orders
              ≡ or_row (newest k (joined utcnow places stage)) (
                  outside
                    (map (λ (b : OrderBatch F). b.region_id) batches)
                    (find_order k t.orders)))
  unfolding replace_orders
  replace_orders-book utcnow targets batches stations_created places stage t result after u h =
      let region_ids = map (λ (b : OrderBatch F). b.region_id) batches in
      let valid = materialize_valid_stage utcnow places stage in
      let (orders, e, f) = >>=-eq-done (insert_valid valid (kept_orders region_ids t.orders)) _ h in
      let p = ap (λ (p : IngestionResult × IngestTables F). p.1.places) (eq_of_done f) in
      let o = ap (λ (p : IngestionResult × IngestTables F). p.1.orders) (eq_of_done f) in
      (
        sym p,
        λ k.
            ap (find_order k) (sym o)
            ∙ find_order-insert_valid k valid (kept_orders region_ids t.orders) orders e
            ∙ rw
                (
                  find_order-materialize_valid_stage k utcnow places stage,
                  find_order-kept_orders k region_ids t.orders u,
                )
                refl,
      )

-- When an ingestion of batches by COPY returns, with unique order ids before: the table has for each
-- id the newest row, by issue time, region and location, among the records whose item and location
-- are known at the end; without such a record it has the old row, unless that is of a region of the
-- batches.
pub ingest_batches_via_postgres_copy-book :
    {F : Type 0} (universe : ℕ → Fetched) (cancelled : ℕ → Bool) (parse_time : String → Option ℕ)
    (utcnow : ℕ) (targets : List ℕ) (batches : List (OrderBatch F)) (t : IngestTables F)
    (result : IngestionResult) (after : IngestTables F)
    → IsUnique (λ (o : EsiMarketOrder F). o.order_id) t.orders
    → ingest_batches_via_postgres_copy universe cancelled parse_time utcnow targets batches t
      ≡ done (result, after)
    → (k : ℕ)
    → find_order k after.orders
      ≡ or_row
          (newest k (joined utcnow after.places (stage_of parse_time batches)))
          (outside (map (λ (b : OrderBatch F). b.region_id) batches) (find_order k t.orders))
unfolding ingest_batches_via_postgres_copy
ingest_batches_via_postgres_copy-book {F} universe cancelled parse_time utcnow targets batches t
      result after u h k =
    let ((created, places), e, f) =
      >>=-eq-done
        (ensure_station_locations_for_batches universe cancelled
          (collect_unique_station_rows batches) t.places)
        _ h in
    let ((stage, reports), g, i) =
      >>=-eq-done (stage_batches (total_records batches) 0 parse_time batches) _ f in
    let s = stage_batches-eq-done parse_time (total_records batches) 0 batches stage reports g in
    let (p, q) =
      replace_orders-book parse_time utcnow targets batches created places stage t result after u
        i in
    rw (p, ← s) (q k)

module _ {F : Type 0} where
  append-nil : (xs : List (EsiMarketOrder F)) → xs ++ [] ≡ xs
  append-nil [] = refl
  append-nil (x ∷ xs) = ap (λ ys. x ∷ ys) (append-nil xs)

  collect-none :
      (bs : List (OrderBatch F)) (rows : List StationRow)
      → All (λ (b : OrderBatch F). b.records ≡ []) bs
      → collect_batches bs rows ≡ rows
  unfolding collect_batches collect_rows
  collect-none [] rows h = refl
  collect-none (b ∷ bs) rows h = rw h.0 (collect-none bs rows h.1)

  stage-none :
      (total before : ℕ) (parse_time : String → Option ℕ) (bs : List (OrderBatch F))
      → All (λ (b : OrderBatch F). b.records ≡ []) bs
      → (reports : List (ℕ × ℕ)) × (stage_batches total before parse_time bs ≡ done ([], reports))
  unfolding stage_batches staged_rows with_batch
  stage-none total before parse_time [] h = ([], refl)
  stage-none total before parse_time (b ∷ bs) h =
      let (reports, e) = stage-none total (before + 0) parse_time bs h.1 in rw (h.0, e) (_, refl)

  count-none : (rows : List (EsiMarketOrder F)) → count_where (λ _. false) rows ≡ 0
  count-none [] = refl
  count-none (x ∷ rows) = omega (arith, count-none rows)

  -- Batches that hold no record: the ingestion by COPY returns, and all orders of their regions are
  -- gone, but it says that none was deleted.
  pub ingest_batches_via_postgres_copy-uncounted :
      (universe : ℕ → Fetched) (cancelled : ℕ → Bool) (parse_time : String → Option ℕ) (utcnow : ℕ)
      (targets : List ℕ) (batches : List (OrderBatch F)) (t : IngestTables F)
      → All (λ (b : OrderBatch F). b.records ≡ []) batches
      → (result : IngestionResult) × (after : IngestTables F) × (ingest_batches_via_postgres_copy
            universe cancelled parse_time utcnow targets batches t
          ≡ done (result, after))
        × (after.orders ≡ kept_orders (map (λ (b : OrderBatch F). b.region_id) batches) t.orders)
        × (result.deleted ≡ 0)
  unfolding ingest_batches_via_postgres_copy collect_unique_station_rows
      ensure_station_locations_for_batches ensure_rows replace_orders materialize_valid_stage joined
      order_staged distinct_on insert_valid
  ingest_batches_via_postgres_copy-uncounted universe cancelled parse_time utcnow targets batches t
        h =
      let (reports, e) = stage-none (total_records batches) 0 parse_time batches h in
      rw (collect-none batches [] h, e)
        (
          _,
          _,
          refl,
          append-nil (kept_orders (map (λ (b : OrderBatch F). b.region_id) batches) t.orders),
          count-none t.orders,
        )
