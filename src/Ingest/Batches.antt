-- ===== src/Ingest/Batches.antt =====
-- `ingest_order_batches`, `ingest_region_orders` and `_ingest_batches_via_postgres_copy` of
-- backend/app/services/esi/orders_ingestion.py: the orders of several regions at once, through a
-- staging table. A statement on its rows is a function on lists; the order of a table is immaterial.
use Prim.Native.String.{◌++◌ as concat}
use eve_station_trader.Prelude.{
  among, ℕ, ◌+◌, ◌==◌, leb, Bool, Option, none, some, List, [], ◌∷◌, ◌++◌, map, any_row, select,
  if◌then◌else◌,
}
use eve_station_trader.Prelude.Texts.{decimal}
use eve_station_trader.Ingest.Rows.{
  System, Location, structure, Fetched, OrderRecord, Places, Result, done, raise, ◌>>=◌,
  job_cancelled_error, find_system, find_location,
}
use eve_station_trader.Ingest.Stations.{first_structure, ensure_station_location}

-- EsiRegionOrderBatch
pub record OrderBatch (F : Type 0) : Type 0 where
  pub region_id : ℕ
  pub eve_region_id : ℕ
  pub records : List (OrderRecord F)

-- (eve_region_id, location_id, system_id)
pub record StationRow : Type 0 where
  pub eve_region_id : ℕ
  pub station_id : ℕ
  pub system_id : ℕ

-- A row of esi_market_orders_stage; the key of the region stands beside the order's record, as its time does.
pub record StageRow (F : Type 0) : Type 0 where
  pub region_id : ℕ
  pub eve_region_id : ℕ
  pub order : OrderRecord F
  pub issued : ℕ

unfoldable pub new_structure : ℕ → System → Places → Location
new_structure structure_id system p = record {
  id = p.next_location;
  location_id = structure_id;
  location_type = structure;
  system_id = system.id;
  region_id = system.region_id;
  name = concat "Structure " (decimal structure_id);
}

-- The system that `_ensure_structure_location` finds, if any.
unfoldable pub structure_in : ℕ → Option System → Places → Option Location × Places
unfolding new_structure
structure_in structure_id none p = (none, p)
structure_in structure_id (some system) p =
    let location = new_structure structure_id system p in
    (
      some location,
      record p { locations = p.locations ++ location ∷ []; next_location = p.next_location + 1 },
    )

unfoldable pub known_or_new : ℕ → ℕ → Option Location → Places → Option Location × Places
unfolding structure_in
known_or_new structure_id system_id (some l) p = (some l, p)
known_or_new structure_id system_id none p = structure_in structure_id (find_system system_id p) p

unfoldable pub ensure_structure_location : ℕ → ℕ → Places → Option Location × Places
unfolding known_or_new
ensure_structure_location structure_id system_id p =
    known_or_new structure_id system_id (find_location structure_id p) p

module _ {F : Type 0} where
  -- The inner loop over the records of one batch; `rows` is the dict, in the order of its keys.
  unfoldable pub collect_rows : ℕ → List (OrderRecord F) → List StationRow → List StationRow
  collect_rows eve_region_id [] rows = rows
  collect_rows eve_region_id (r ∷ rs) rows = collect_rows eve_region_id rs (
      if any_row (λ (s : StationRow). s.station_id == r.location_id) rows
      then rows
      else rows
        ++ record {
          eve_region_id = eve_region_id;
          station_id = r.location_id;
          system_id = r.system_id;
        }
          ∷ [])

  unfoldable pub collect_batches : List (OrderBatch F) → List StationRow → List StationRow
  unfolding collect_rows
  collect_batches [] rows = rows
  collect_batches (b ∷ bs) rows = collect_batches bs (collect_rows b.eve_region_id b.records rows)

  unfoldable pub collect_unique_station_rows : List (OrderBatch F) → List StationRow
  unfolding collect_batches
  collect_unique_station_rows bs = collect_batches bs []

-- The loop of `_ensure_station_locations_for_batches`: `known` are the keys of existing_locations,
-- `cancelled n` says whether the check before the row after `n` others raises.
module _ (universe : ℕ → Fetched) (cancelled : ℕ → Bool) where
  abbrev pub with_location_key : ℕ → Option Location → List ℕ → List ℕ
  with_location_key station_id none known = known
  with_location_key station_id (some l) known = station_id ∷ known

  -- One row: the new dict and tables, and the stations that it adds.
  unfoldable pub ensure_row : StationRow → List ℕ → Places → Result (ℕ × List ℕ × Places)
  unfolding ensure_structure_location ensure_station_location
  ensure_row row known p =
      if among row.station_id known
      then done (0, known, p)
      else if leb first_structure row.station_id
      then (let (location, p') = ensure_structure_location row.station_id row.system_id p in
          done (0, with_location_key row.station_id location known, p'))
      else (ensure_station_location universe row.eve_region_id row.station_id row.system_id p
          >>= λ s. done (if s.1 then 1 else 0, with_location_key row.station_id s.0 known, s.2))

  unfoldable pub ensure_rows : ℕ → List StationRow → ℕ → List ℕ → Places → Result (ℕ × Places)
  unfolding ensure_row
  ensure_rows n [] created known p = done (created, p)
  ensure_rows n (row ∷ rows) created known p =
      if cancelled n
      then raise job_cancelled_error
      else (ensure_row row known p >>= λ s. ensure_rows (n + 1) rows (created + s.0) s.1 s.2)

  unfoldable pub ensure_station_locations_for_batches :
      List StationRow → Places → Result (ℕ × Places)
  unfolding ensure_rows
  ensure_station_locations_for_batches rows p =
      ensure_rows 0 rows 0
        (select (λ n. any_row (λ (s : StationRow). s.station_id == n) rows)
          (map (λ (l : Location). l.location_id) p.locations))
        p
