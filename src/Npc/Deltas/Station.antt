-- ===== src/Npc/Deltas/Station.antt =====
-- What `_process_station` and `compute_and_persist_deltas` of npc_stations/deltas.py leave in the
-- tables.
use eve_station_trader.Prelude.{
  ℕ, ◌+◌, ◌≡◌, refl, sym, ap, ap₂, ◌∙◌, List, [], ◌∷◌, ◌++◌, arith, All, ◌==◌, select, length,
  length-append,
}
use mathlib.Core.List.{append-nil, append_assoc}
use eve_station_trader.Npc.Rows.{MarketOrder, StagedOrder, OrderDelta, prev_key, new_key}
use eve_station_trader.Npc.Deltas.{
  Tables, order_by, persist_rows, diff_station, prev_rows, new_rows, merge_diff, process_station,
  process_stations, compute_and_persist_deltas,
}
use eve_station_trader.Npc.Deltas.Keys.{IsUnique}
use eve_station_trader.Npc.Deltas.Sorting.{order_by-IsSorted, find_first-order_by}
use eve_station_trader.Npc.Deltas.Merge.{lookup_diff, merge_diff-eq-lookup_diff}

module _ {P : Type 0} where
  abbrev pub at_prev : ℕ → Tables P → List (MarketOrder P)
  at_prev loc t = select (λ r. r.location_id == loc) t.orders

  abbrev pub at_new : ℕ → Tables P → List (StagedOrder P)
  at_new loc t = select (λ r. r.location_id == loc) t.stage

  -- The unique index on order_id, as far as one location goes.
  pub record IsIndexed (loc : ℕ) (t : Tables P) : Type 0 where
    pub prev : IsUnique prev_key (at_prev loc t)
    pub new : IsUnique new_key (at_new loc t)

  -- The deltas of one location, described without sorting and merging: each previous order, in the
  -- order of its key, is looked up by key in the staged rows.
  unfoldable pub station_rows : ℕ → ℕ → Tables P → List (OrderDelta P)
  station_rows time loc t = lookup_diff loc time (prev_rows loc t) (at_new loc t)

  lookup_diff-order_by :
      (loc time : ℕ) (ps : List (MarketOrder P)) (ns : List (StagedOrder P))
      → IsUnique new_key ns
      → lookup_diff loc time ps (order_by new_key ns) ≡ lookup_diff loc time ps ns
  unfolding lookup_diff
  lookup_diff-order_by loc time [] ns u = refl
  lookup_diff-order_by loc time (p ∷ ps) ns u =
      rw (find_first-order_by new_key (prev_key p) ns u, lookup_diff-order_by loc time ps ns u)

  merge-station :
      (time loc : ℕ) (t : Tables P)
      → IsIndexed loc t
      → merge_diff loc time (prev_rows loc t) (new_rows loc t) ≡ station_rows time loc t
  unfolding station_rows
  merge-station time loc t i =
      merge_diff-eq-lookup_diff loc time (prev_rows loc t) (new_rows loc t)
        (order_by-IsSorted prev_key (at_prev loc t) i.prev)
        (order_by-IsSorted new_key (at_new loc t) i.new)
      ∙ lookup_diff-order_by loc time (prev_rows loc t) (at_new loc t) i.new

  persist_rows-append :
      (rows : List (OrderDelta P)) (t : Tables P)
      → persist_rows rows t ≡ (length rows, record t { deltas = t.deltas ++ rows })
  unfolding persist_rows
  persist_rows-append [] t = ap (λ d. (0, record t { deltas = d })) (sym (append-nil t.deltas))
  persist_rows-append (d ∷ ds) t = refl

  diff_station-append :
      (loc time : ℕ) (ps : List (MarketOrder P)) (ns : List (StagedOrder P)) (t : Tables P)
      → diff_station loc time ps ns t ≡ persist_rows (merge_diff loc time ps ns) t
  unfolding diff_station
  diff_station-append loc time [] ns t = refl
  diff_station-append loc time (p ∷ ps) ns t = refl

  -- With the unique index on order_id, processing one station appends to the delta table, for each
  -- of its previous orders in the order of (type_id, order_id), the row that looking the order up
  -- in the staged rows gives, returns how many rows these are, and leaves the order tables alone.
  pub process_station-rows :
      (time loc : ℕ) (t : Tables P)
      → IsIndexed loc t
      → process_station time loc t ≡ (
        length (station_rows time loc t),
        record t { deltas = t.deltas ++ station_rows time loc t },
      )
  unfolding process_station
  process_station-rows time loc t i =
      diff_station-append loc time (prev_rows loc t) (new_rows loc t) t
      ∙ ap (λ rows. persist_rows rows t) (merge-station time loc t i)
      ∙ persist_rows-append (station_rows time loc t) t

  -- The rows of several stations, one after the other.
  unfoldable pub stations_rows : ℕ → List ℕ → Tables P → List (OrderDelta P)
  stations_rows time [] t = []
  stations_rows time (loc ∷ locs) t = station_rows time loc t ++ stations_rows time locs t

  -- A station's rows do not depend on the delta table.
  stations_rows-deltas :
      (time : ℕ) (locs : List ℕ) (t : Tables P) (d : List (OrderDelta P))
      → stations_rows time locs (record t { deltas = d }) ≡ stations_rows time locs t
  unfolding stations_rows station_rows
  stations_rows-deltas time [] t d = refl
  stations_rows-deltas time (loc ∷ locs) t d =
      ap (λ rows. station_rows time loc t ++ rows) (stations_rows-deltas time locs t d)

  All-IsIndexed-deltas :
      (locs : List ℕ) (t : Tables P) (d : List (OrderDelta P))
      → All (λ loc. IsIndexed loc t) locs
      → All (λ loc. IsIndexed loc (record t { deltas = d })) locs
  All-IsIndexed-deltas [] t d h = tt
  All-IsIndexed-deltas (loc ∷ locs) t d h =
      (record { prev = h.0.prev; new = h.0.new }, All-IsIndexed-deltas locs t d h.1)

  process_stations-rows :
      (time : ℕ) (locs : List ℕ) (total : ℕ) (t : Tables P)
      → All (λ loc. IsIndexed loc t) locs
      → process_stations time locs total t ≡ (
        total + length (stations_rows time locs t),
        record t { deltas = t.deltas ++ stations_rows time locs t },
      )
  unfolding process_stations stations_rows
  process_stations-rows time [] total t h =
      ap₂ (λ n d. (n, record t { deltas = d })) (omega arith) (sym (append-nil t.deltas))
  process_stations-rows time (loc ∷ locs) total t h =
      let rows = station_rows time loc t in
      let later = stations_rows time locs t in
      rw (process_station-rows time loc t h.0) (
        process_stations-rows time locs (total + length rows)
          (record t { deltas = t.deltas ++ rows }) (All-IsIndexed-deltas locs t _ h.1)
        ∙ rw (stations_rows-deltas time locs t (t.deltas ++ rows)) (
            ap₂ (λ n d. (n, record t { deltas = d })) (omega (arith, length-append rows later))
              (append_assoc t.deltas rows later)))

  -- With the unique index on order_id at each target location, one call appends to the delta table
  -- the rows of the targets, target after target, leaves the order tables alone, and reports as
  -- delta_count how many rows it appended and as stations_processed how many targets it was given.
  pub compute_and_persist_deltas-rows :
      (locs : List ℕ) (time : ℕ) (t : Tables P)
      → All (λ loc. IsIndexed loc t) locs
      → compute_and_persist_deltas locs time t ≡ (
        record {
          delta_count = length (stations_rows time locs t);
          stations_processed = length locs;
        },
        record t { deltas = t.deltas ++ stations_rows time locs t },
      )
  unfolding compute_and_persist_deltas stations_rows
  compute_and_persist_deltas-rows [] time t h =
      ap (λ d. (record { delta_count = 0; stations_processed = 0 }, record t { deltas = d }))
        (sym (append-nil t.deltas))
  compute_and_persist_deltas-rows (loc ∷ locs) time t h =
      rw (process_stations-rows time (loc ∷ locs) 0 t h) (
        ap
          (λ n. (
            record { delta_count = n; stations_processed = length (loc ∷ locs) },
            record t { deltas = t.deltas ++ stations_rows time (loc ∷ locs) t },
          ))
          (omega arith))
