-- ===== src/Ingest/Replay.antt =====
-- The loop of `_ingest_via_orm` as a replay of changes to the book, one record after the other
-- (proofs).
use eve_station_trader.Prelude.{
  ℕ, ◌+◌, ◌==◌, ◌≡◌, refl, ap, ◌∙◌, Bool, true, ◌||◌, Option, none, some, arith, any_row, length,
  if◌then◌else◌, inl, inr, Bool-cases, String,
}
use eve_station_trader.Prelude.Ids.{IsUnique}
use eve_station_trader.Ingest.Rows.{
  Location, Item, Fetched, OrderRecord, EsiMarketOrder, Places, Result, done, raise, ◌>>=◌,
  find_location, find_item, find_order, add_id,
}
use eve_station_trader.Ingest.Stations.{ensure_station_location}
use eve_station_trader.Ingest.Regions.{
  Run, order_row, report, at_time, at_location, at_item, ingest_record,
}
use eve_station_trader.Ingest.Places.{
  IsHonest, Grows, Grows-self, IsEnsured, Ensures, ensure_station_location-IsEnsured,
}
use eve_station_trader.Ingest.Book.{
  content, change, names, content_at, among-add_id, content_at-stored_order, stored_order-IsUnique,
  outcomes, stored_order-IsCounted,
}

module _ {F : Type 0} (parse_time : String → Option ℕ) where
  unfoldable pub row_with :
      ℕ → OrderRecord F → Option Item → Option Location → Option ℕ → Option (EsiMarketOrder F)
  unfolding order_row
  row_with region_id r none l t = none
  row_with region_id r (some item) none t = none
  row_with region_id r (some item) (some l) none = none
  row_with region_id r (some item) (some l) (some t) = some (order_row 0 region_id item l t r)

  -- The row that a record stands for: its item and its location are in the tables.
  unfoldable pub row_of : ℕ → Places → OrderRecord F → Option (EsiMarketOrder F)
  unfolding row_with
  row_of region_id places r =
      row_with region_id r (find_item r.type_id places) (find_location r.location_id places)
        (parse_time r.issued)

module _ {F : Type 0} (universe : ℕ → Fetched) (cancelled : ℕ → Bool)
    (parse_time : String → Option ℕ) (unchanged : EsiMarketOrder F → EsiMarketOrder F → Bool)
    (utcnow : ℕ) where
  -- From `run` to `run'`, a record that stands for `row` once the tables are as in `run'` or later.
  pub record IsIngested (region_id : ℕ) (r : OrderRecord F) (run : Run F)
      (row : Option (EsiMarketOrder F)) (run' : Run F) : Type 0 where
    pub grows : Grows universe run.places run'.places
    pub stands : (q : Places) → Grows universe run'.places q → row_of parse_time region_id q r ≡ row
    pub book : (k : ℕ) → content_at k run'.orders ≡ change k row (content_at k run.orders)
    pub seen :
        (k : ℕ)
        → any_row (λ y. y == k) run'.seen_order_ids
          ≡ names k row || any_row (λ y. y == k) run.seen_order_ids
    pub unique : IsUnique (λ o. o.order_id) run.orders → IsUnique (λ o. o.order_id) run'.orders
    pub rows : length run'.orders + run.created ≡ length run.orders + run'.created
    pub counted : outcomes run' ≡ outcomes run + 1
    pub processed : run'.processed_records ≡ run.processed_records + 1
    pub stations :
        run'.stations_created + length run.places.locations
        ≡ run.stations_created + length run'.places.locations

  abbrev pub Ingests : ℕ → OrderRecord F → Run F → Result (Run F) → Type 0
  Ingests region_id r run (done run') =
      (row : Option (EsiMarketOrder F)) × IsIngested region_id r run row run'
  Ingests region_id r run (raise e) = Unit

  module _ (same : (a b : EsiMarketOrder F) → unchanged a b ≡ true → content a ≡ content b)
      (total region_id : ℕ) (r : OrderRecord F) (run : Run F) where
    -- What the round sees of the run once it has counted the record.
    abbrev counting : Run F
    counting = record run { processed_records = run.processed_records + 1 }

    stored-Ingests :
        (item : Item) (l : Location) (created : Bool) (places : Places)
        → find_item r.type_id run.places ≡ some item
        → IsEnsured universe r.location_id run.places (some l) created places
        → (t : Option ℕ) → parse_time r.issued ≡ t
        → Ingests region_id r run (
            at_time universe cancelled parse_time unchanged utcnow total region_id r item l t
              (record counting {
                places = places;
                stations_created = run.stations_created + (if created then 1 else 0);
                seen_order_ids = add_id r.order_id run.seen_order_ids;
              }))
    unfolding at_time report row_of order_row
    stored-Ingests item l created places i e none p = tt
    stored-Ingests item l created places i e (some t) p =
        let row : EsiMarketOrder F = order_row utcnow region_id item l t r in
        let run' : Run F = record counting {
          places = places;
          stations_created = run.stations_created + (if created then 1 else 0);
          seen_order_ids = add_id r.order_id run.seen_order_ids;
        } in
        let o = find_order r.order_id run.orders in
        let s = stored_order-IsCounted unchanged row run' o in
        (
          some (content row),
          record {
            grows = rw s.places e.grows;
            stands = λ q g. stand q (rw s.places at g);
            book = λ k. content_at-stored_order unchanged same k row run' o refl;
            seen = λ k. rw s.seen (among-add_id k r.order_id run.seen_order_ids);
            unique = λ u. stored_order-IsUnique unchanged same row run' o refl u;
            rows = s.rows;
            counted = omega (arith, s.outcome);
            processed = s.processed;
            stations = rw (s.places, s.stations) (omega (arith, e.counted));
          },
        )
      where
        stand :
            (q : Places)
            → Grows universe places q
            → row_of parse_time region_id q r
              ≡ some (content (order_row utcnow region_id item l t r))
        stand q g = rw (g.items, e.grows.items, i, g.keeps r.location_id l e.located, p) refl

    -- A record that is passed over, for its item or for its location.
    no_item-Ingests :
        find_item r.type_id run.places ≡ none
        → Ingests region_id r run (
            done (
              report total
                (record counting { skipped_missing_items = run.skipped_missing_items + 1 })))
    unfolding report row_of
    no_item-Ingests i = (
      none,
      record {
        grows = Grows-self universe run.places;
        stands = λ q g. rw (g.items, i) refl;
        book = λ k. refl;
        seen = λ k. refl;
        unique = λ u. u;
        rows = refl;
        counted = omega arith;
        processed = refl;
        stations = refl;
      },
    )

    no_location-Ingests :
        (item : Item) (created : Bool) (places : Places)
        → find_item r.type_id run.places ≡ some item
        → IsEnsured universe r.location_id run.places none created places
        → Ingests region_id r run (
            done (
              report total (record counting {
                places = places;
                skipped_non_npc_locations = run.skipped_non_npc_locations + 1;
              })))
    unfolding report row_of
    no_location-Ingests item created places i e = (
      none,
      record {
        grows = e.grows;
        stands = λ q g.
            rw (g.items, e.grows.items, i, g.absent r.location_id (e.refused refl).0 e.located)
              refl;
        book = λ k. refl;
        seen = λ k. refl;
        unique = λ u. u;
        rows = refl;
        counted = omega arith;
        processed = refl;
        stations = omega (
          arith,
          e.counted
              ∙ ap (λ (b : Bool). length run.places.locations + (if b then 1 else 0))
                  (e.refused refl).1,
        );
      },
    )

    at_location-Ingests :
        (item : Item) (o : Option Location) (created : Bool) (places : Places)
        → find_item r.type_id run.places ≡ some item
        → IsEnsured universe r.location_id run.places o created places
        → Ingests region_id r run (
            at_location universe cancelled parse_time unchanged utcnow total region_id r item
              counting
              (o, created, places))
    unfolding at_location
    at_location-Ingests item none created places i e = no_location-Ingests item created places i e
    at_location-Ingests item (some l) created places i e =
        stored-Ingests item l created places i e (parse_time r.issued) refl

    ensured-Ingests :
        (item : Item) (m : Result (Option Location × Bool × Places))
        → find_item r.type_id run.places ≡ some item
        → Ensures universe r.location_id run.places m
        → Ingests region_id r run (
            m
            >>= at_location universe cancelled parse_time unchanged utcnow total region_id r item
                counting)
    ensured-Ingests item (raise x) i e = tt
    ensured-Ingests item (done (o, created, places)) i e =
        at_location-Ingests item o created places i e

    at_item-Ingests :
        IsHonest universe
        → (eve_region_id : ℕ) (o : Option Item) → find_item r.type_id run.places ≡ o
        → Ingests region_id r run (
            at_item universe cancelled parse_time unchanged utcnow total eve_region_id region_id r o
              counting)
    unfolding at_item
    at_item-Ingests honest eve_region_id none i = no_item-Ingests i
    at_item-Ingests honest eve_region_id (some item) i =
        ensured-Ingests item
          (ensure_station_location universe eve_region_id r.location_id r.system_id run.places) i
          (ensure_station_location-IsEnsured universe eve_region_id r.location_id r.system_id
            run.places honest)

    -- A round of the loop that returns is one change of the book.
    pub ingest_record-Ingests :
        IsHonest universe
        → (eve_region_id : ℕ)
        → Ingests region_id r run (
            ingest_record universe cancelled parse_time unchanged utcnow total eve_region_id
              region_id r run)
    unfolding ingest_record
    ingest_record-Ingests honest eve_region_id =
        elim (Bool-cases (cancelled run.processed_records)) [
          | inl c ↦ rw c tt
          | inr c ↦
              rw c (at_item-Ingests honest eve_region_id (find_item r.type_id run.places) refl)
        ]
