-- ===== src/Ingest/Refine.antt =====
-- `_ingest_via_orm` refines a change of the book as a function from ids to rows (proofs).
use eve_station_trader.Prelude.{
  ℕ, ◌+◌, ◌==◌, ◌≡◌, refl, sym, ap, ◌∙◌, Bool, true, false, ◌||◌, Option, none, some, List, [], ◌∷◌,
  arith, any_row, length, inl, inr, Bool-cases, String,
}
use eve_station_trader.Prelude.Ids.{IsUnique}
use eve_station_trader.Ingest.Rows.{
  Fetched, OrderRecord, EsiMarketOrder, Places, Result, done, raise, ◌>>=◌,
}
use eve_station_trader.Ingest.Regions.{Run, ingest_record, ingest_records}
use eve_station_trader.Ingest.Places.{IsHonest, Grows, Grows-self, Grows-trans}
use eve_station_trader.Ingest.Book.{content, change, names, content_at, outcomes}
use eve_station_trader.Ingest.Replay.{row_of, IsIngested, Ingests, ingest_record-Ingests}

module _ {F : Type 0} (parse_time : String → Option ℕ) where
  -- The abstract book at `k` after the records, each one a change, by the tables of `places`.
  unfoldable pub replay :
      ℕ → Places → ℕ → List (OrderRecord F) → Option (EsiMarketOrder F) → Option (EsiMarketOrder F)
  replay region_id places k [] d = d
  replay region_id places k (r ∷ rs) d =
      replay region_id places k rs (change k (row_of parse_time region_id places r) d)

  -- Some record stands for a row with the id `k`.
  unfoldable pub sees : ℕ → Places → ℕ → List (OrderRecord F) → Bool
  sees region_id places k [] = false
  sees region_id places k (r ∷ rs) =
      names k (row_of parse_time region_id places r) || sees region_id places k rs

  change_seen :
      (k : ℕ) (o d e : Option (EsiMarketOrder F)) → names k o ≡ true → change k o d ≡ change k o e
  change_seen k none d e h = cc
  change_seen k (some row) d e h = rw h refl

  change_unseen : (k : ℕ) (o d : Option (EsiMarketOrder F)) → names k o ≡ false → change k o d ≡ d
  change_unseen k none d h = refl
  change_unseen k (some row) d h = rw h refl

  pub replay_seen :
      (region_id : ℕ) (places : Places) (k : ℕ) (rs : List (OrderRecord F))
      (d e : Option (EsiMarketOrder F))
      → sees region_id places k rs ≡ true
      → replay region_id places k rs d ≡ replay region_id places k rs e
  unfolding replay sees
  replay_seen region_id places k [] d e h = cc
  replay_seen region_id places k (r ∷ rs) d e h =
      let o = row_of parse_time region_id places r in
      elim (Bool-cases (names k o)) [
        | inl m ↦ ap (replay region_id places k rs) (change_seen k o d e m)
        | inr m ↦ replay_seen region_id places k rs (change k o d) (change k o e) (rw m at h)
      ]

  pub replay_unseen :
      (region_id : ℕ) (places : Places) (k : ℕ) (rs : List (OrderRecord F))
      (d : Option (EsiMarketOrder F))
      → sees region_id places k rs ≡ false
      → replay region_id places k rs d ≡ d
  unfolding replay sees
  replay_unseen region_id places k [] d h = refl
  replay_unseen region_id places k (r ∷ rs) d h =
      let o = row_of parse_time region_id places r in
      replay_unseen region_id places k rs (change k o d) (ground arith)
      ∙ change_unseen k o d (ground arith)

or_swap : (a b c : Bool) → b || (a || c) ≡ (a || b) || c
or_swap true true c = refl
or_swap true false c = refl
or_swap false true c = refl
or_swap false false c = refl

module _ {F : Type 0} (universe : ℕ → Fetched) (cancelled : ℕ → Bool)
    (parse_time : String → Option ℕ) (unchanged : EsiMarketOrder F → EsiMarketOrder F → Bool)
    (utcnow : ℕ) (region_id : ℕ) where
  -- From `run` to `run'`, all of the records.
  pub record IsReplayed (rs : List (OrderRecord F)) (run run' : Run F) : Type 0 where
    pub grows : Grows universe run.places run'.places
    pub book :
        (q : Places) (k : ℕ)
        → Grows universe run'.places q
        → content_at k run'.orders ≡ replay parse_time region_id q k rs (content_at k run.orders)
    pub seen :
        (q : Places) (k : ℕ)
        → Grows universe run'.places q
        → any_row (λ y. y == k) run'.seen_order_ids
          ≡ sees parse_time region_id q k rs || any_row (λ y. y == k) run.seen_order_ids
    pub unique : IsUnique (λ o. o.order_id) run.orders → IsUnique (λ o. o.order_id) run'.orders
    pub rows : length run'.orders + run.created ≡ length run.orders + run'.created
    pub counted : outcomes run' ≡ outcomes run + length rs
    pub processed : run'.processed_records ≡ run.processed_records + length rs
    pub stations :
        run'.stations_created + length run.places.locations
        ≡ run.stations_created + length run'.places.locations

  abbrev pub Replays : List (OrderRecord F) → Run F → Result (Run F) → Type 0
  Replays rs run (done run') = IsReplayed rs run run'
  Replays rs run (raise e) = Unit

  nothing-IsReplayed : (run : Run F) → IsReplayed [] run run
  unfolding replay sees
  nothing-IsReplayed run = record {
    grows = Grows-self universe run.places;
    book = λ q k g. refl;
    seen = λ q k g. refl;
    unique = λ u. u;
    rows = refl;
    counted = omega arith;
    processed = omega arith;
    stations = refl;
  }

  step-IsReplayed :
      (r : OrderRecord F) (rs : List (OrderRecord F)) (run mid run' : Run F)
      (row : Option (EsiMarketOrder F))
      → IsIngested universe cancelled parse_time unchanged utcnow region_id r run row mid
      → IsReplayed rs mid run'
      → IsReplayed (r ∷ rs) run run'
  unfolding replay sees
  step-IsReplayed r rs run mid run' row s t = record {
    grows = Grows-trans universe run.places mid.places run'.places s.grows t.grows;
    book = λ q k g.
        t.book q k g
        ∙ ap (replay parse_time region_id q k rs)
            (s.book k ∙ ap (λ o. change k o (content_at k run.orders)) (sym (stand q g)));
    seen = λ q k g. rw (t.seen q k g, s.seen k, stand q g) (or_swap (names k row) _ _);
    unique = λ u. t.unique (s.unique u);
    rows = omega (arith, t.rows, s.rows);
    counted = omega (arith, t.counted, s.counted);
    processed = omega (arith, t.processed, s.processed);
    stations = omega (arith, t.stations, s.stations);
  }
    where
      stand : (q : Places) → Grows universe run'.places q → row_of parse_time region_id q r ≡ row
      stand q g = s.stands q (Grows-trans universe mid.places run'.places q t.grows g)

  module _ (honest : IsHonest universe)
      (same : (a b : EsiMarketOrder F) → unchanged a b ≡ true → content a ≡ content b)
      (total eve_region_id : ℕ) where
    after-Replays :
        (r : OrderRecord F) (rs : List (OrderRecord F)) (run : Run F)
        (rest : (mid : Run F) → Result (Run F)) (m : Result (Run F))
        → Ingests universe cancelled parse_time unchanged utcnow region_id r run m
        → ((mid : Run F) → Replays rs mid (rest mid))
        → Replays (r ∷ rs) run (m >>= rest)
    after-Replays r rs run rest (raise e) i h = tt
    after-Replays r rs run rest (done mid) (row, i) h = both (rest mid) (h mid)
      where
        both : (n : Result (Run F)) → Replays rs mid n → Replays (r ∷ rs) run n
        both (raise e) t = tt
        both (done run') t = step-IsReplayed r rs run mid run' row i t

    -- The whole loop is a replay.
    pub ingest_records-Replays :
        (rs : List (OrderRecord F)) (run : Run F)
        → Replays rs run (
            ingest_records universe cancelled parse_time unchanged utcnow total eve_region_id
              region_id rs run)
    unfolding ingest_records
    ingest_records-Replays [] run = nothing-IsReplayed run
    ingest_records-Replays (r ∷ rs) run =
        after-Replays r rs run
          (λ mid.
            ingest_records universe cancelled parse_time unchanged utcnow total eve_region_id
              region_id rs mid)
          (ingest_record universe cancelled parse_time unchanged utcnow total eve_region_id
            region_id r run)
          (ingest_record-Ingests universe cancelled parse_time unchanged utcnow same total region_id
            r run honest eve_region_id)
          (λ mid. ingest_records-Replays rs mid)
