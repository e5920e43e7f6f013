-- ===== src/Ingest/Book.antt =====
-- What `_ingest_via_orm` leaves of esi_market_orders, against a replay of the records as changes to
-- a function from ids to rows (proofs).
use eve_station_trader.Prelude.{
  ℕ, ◌+◌, ◌==◌, ◌≡◌, refl, ap, Bool, true, false, ◌||◌, Option, none, some, List, [], ◌∷◌, arith,
  any_row, update_where, length, length-append, length-update_where, if◌then◌else◌, inl, inr,
  Bool-cases, find_first-append_none, find_first-append_fails, ==_iff,
}
use mathlib.Core.Option
use eve_station_trader.Prelude.Ids.{IsUnique, set_row-IsUnique, append-IsUnique_fresh}
use eve_station_trader.Ingest.Rows.{EsiMarketOrder, find_order, add_id}
use eve_station_trader.Ingest.Regions.{Run, written, stored_order}

-- The records that a run has dealt with, by outcome.
abbrev pub outcomes : {F : Type 0} → Run F → ℕ
outcomes run = run.created + run.updated + run.skipped_missing_items + run.skipped_non_npc_locations

pub among-add_id :
    (k x : ℕ) (seen : List ℕ)
    → any_row (λ y. y == k) (add_id x seen) ≡ x == k || any_row (λ y. y == k) seen
unfolding add_id
among-add_id k x seen = elim (Bool-cases (any_row (λ y. y == x) seen)) [
  | inr e ↦ rw e refl
  | inl e ↦ rw e (elim (Bool-cases (x == k)) [
    | inl m ↦ let n : x ≡ k = ground arith in rw (m, ← n) e
    | inr m ↦ rw m refl
  ])
]

module _ {F : Type 0} where
  -- A row but for the time of its last change.
  abbrev pub content : EsiMarketOrder F → EsiMarketOrder F
  content o = record o { updated_at = 0 }

  -- One change of the abstract book: what it then has for `k`.
  abbrev pub change :
      ℕ → Option (EsiMarketOrder F) → Option (EsiMarketOrder F) → Option (EsiMarketOrder F)
  change k none d = d
  change k (some row) d = if row.order_id == k then some row else d

  abbrev pub names : ℕ → Option (EsiMarketOrder F) → Bool
  names k none = false
  names k (some row) = row.order_id == k

  -- The content that the table has for `k`.
  abbrev pub content_at : ℕ → List (EsiMarketOrder F) → Option (EsiMarketOrder F)
  content_at k orders = Option.map content (find_order k orders)

  module _ (unchanged : EsiMarketOrder F → EsiMarketOrder F → Bool)
      (same : (a b : EsiMarketOrder F) → unchanged a b ≡ true → content a ≡ content b) where
    content-written :
        (row old : EsiMarketOrder F) → content (written unchanged row old) ≡ content row
    unfolding written
    content-written row old = elim (Bool-cases (unchanged old row)) [
      | inl e ↦ rw e (same old row e)
      | inr e ↦ rw e refl
    ]

    written-order_id :
        (row old : EsiMarketOrder F) → (written unchanged row old).order_id ≡ row.order_id
    written-order_id row old = ap (λ (o : EsiMarketOrder F). o.order_id) (content-written row old)

    find_order-update_ne :
        (k : ℕ) (row : EsiMarketOrder F) (orders : List (EsiMarketOrder F))
        → (row.order_id == k) ≡ false
        → find_order k
            (update_where (λ o. o.order_id == row.order_id) (written unchanged row) orders)
          ≡ find_order k orders
    find_order-update_ne k row [] d = refl
    find_order-update_ne k row (o ∷ orders) d =
        ground (arith, find_order-update_ne k row orders d, written-order_id row o)

    content_at-update :
        (row old : EsiMarketOrder F) (orders : List (EsiMarketOrder F))
        → find_order row.order_id orders ≡ some old
        → content_at row.order_id
            (update_where (λ o. o.order_id == row.order_id) (written unchanged row) orders)
          ≡ some (content row)
    content_at-update row old [] h = cc
    content_at-update row old (o ∷ orders) h = elim (Bool-cases (o.order_id == row.order_id)) [
      | inl e ↦
          let w : ((written unchanged row o).order_id == row.order_id) ≡ true =
            (==_iff _ _).1 (written-order_id row o) in
          rw (e, w) (ap some (content-written row o))
      | inr e ↦ rw (e, e) (content_at-update row old orders (rw e at h))
    ]

    -- Storing a row is one change of the abstract book.
    pub content_at-stored_order :
        (k : ℕ) (row : EsiMarketOrder F) (run : Run F) (o : Option (EsiMarketOrder F))
        → find_order row.order_id run.orders ≡ o
        → content_at k (stored_order unchanged row o run).orders
          ≡ change k (some (content row)) (content_at k run.orders)
    unfolding stored_order
    content_at-stored_order k row run none h = elim (Bool-cases (row.order_id == k)) [
      | inl e ↦
          let m : row.order_id ≡ k = ground arith in
          rw e (
            rw (find_first-append_none (λ o. o.order_id == k) run.orders (row ∷ []) (rw m at h), e)
              refl)
      | inr e ↦ rw e (
          ap (Option.map content) (find_first-append_fails (λ o. o.order_id == k) run.orders row e))
    ]
    content_at-stored_order k row run (some old) h = elim (Bool-cases (row.order_id == k)) [
      | inl e ↦
          let m : row.order_id ≡ k = ground arith in
          rw (e, ← m) (content_at-update row old run.orders h)
      | inr e ↦ rw e (ap (Option.map content) (find_order-update_ne k row run.orders e))
    ]

    pub stored_order-IsUnique :
        (row : EsiMarketOrder F) (run : Run F) (o : Option (EsiMarketOrder F))
        → find_order row.order_id run.orders ≡ o
        → IsUnique (λ o. o.order_id) run.orders
        → IsUnique (λ o. o.order_id) (stored_order unchanged row o run).orders
    unfolding stored_order
    stored_order-IsUnique row run none h u =
        append-IsUnique_fresh (λ o. o.order_id) row run.orders h u
    stored_order-IsUnique row run (some old) h u =
        set_row-IsUnique (λ o. o.order_id) row.order_id (written unchanged row) run.orders
          (written-order_id row) u

  -- What storing a row leaves alone, and what it counts.
  pub record IsCounted (run run' : Run F) : Type 0 where
    pub places : run'.places ≡ run.places
    pub seen : run'.seen_order_ids ≡ run.seen_order_ids
    pub rows : length run'.orders + run.created ≡ length run.orders + run'.created
    pub outcome : outcomes run' ≡ outcomes run + 1
    pub processed : run'.processed_records ≡ run.processed_records
    pub stations : run'.stations_created ≡ run.stations_created

  pub stored_order-IsCounted :
      (unchanged : EsiMarketOrder F → EsiMarketOrder F → Bool) (row : EsiMarketOrder F)
      (run : Run F) (o : Option (EsiMarketOrder F))
      → IsCounted run (stored_order unchanged row o run)
  unfolding stored_order
  stored_order-IsCounted unchanged row run none = record {
    places = refl;
    seen = refl;
    rows = omega (arith, length-append run.orders (row ∷ []));
    outcome = omega arith;
    processed = refl;
    stations = refl;
  }
  stored_order-IsCounted unchanged row run (some old) = record {
    places = refl;
    seen = refl;
    rows = omega (
      arith,
      length-update_where (λ o. o.order_id == row.order_id) (written unchanged row) run.orders,
    );
    outcome = omega arith;
    processed = refl;
    stations = refl;
  }
