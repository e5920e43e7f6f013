-- ===== src/Structures/Orders.antt =====
-- What a snapshot keeps: its orders can be read back, and as a dict, the last row of each order id.
use eve_station_trader.Prelude.{
  ℕ, ◌+◌, ◌<◌, ◌≡◌, refl, sym, ap, subst, ◌∙◌, Bool, true, false, Option, none, some, List, [], ◌∷◌,
  ◌++◌, map, select, find_first, All, All-append, All-map_of, ◌==◌, ==_iff, if◌then◌else◌, arith,
}
use mathlib.Core.Option
use mathlib.Core.List.{append-nil}
use eve_station_trader.Prelude.Upsert.{upsert, upsert_all, stored-upsert}
use eve_station_trader.Structures.Rows.{
  Timestamp, naive, aware, ensure_utc, StructureOrderInput, StructureSnapshot,
  StructureSnapshotOrder, Tables, order_key,
}
use eve_station_trader.Structures.Snapshots.{
  utc_or_none, snapshot_order, persist_snapshot, orders_by_id,
}

-- A time with the zone dropped: both kinds count seconds in UTC.
abbrev pub utc_time : Timestamp → Timestamp
utc_time (naive t) = naive t
utc_time (aware t) = naive t

read-issued :
    (time : Option Timestamp) → Option.map naive (utc_or_none time) ≡ Option.map utc_time time
unfolding ensure_utc
read-issued none = refl
read-issued (some (naive t)) = refl
read-issued (some (aware t)) = refl

-- The second value where the first is missing.
abbrev pub later {ℓ} : {A : Type ℓ} → Option A → Option A → Option A
later none b = b
later (some a) b = some a

module _ {P : Type 0} where
  abbrev pub by_id : ℕ → List (StructureSnapshotOrder P) → Option (StructureSnapshotOrder P)
  by_id id rows = find_first (λ r. id == r.order_id) rows

  -- A stored order as an input again, and what is expected of it: the input with its time in UTC.
  abbrev pub read_order : StructureSnapshotOrder P → StructureOrderInput P
  read_order o = record {
    order_id = o.order_id;
    type_id = o.type_id;
    is_buy_order = o.is_buy_order;
    price = o.price;
    volume_remain = o.volume_remain;
    issued = Option.map naive o.issued;
    duration = o.duration;
  }

  abbrev pub in_utc : StructureOrderInput P → StructureOrderInput P
  in_utc o = record o { issued = Option.map utc_time o.issued }

  -- The last of the rows with an order id.
  unfoldable pub last_order :
      ℕ → List (StructureSnapshotOrder P) → Option (StructureSnapshotOrder P)
  last_order id [] = none
  last_order id (r ∷ rs) = later (last_order id rs) (if id == r.order_id then some r else none)

  by_id-upsert :
      (id : ℕ) (r : StructureSnapshotOrder P) (rows : List (StructureSnapshotOrder P))
      → by_id id (upsert order_key r rows) ≡ (if id == r.order_id then some r else by_id id rows)
  by_id-upsert id r rows = stored-upsert order_key (record r { order_id = id }) r rows

  by_id-upsert_all :
      (id : ℕ) (rs rows : List (StructureSnapshotOrder P))
      → by_id id (upsert_all order_key rs rows) ≡ later (last_order id rs) (by_id id rows)
  unfolding upsert_all last_order
  by_id-upsert_all id [] rows = refl
  by_id-upsert_all id (r ∷ rs) rows =
      by_id-upsert_all id rs (upsert order_key r rows)
      ∙ rw (by_id-upsert id r rows) (merge (last_order id rs) (id == r.order_id))
    where
      merge :
          (o : Option (StructureSnapshotOrder P)) (b : Bool)
          → later o (if b then some r else by_id id rows)
            ≡ later (later o (if b then some r else none)) (by_id id rows)
      merge (some x) b = refl
      merge none true = refl
      merge none false = refl

  pub by_id-orders_by_id :
      (id snapshot_id : ℕ) (rows : List (StructureSnapshotOrder P))
      → by_id id (orders_by_id snapshot_id rows)
        ≡ last_order id (select (λ r. r.snapshot_id == snapshot_id) rows)
  unfolding orders_by_id
  by_id-orders_by_id id snapshot_id rows =
      by_id-upsert_all id (select (λ r. r.snapshot_id == snapshot_id) rows) []
      ∙ nothing (last_order id (select (λ r. r.snapshot_id == snapshot_id) rows))
    where
      nothing : (o : Option (StructureSnapshotOrder P)) → later o none ≡ o
      nothing none = refl
      nothing (some x) = refl

  -- Snapshot ids are below the next one, in both tables.
  abbrev pub IsNumbered : Tables P → Type 0
  IsNumbered t =
      All (λ s. s.id < t.next_snapshot_id) t.snapshots
      × All (λ o. o.snapshot_id < t.next_snapshot_id) t.snapshot_orders

  select-append :
      (p : StructureSnapshotOrder P → Bool) (xs ys : List (StructureSnapshotOrder P))
      → select p (xs ++ ys) ≡ select p xs ++ select p ys
  select-append p [] ys = refl
  select-append p (x ∷ xs) ys = ground (arith, select-append p xs ys)

  select-below :
      (n : ℕ) (rows : List (StructureSnapshotOrder P))
      → All (λ o. o.snapshot_id < n) rows
      → select (λ o. o.snapshot_id == n) rows ≡ []
  select-below n [] h = refl
  select-below n (x ∷ rows) h = ground (arith, select-below n rows h.1)

  select-fresh :
      (id structure_id : ℕ) (orders : List (StructureOrderInput P))
      → select (λ o. o.snapshot_id == id) (map (snapshot_order id structure_id) orders)
        ≡ map (snapshot_order id structure_id) orders
  unfolding snapshot_order
  select-fresh id structure_id [] = refl
  select-fresh id structure_id (o ∷ orders) =
      rw ((==_iff id id).1 refl, select-fresh id structure_id orders) refl

  select-other :
      (id n structure_id : ℕ) (orders : List (StructureOrderInput P))
      → (n == id) ≡ false
      → select (λ o. o.snapshot_id == id) (map (snapshot_order n structure_id) orders) ≡ []
  unfolding snapshot_order
  select-other id n structure_id [] h = refl
  select-other id n structure_id (o ∷ orders) h =
      rw (h, select-other id n structure_id orders h) refl

  read-fresh :
      (id structure_id : ℕ) (orders : List (StructureOrderInput P))
      → map read_order (map (snapshot_order id structure_id) orders) ≡ map in_utc orders
  unfolding snapshot_order
  read-fresh id structure_id [] = refl
  read-fresh id structure_id (o ∷ orders) =
      let same : read_order (snapshot_order id structure_id o) ≡ in_utc o =
        ap (λ issued. record (in_utc o) { issued = issued }) (read-issued o.issued) in
      rw (same, read-fresh id structure_id orders) refl

  belongs-fresh :
      (id structure_id : ℕ) (orders : List (StructureOrderInput P))
      → All (λ o. o.structure_id ≡ structure_id) (map (snapshot_order id structure_id) orders)
  unfolding snapshot_order
  belongs-fresh id structure_id [] = tt
  belongs-fresh id structure_id (o ∷ orders) = (refl, belongs-fresh id structure_id orders)

  numbered-fresh :
      (n structure_id : ℕ) (orders : List (StructureOrderInput P))
      → All (λ o. o.snapshot_id < n + 1) (map (snapshot_order n structure_id) orders)
  unfolding snapshot_order
  numbered-fresh n structure_id [] = tt
  numbered-fresh n structure_id (o ∷ orders) = (omega arith, numbered-fresh n structure_id orders)

greater-ne : (a n : ℕ) → a < n → (n == a) ≡ false
greater-ne a n h = ground arith

find-below :
    (n : ℕ) (rows : List StructureSnapshot) (s : StructureSnapshot)
    → All (λ r. r.id < n) rows
    → s.id ≡ n
    → find_first (λ r. r.id == n) (rows ++ s ∷ []) ≡ some s
find-below n [] s h e = rw ((==_iff s.id n).1 e) refl
find-below n (r ∷ rows) s h e = ground (arith, find-below n rows s h.1 e)

module _ {P : Type 0} where
  -- Where the snapshot ids of the tables are below the next id, a snapshot that is persisted gets a
  -- row under an id of its own. The orders read back for that id are those given, in their order, each
  -- field as it was given but the time of issue, which is in UTC, and all of the structure; those of
  -- every older snapshot are as they were; and the ids are still below the next one.
  pub persist_snapshot-orders :
      (structure_id : ℕ) (time : Timestamp) (orders : List (StructureOrderInput P)) (t : Tables P)
      → IsNumbered t
      → let (r, t') = persist_snapshot structure_id time orders t in
        (find_first (λ s. s.id == r.snapshot_id) t'.snapshots
          ≡ some (record {
            id = r.snapshot_id;
            structure_id = structure_id;
            snapshot_time = ensure_utc time;
          }))
        × (map read_order (select (λ o. o.snapshot_id == r.snapshot_id) t'.snapshot_orders)
            ≡ map in_utc orders)
        × All
            (λ o. o.structure_id ≡ structure_id)
            (select (λ o. o.snapshot_id == r.snapshot_id) t'.snapshot_orders)
        × ((old : ℕ)
            → old < t.next_snapshot_id
            → select (λ o. o.snapshot_id == old) t'.snapshot_orders
              ≡ select (λ o. o.snapshot_id == old) t.snapshot_orders)
        × IsNumbered t'
  unfolding persist_snapshot
  persist_snapshot-orders structure_id time orders t (h, k) =
      let n = t.next_snapshot_id in
      let fresh = map (snapshot_order n structure_id) orders in
      let own : select (λ o. o.snapshot_id == n) (t.snapshot_orders ++ fresh) ≡ fresh =
        select-append (λ o. o.snapshot_id == n) t.snapshot_orders fresh
        ∙ rw (select-below n t.snapshot_orders k) (select-fresh n structure_id orders) in
      (
        find-below n t.snapshots _ h refl,
        ap (map read_order) own ∙ read-fresh n structure_id orders,
        subst (All (λ o. o.structure_id ≡ structure_id)) (sym own)
            (belongs-fresh n structure_id orders),
        (λ old below.
            select-append (λ o. o.snapshot_id == old) t.snapshot_orders fresh
            ∙ rw (select-other old n structure_id orders (greater-ne old n below)) (append-nil _)),
        (
          All-append (λ s. s.id < n + 1) t.snapshots _
              (All-map_of (λ s. s.id < n) t.snapshots (λ s b. omega arith) h) (omega arith, tt),
          All-append (λ o. o.snapshot_id < n + 1) t.snapshot_orders fresh
              (All-map_of (λ o. o.snapshot_id < n) t.snapshot_orders (λ o b. omega arith) k)
              (numbered-fresh n structure_id orders),
        ),
      )
