-- ===== src/Structures/Changes.antt =====
-- What the comparison of two snapshots adds to structure_order_deltas.
use eve_station_trader.Prelude.{
  ℕ, ◌≡◌, refl, sym, subst, ◌∙◌, ap, Bool, true, false, Option, none, some, List, [], ◌∷◌, ◌++◌,
  length, select, find_first, All, ◌==◌, eq_of_some, ==_iff, if◌then◌else◌, Bool-cases, inl, inr,
}
use eve_station_trader.Prelude.Int.{is_zero}
use eve_station_trader.Prelude.Upsert.{stored, upsert_all-IsKeyed, IsKeyed}
use eve_station_trader.Structures.Rows.{
  StructureSnapshot, StructureSnapshotOrder, StructureOrderDelta, Tables, ok, order_key,
}
use eve_station_trader.Structures.Snapshots.{
  compute_order_delta, disappeared_delta, order_delta, add_row, order_deltas_of, orders_by_id,
  persist_deltas_between, persist_deltas_for_snapshots,
}
use eve_station_trader.Structures.Orders.{by_id, last_order, by_id-orders_by_id}

module _ {P : Type 0} where
  abbrev pub delta_by_id : ℕ → List (StructureOrderDelta P) → Option (StructureOrderDelta P)
  delta_by_id id rows = find_first (λ d. id == d.order_id) rows

  -- The change of an order that was there before; an order that was not makes none.
  abbrev pub change :
      ℕ
      → ℕ
      → ℕ
      → Option (StructureSnapshotOrder P)
      → Option (StructureSnapshotOrder P)
      → Option (StructureOrderDelta P)
  change structure_id from_time to_time none current = none
  change structure_id from_time to_time (some p) current =
      order_delta structure_id from_time to_time p current

  abbrev IsOf : ℕ → Option (StructureOrderDelta P) → Type 0
  IsOf id none = Unit
  IsOf id (some d) = d.order_id ≡ id

  found-same :
      (id : ℕ) (rows : List (StructureSnapshotOrder P)) (c : StructureSnapshotOrder P)
      → by_id id rows ≡ some c
      → c.order_id ≡ id
  found-same id [] c h = cc
  found-same id (r ∷ rows) c h = pick (id == r.order_id) refl h (found-same id rows c)
    where
      pick :
          (b : Bool)
          → (id == r.order_id) ≡ b
          → (if b then some r else by_id id rows) ≡ some c
          → (by_id id rows ≡ some c → c.order_id ≡ id)
          → c.order_id ≡ id
      pick true e k rest = sym (
          (==_iff id r.order_id).0 e
          ∙ ap (λ (x : StructureSnapshotOrder P). x.order_id) (eq_of_some k))
      pick false e k rest = rest k

  order_delta-IsOf :
      (structure_id from_time to_time : ℕ) (p : StructureSnapshotOrder P)
      (o : Option (StructureSnapshotOrder P))
      → ((c : StructureSnapshotOrder P) → o ≡ some c → c.order_id ≡ p.order_id)
      → IsOf p.order_id (order_delta structure_id from_time to_time p o)
  unfolding order_delta compute_order_delta disappeared_delta
  order_delta-IsOf structure_id from_time to_time p none h = refl
  order_delta-IsOf structure_id from_time to_time p (some c) h =
      elim (Bool-cases
        (is_zero (compute_order_delta structure_id from_time to_time p c).delta_volume)) [
          | inl e ↦ rw e tt
          | inr e ↦ rw e (h c refl)
        ]

  -- The order ids of the rows are `ids`-free: no row has the id.
  abbrev IsFree : ℕ → List (StructureSnapshotOrder P) → Type 0
  IsFree id ps = All (λ p. (id == p.order_id) ≡ false) ps

  add_row-other :
      (id other : ℕ) (o : Option (StructureOrderDelta P)) (rows : List (StructureOrderDelta P))
      → IsOf other o
      → (id == other) ≡ false
      → delta_by_id id (add_row o rows) ≡ delta_by_id id rows
  add_row-other id other none rows h e = refl
  add_row-other id other (some d) rows h e = rw (h, e) refl

  add_row-same :
      (id : ℕ) (o : Option (StructureOrderDelta P)) (rows : List (StructureOrderDelta P))
      → IsOf id o
      → delta_by_id id rows ≡ none
      → delta_by_id id (add_row o rows) ≡ o
  add_row-same id none rows h e = e
  add_row-same id (some d) rows h e = rw (h, (==_iff id id).1 refl) refl

  module _ (structure_id from_time to_time : ℕ) (current : List (StructureSnapshotOrder P)) where
    delta-IsOf :
        (p : StructureSnapshotOrder P)
        → IsOf p.order_id
            (order_delta structure_id from_time to_time p (stored order_key p current))
    delta-IsOf p =
        order_delta-IsOf structure_id from_time to_time p (stored order_key p current)
          (λ c h. found-same p.order_id current c h)

    order_deltas_of-free :
        (id : ℕ) (ps : List (StructureSnapshotOrder P))
        → IsFree id ps
        → delta_by_id id (order_deltas_of structure_id from_time to_time ps current) ≡ none
    unfolding order_deltas_of
    order_deltas_of-free id [] h = refl
    order_deltas_of-free id (p ∷ ps) h =
        add_row-other id p.order_id
          (order_delta structure_id from_time to_time p (stored order_key p current)) _
          (delta-IsOf p) h.0
        ∙ order_deltas_of-free id ps h.1

    order_deltas_of-change :
        (id : ℕ) (ps : List (StructureSnapshotOrder P))
        → IsKeyed order_key ps
        → delta_by_id id (order_deltas_of structure_id from_time to_time ps current)
          ≡ change structure_id from_time to_time (by_id id ps) (by_id id current)
    unfolding order_deltas_of
    order_deltas_of-change id [] h = refl
    order_deltas_of-change id (p ∷ ps) h =
        pick (id == p.order_id) refl (order_deltas_of-change id ps h.1)
      where
        rest : List (StructureOrderDelta P)
        rest = order_deltas_of structure_id from_time to_time ps current

        here : Option (StructureOrderDelta P)
        here = order_delta structure_id from_time to_time p (stored order_key p current)

        pick :
            (b : Bool)
            → (id == p.order_id) ≡ b
            → delta_by_id id rest
              ≡ change structure_id from_time to_time (by_id id ps) (by_id id current)
            → delta_by_id id (add_row here rest)
              ≡ change structure_id from_time to_time
                  (if b then some p else by_id id ps)
                  (by_id id current)
        pick true e ih =
            subst
              (λ (i : ℕ).
                delta_by_id i (add_row here rest)
                ≡ order_delta structure_id from_time to_time p (by_id i current))
              (sym ((==_iff id p.order_id).0 e))
              (add_row-same p.order_id here rest (delta-IsOf p)
                (order_deltas_of-free p.order_id ps h.0))
        pick false e ih = add_row-other id p.order_id here rest (delta-IsOf p) e ∙ ih

orders_by_id-IsKeyed :
    {P : Type 0} (snapshot_id : ℕ) (rows : List (StructureSnapshotOrder P))
    → IsKeyed order_key (orders_by_id snapshot_id rows)
unfolding orders_by_id
orders_by_id-IsKeyed snapshot_id rows =
    upsert_all-IsKeyed order_key (select (λ r. r.snapshot_id == snapshot_id) rows) [] tt

module _ {P : Type 0} where
  -- The orders of a snapshot.
  abbrev pub orders_of : ℕ → Tables P → List (StructureSnapshotOrder P)
  orders_of snapshot_id t = select (λ r. r.snapshot_id == snapshot_id) t.snapshot_orders

  -- Where both snapshots exist and belong to the structure, the comparison returns the number of rows
  -- that it adds behind the old deltas, and changes no other table. For each order id there is a row
  -- exactly when the earlier snapshot has that order and the later one lacks it or has another
  -- volume: the row of `order_delta` for the last order with that id in each snapshot.
  pub persist_deltas_for_snapshots-rows :
      (structure_id p_id c_id : ℕ) (p c : StructureSnapshot) (t : Tables P)
      → find_first (λ s. s.id == p_id) t.snapshots ≡ some p
      → find_first (λ s. s.id == c_id) t.snapshots ≡ some c
      → p.structure_id ≡ structure_id
      → c.structure_id ≡ structure_id
      → (rows : List (StructureOrderDelta P)) × (persist_deltas_for_snapshots structure_id p_id c_id
            t
          ≡ (
            ok (record { delta_count = length rows }),
            record t { order_deltas = t.order_deltas ++ rows },
          ))
        × ((id : ℕ)
            → delta_by_id id rows
              ≡ change structure_id p.snapshot_time c.snapshot_time
                  (last_order id (orders_of p.id t))
                  (last_order id (orders_of c.id t)))
  unfolding persist_deltas_for_snapshots persist_deltas_between
  persist_deltas_for_snapshots-rows structure_id p_id c_id p c t hp hc sp sc =
      let before = orders_by_id p.id t.snapshot_orders in
      let after = orders_by_id c.id t.snapshot_orders in
      (
        order_deltas_of structure_id p.snapshot_time c.snapshot_time before after,
        rw
            (
              hp,
              hc,
              (==_iff p.structure_id structure_id).1 sp,
              (==_iff c.structure_id structure_id).1 sc,
            )
            refl,
        λ id.
            order_deltas_of-change structure_id p.snapshot_time c.snapshot_time after id before
              (orders_by_id-IsKeyed p.id t.snapshot_orders)
            ∙ rw
                (
                  by_id-orders_by_id id p.id t.snapshot_orders,
                  by_id-orders_by_id id c.id t.snapshot_orders,
                )
                refl,
      )
