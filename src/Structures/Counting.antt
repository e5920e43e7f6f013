-- ===== src/Structures/Counting.antt =====
-- The units that the deltas of a comparison add to the sums of the two sides.
use eve_station_trader.Prelude.{
  ℕ, ◌+◌, ◌*◌, ◌≡◌, ◌≤◌, leb, refl, sym, ◌∙◌, ap₂, Bool, true, false, not, ◌&&◌, Option, none, some,
  List, [], ◌∷◌, ◌++◌, select, ◌==◌, ==_iff, if◌then◌else◌, arith, Bool-cases, inl, inr,
}
use eve_station_trader.Prelude.Int.{ℤ, pos, ◌+ℤ◌, ◌-ℤ◌, neg_ℤ, ltb_ℤ, is_zero, int_laws}
use eve_station_trader.Prelude.Upsert.{stored}
use eve_station_trader.Structures.Rows.{
  TradeSide, buy_from_sell, sell_to_buy, StructureOrderDelta, StructureSnapshotOrder, order_key,
}
use eve_station_trader.Structures.Snapshots.{
  order_delta, order_deltas_of, add_row, compute_order_delta, disappeared_delta,
}
use eve_station_trader.Structures.Periods.{is_side, in_window, side_units}

abbrev pub side_of : Bool → TradeSide
side_of true = sell_to_buy
side_of false = buy_from_sell

is_side-none : (side : TradeSide) → is_side side none ≡ false
is_side-none sell_to_buy = refl
is_side-none buy_from_sell = refl

is_side-inferred :
    (buys bought : Bool)
    → is_side (side_of buys) (some (if not bought && true then buy_from_sell else sell_to_buy))
      ≡ (if bought then buys else not buys)
is_side-inferred true true = refl
is_side-inferred true false = refl
is_side-inferred false true = refl
is_side-inferred false false = refl

and_false : (b : Bool) → (b && false) ≡ false
and_false true = refl
and_false false = refl

zero_add : (a : ℤ) → pos 0 +ℤ a ≡ a
zero_add a = grind int_laws

add_assoc : (a b c : ℤ) → a +ℤ (b +ℤ c) ≡ a +ℤ b +ℤ c
add_assoc a b c = grind int_laws

neg_swap : (a b : ℤ) → neg_ℤ (a -ℤ b) ≡ b -ℤ a
neg_swap a b = grind int_laws

negative-nonzero : (d : ℤ) → ltb_ℤ d (pos 0) ≡ true → is_zero d ≡ false
negative-nonzero d h = ground arith

negative-pos : (d : ℤ) → ltb_ℤ d (pos 0) ≡ true → ltb_ℤ (pos 0) (neg_ℤ d) ≡ true
unfolding neg_ℤ
negative-pos d h = ground arith

leb-true : (a b : ℕ) → a ≤ b → leb a b ≡ true
leb-true a b h = ground arith

module _ {P : Type 0} where
  -- The units that a sell order, or a buy order, lost while it stayed in the book.
  unfoldable pub sold : Bool → ℕ → StructureSnapshotOrder P → Option (StructureSnapshotOrder P) → ℤ
  sold buys type_id p none = pos 0
  sold buys type_id p (some c) =
      if c.type_id == type_id
        && (if c.is_buy_order then buys else not buys)
        && ltb_ℤ (c.volume_remain -ℤ p.volume_remain) (pos 0)
      then p.volume_remain -ℤ c.volume_remain
      else pos 0

  unfoldable pub total_sold :
      Bool → ℕ → List (StructureSnapshotOrder P) → List (StructureSnapshotOrder P) → ℤ
  unfolding sold
  total_sold buys type_id [] current = pos 0
  total_sold buys type_id (p ∷ ps) current =
      sold buys type_id p (stored order_key p current) +ℤ total_sold buys type_id ps current

  -- What a delta adds to the sum of a side.
  abbrev units : TradeSide → StructureOrderDelta P → ℤ
  units side d =
      if is_side side d.inferred_trade_side && ltb_ℤ (pos 0) d.inferred_trade_units
      then d.inferred_trade_units
      else pos 0

  abbrev counted : (StructureOrderDelta P → Bool) → TradeSide → Option (StructureOrderDelta P) → ℤ
  counted w side none = pos 0
  counted w side (some d) = if w d then units side d else pos 0

  side_units-add_row :
      (w : StructureOrderDelta P → Bool) (side : TradeSide) (o : Option (StructureOrderDelta P))
      (rows : List (StructureOrderDelta P))
      → side_units side (select w (add_row o rows))
        ≡ counted w side o +ℤ side_units side (select w rows)
  unfolding side_units
  side_units-add_row w side none rows = sym (zero_add _)
  side_units-add_row w side (some d) rows = elim (Bool-cases (w d)) [
    | inl e ↦ rw e refl
    | inr e ↦ rw e (sym (zero_add _))
  ]

  pub side_units-append :
      (side : TradeSide) (xs ys : List (StructureOrderDelta P))
      → side_units side (xs ++ ys) ≡ side_units side xs +ℤ side_units side ys
  unfolding side_units
  side_units-append side [] ys = sym (zero_add _)
  side_units-append side (x ∷ xs) ys = rw (side_units-append side xs ys) (add_assoc _ _ _)

  counted-order_delta :
      (buys : Bool) (structure_id type_id days at from_time to_time : ℕ)
      (p : StructureSnapshotOrder P) (o : Option (StructureSnapshotOrder P))
      → at ≤ to_time + days * 86400
      → to_time ≤ at
      → counted
          (in_window structure_id type_id days at)
          (side_of buys)
          (order_delta structure_id from_time to_time p o)
        ≡ sold buys type_id p o
  unfolding order_delta compute_order_delta disappeared_delta in_window sold
  counted-order_delta buys structure_id type_id days at from_time to_time p none h k =
      elim (Bool-cases (
        in_window structure_id type_id days at
          (disappeared_delta structure_id from_time to_time p))) [
            | inl e ↦ rw (e, is_side-none (side_of buys)) refl
            | inr e ↦ rw e refl
          ]
  counted-order_delta buys structure_id type_id days at from_time to_time p (some c) h k =
      let d = c.volume_remain -ℤ p.volume_remain in
      elim (Bool-cases (ltb_ℤ d (pos 0))) [
        | inl l ↦ elim (Bool-cases (c.type_id == type_id)) [
          | inl e ↦
              rw
                (
                  negative-nonzero d l,
                  l,
                  negative-pos d l,
                  e,
                  (==_iff structure_id structure_id).1 refl,
                  leb-true _ _ h,
                  leb-true _ _ k,
                )
                (rw (is_side-inferred buys c.is_buy_order, neg_swap c.volume_remain p.volume_remain)
                  refl)
          | inr e ↦ rw (negative-nonzero d l, l, e, (==_iff structure_id structure_id).1 refl) refl
        ]
        | inr l ↦ elim (Bool-cases (is_zero d)) [
          | inl z ↦
              rw
                (
                  z,
                  l,
                  and_false (c.type_id == type_id && (if c.is_buy_order then buys else not buys)),
                )
                refl
          | inr z ↦
              elim (Bool-cases (
                in_window structure_id type_id days at
                  (compute_order_delta structure_id from_time to_time p c))) [
                    | inl e ↦
                        rw
                          (
                            z,
                            e,
                            l,
                            and_false (
                                c.type_id == type_id
                                && (if c.is_buy_order then buys else not buys)),
                          )
                          (rw
                            (and_false (
                              is_side (side_of buys) (
                                some (
                                  if not c.is_buy_order && false
                                  then buy_from_sell
                                  else sell_to_buy))))
                            refl)
                    | inr e ↦
                        rw
                          (
                            z,
                            e,
                            l,
                            and_false (
                                c.type_id == type_id
                                && (if c.is_buy_order then buys else not buys)),
                          )
                          refl
                  ]
        ]
      ]

  pub counted-order_deltas_of :
      (buys : Bool) (structure_id type_id days at from_time to_time : ℕ)
      (ps current : List (StructureSnapshotOrder P))
      → at ≤ to_time + days * 86400
      → to_time ≤ at
      → side_units (side_of buys) (
          select
            (in_window structure_id type_id days at)
            (order_deltas_of structure_id from_time to_time ps current))
        ≡ total_sold buys type_id ps current
  unfolding order_deltas_of total_sold side_units
  counted-order_deltas_of buys structure_id type_id days at from_time to_time [] current h k = refl
  counted-order_deltas_of buys structure_id type_id days at from_time to_time (p ∷ ps) current h k =
      let o = stored order_key p current in
      side_units-add_row (in_window structure_id type_id days at) (side_of buys)
        (order_delta structure_id from_time to_time p o)
        (order_deltas_of structure_id from_time to_time ps current)
      ∙ ap₂ ◌+ℤ◌ (counted-order_delta buys structure_id type_id days at from_time to_time p o h k) (
          counted-order_deltas_of buys structure_id type_id days at from_time to_time ps current h
            k)

  pub select-append :
      (w : StructureOrderDelta P → Bool) (xs ys : List (StructureOrderDelta P))
      → select w (xs ++ ys) ≡ select w xs ++ select w ys
  select-append w [] ys = refl
  select-append w (x ∷ xs) ys = ground (arith, select-append w xs ys)
