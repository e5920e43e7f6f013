-- ===== src/Npc/Deltas/Keys.antt =====
-- The order of the keys (type_id, order_id) of npc_stations/deltas.py.
use eve_station_trader.Prelude.{◌≡◌, true, false, List, [], ◌∷◌, arith, All, All-map_of}
use eve_station_trader.Npc.Rows.{Key, key_eq, key_lt}

pub key_eq_refl : (a : Key) → key_eq a a ≡ true
unfolding key_eq
key_eq_refl a = ground arith

pub key_eq_sym : (a b : Key) → key_eq a b ≡ key_eq b a
unfolding key_eq
key_eq_sym a b = ground arith

pub key_eq_trans : (a b c : Key) → key_eq a b ≡ true → key_eq a c ≡ true → key_eq b c ≡ true
unfolding key_eq
key_eq_trans a b c h k = ground arith

pub key_lt_trans : (a b c : Key) → key_lt a b ≡ true → key_lt b c ≡ true → key_lt a c ≡ true
unfolding key_lt
key_lt_trans a b c h k = ground arith

pub key_lt-ne : (a b : Key) → key_lt a b ≡ true → key_eq a b ≡ false
unfolding key_eq key_lt
key_lt-ne a b h = ground arith

-- Neither equal nor before: after.
pub key_gt : (a b : Key) → key_eq a b ≡ false → key_lt a b ≡ false → key_lt b a ≡ true
unfolding key_eq key_lt
key_gt a b h k = ground arith

-- An equal key stands in the same order to a third.
pub key_eq-lt : (a b c : Key) → key_eq a b ≡ true → key_lt a c ≡ true → key_lt b c ≡ true
unfolding key_eq key_lt
key_eq-lt a b c h k = ground arith

module _ {R : Type 0} (key : R → Key) where
  -- Every row of the list has a key after `k`.
  abbrev pub AllAfter : Key → List R → Type 0
  AllAfter k = All (λ r. key_lt k (key r) ≡ true)

  -- No row of the list has the key `k`.
  abbrev pub IsFresh : Key → List R → Type 0
  IsFresh k = All (λ r. key_eq k (key r) ≡ false)

  -- Keys rise strictly.
  abbrev pub IsSorted : List R → Type 0
  IsSorted [] = Unit
  IsSorted (r ∷ rs) = AllAfter (key r) rs × IsSorted rs

  -- No key stands twice.
  abbrev pub IsUnique : List R → Type 0
  IsUnique [] = Unit
  IsUnique (r ∷ rs) = IsFresh (key r) rs × IsUnique rs

  pub AllAfter-weaken :
      (a b : Key) (rs : List R) → key_lt a b ≡ true → AllAfter b rs → AllAfter a rs
  AllAfter-weaken a b rs h =
      All-map_of (λ r. key_lt b (key r) ≡ true) rs (λ r k. key_lt_trans a b (key r) h k)

  pub AllAfter-IsFresh : (a : Key) (rs : List R) → AllAfter a rs → IsFresh a rs
  AllAfter-IsFresh a rs = All-map_of (λ r. key_lt a (key r) ≡ true) rs (λ r. key_lt-ne a (key r))
