-- ===== src/Esi/Records.antt =====
-- What the parsers of order rows accept: payloads of complete rows, each kept as it is.
use eve_station_trader.Prelude.{◌≡◌, refl, Option, some, List, [], ◌∷◌, map, String, All}
use eve_station_trader.Prelude.Int.{ℤ}
use eve_station_trader.Esi.Request.{Outcome, return}
use eve_station_trader.Esi.Payloads.{
  boolean, integer, number, text, Entry, mapping, rows, RegionalOrderRecord, map_all,
  require_mapping, require_integer, require_boolean, require_numeric, require_string, get_value,
  normalize_datetime, normalize_regional_order_row, parse_regional_orders_payload, as_integer,
  as_boolean, as_numeric, as_string,
}

module _ {B A C : Type 0} where
  -- The entries are read one by one into the records: as many, in the same order, none dropped.
  abbrev pub IsRead : (A → Outcome B C) → List A → List C → Type 0
  IsRead f [] [] = Unit
  IsRead f [] (y ∷ ys) = ⊥
  IsRead f (x ∷ xs) [] = ⊥
  IsRead f (x ∷ xs) (y ∷ ys) = (f x ≡ return y) × IsRead f xs ys

  pub IsRead-return :
      (f : A → Outcome B C) (xs : List A) (ys : List C) → IsRead f xs ys → map_all f xs ≡ return ys
  unfolding map_all
  IsRead-return f [] [] h = refl
  IsRead-return f [] (y ∷ ys) h = absurd h
  IsRead-return f (x ∷ xs) [] h = absurd h
  IsRead-return f (x ∷ xs) (y ∷ ys) h = rw (h.0, IsRead-return f xs ys h.1) refl

-- A row as the interface sends it.
abbrev pub regional_row : {F : Type 0} → RegionalOrderRecord F → Entry F
regional_row r = mapping (
    ("duration", integer r.duration)
    ∷ ("is_buy_order", boolean r.is_buy_order)
    ∷ ("issued", text r.issued)
    ∷ ("location_id", integer r.location_id)
    ∷ ("min_volume", integer r.min_volume)
    ∷ ("order_id", integer r.order_id)
    ∷ ("price", number r.price)
    ∷ ("range", text r.range)
    ∷ ("system_id", integer r.system_id)
    ∷ ("type_id", integer r.type_id)
    ∷ ("volume_remain", integer r.volume_remain)
    ∷ ("volume_total", integer r.volume_total)
    ∷ [])

module _ {F B : Type 0} where
  normalize_regional-row :
      (float : ℤ → F) (iso_utc : String → Option String) (r : RegionalOrderRecord F)
      → iso_utc r.issued ≡ some r.issued
      → normalize_regional_order_row {B = B} float iso_utc (regional_row r) ≡ return r
  unfolding normalize_regional_order_row require_mapping require_integer require_boolean
      require_numeric require_string get_value normalize_datetime as_integer as_boolean as_numeric
      as_string
  normalize_regional-row float iso_utc r h = rw h refl

regional_rows-IsRead :
    (B : Type 0) {F : Type 0} (float : ℤ → F) (iso_utc : String → Option String)
    (records : List (RegionalOrderRecord F))
    → All (λ r. iso_utc r.issued ≡ some r.issued) records
    → IsRead {B = B} (normalize_regional_order_row float iso_utc) (map regional_row records) records
regional_rows-IsRead B float iso_utc [] h = tt
regional_rows-IsRead B float iso_utc (r ∷ records) h =
    (normalize_regional-row float iso_utc r h.0, regional_rows-IsRead B float iso_utc records h.1)

module _ {F B : Type 0} where
  -- Records whose time is in UTC come back as they were from the payload that holds their rows.
  pub parse_regional_orders_payload-rows :
      (float : ℤ → F) (iso_utc : String → Option String) (records : List (RegionalOrderRecord F))
      → All (λ r. iso_utc r.issued ≡ some r.issued) records
      → parse_regional_orders_payload {B = B} float iso_utc (rows (map regional_row records))
        ≡ return records
  unfolding parse_regional_orders_payload
  parse_regional_orders_payload-rows float iso_utc records h =
      IsRead-return (normalize_regional_order_row float iso_utc) (map regional_row records) records
        (regional_rows-IsRead B float iso_utc records h)
