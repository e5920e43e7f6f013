-- ===== src/Esi/Rows.antt =====
-- What the parser of a structure's orders accepts and refuses: rows with all fields that it requires.
use eve_station_trader.Prelude.{
  ◌≡◌, refl, ap, Option, none, some, List, [], ◌∷◌, ◌++◌, map, String, All, delete, str_eq,
}
use mathlib.Core.Option
use eve_station_trader.Prelude.Int.{ℤ}
use eve_station_trader.Esi.Request.{Outcome, EsiError, return, raise, value_error}
use eve_station_trader.Esi.Payloads.{
  Value, null, boolean, integer, number, text, Entry, mapping, other_entry, rows,
  StructureOrderRecord, map_all, get_value, normalize_datetime, optional_datetime, optional_integer,
  normalize_structure_order_row, parse_structure_orders_payload,
}
use eve_station_trader.Esi.Records.{IsRead, IsRead-return}

abbrev pub text_or_null : {F : Type 0} → Option String → Value F
text_or_null none = null
text_or_null (some s) = text s

abbrev pub integer_or_null : {F : Type 0} → Option ℤ → Value F
integer_or_null none = null
integer_or_null (some n) = integer n

-- A row of a structure's order as the interface sends it.
abbrev pub structure_fields : {F : Type 0} → StructureOrderRecord F → List (String × Value F)
structure_fields r =
    ("duration", integer_or_null r.duration)
    ∷ ("is_buy_order", boolean r.is_buy_order)
    ∷ ("issued", text_or_null r.issued)
    ∷ ("min_volume", integer r.min_volume)
    ∷ ("order_id", integer r.order_id)
    ∷ ("price", number r.price)
    ∷ ("range", text r.range)
    ∷ ("type_id", integer r.type_id)
    ∷ ("volume_remain", integer r.volume_remain)
    ∷ ("volume_total", integer r.volume_total)
    ∷ []

-- A time that is given is in UTC.
abbrev pub IsUtc : {F : Type 0} → (String → Option String) → StructureOrderRecord F → Type 0
IsUtc iso_utc r = Option.map iso_utc r.issued ≡ Option.map some r.issued

-- The ways in which a row is refused: it is no object, or one of the required fields is missing.
pub data Fault : Type 0 where
  no_object : Fault
  no_order_id : Fault
  no_type_id : Fault
  no_side : Fault
  no_price : Fault
  no_volume_total : Fault
  no_volume_remain : Fault
  no_min_volume : Fault
  no_range : Fault

abbrev pub without : {F : Type 0} → String → StructureOrderRecord F → Entry F
without key r = mapping (delete (λ e. str_eq e.0 key) (structure_fields r))

abbrev pub faulty_row : {F : Type 0} → Fault → StructureOrderRecord F → Entry F
faulty_row no_object r = other_entry
faulty_row no_order_id r = without "order_id" r
faulty_row no_type_id r = without "type_id" r
faulty_row no_side r = without "is_buy_order" r
faulty_row no_price r = without "price" r
faulty_row no_volume_total r = without "volume_total" r
faulty_row no_volume_remain r = without "volume_remain" r
faulty_row no_min_volume r = without "min_volume" r
faulty_row no_range r = without "range" r

abbrev pub complaint : Fault → String
complaint no_object = "ESI structure order row must be an object."
complaint no_order_id = "ESI market history rows must include integer 'order_id'."
complaint no_type_id = "ESI market history rows must include integer 'type_id'."
complaint no_side = "ESI rows must include boolean 'is_buy_order'."
complaint no_price = "ESI market history rows must include numeric 'price'."
complaint no_volume_total = "ESI market history rows must include integer 'volume_total'."
complaint no_volume_remain = "ESI market history rows must include integer 'volume_remain'."
complaint no_min_volume = "ESI market history rows must include integer 'min_volume'."
complaint no_range = "ESI rows must include string 'range'."

module _ {A B C : Type 0} where
  -- The first entry that is refused ends the loop.
  map_all-raises :
      (f : A → Outcome B C) (xs : List A) (ys : List C) (x : A) (after : List A) (e : EsiError B)
      → IsRead f xs ys
      → f x ≡ raise e
      → map_all f (xs ++ x ∷ after) ≡ raise e
  unfolding map_all
  map_all-raises f [] [] x after e h k = rw k refl
  map_all-raises f [] (y ∷ ys) x after e h k = absurd h
  map_all-raises f (z ∷ xs) [] x after e h k = absurd h
  map_all-raises f (z ∷ xs) (y ∷ ys) x after e h k =
      rw (h.0, map_all-raises f xs ys x after e h.1 k) refl

lasting : (F : Type 0) (o : Option ℤ) → optional_integer {F = F} (integer_or_null o) ≡ o
unfolding optional_integer
lasting F none = refl
lasting F (some n) = refl

module _ {F B : Type 0} (float : ℤ → F) (iso_utc : String → Option String) where
  dated :
      (o : Option String)
      → Option.map iso_utc o ≡ Option.map some o
      → optional_datetime {F = F} {B = B} iso_utc (text_or_null o) ≡ return o
  unfolding optional_datetime normalize_datetime
  dated none h = refl
  dated (some time) h = let e : iso_utc time ≡ some time = cc in rw e refl

  normalize_structure-row :
      (r : StructureOrderRecord F)
      → IsUtc iso_utc r
      → normalize_structure_order_row {B = B} float iso_utc (mapping (structure_fields r))
        ≡ return r
  unfolding normalize_structure_order_row get_value
  normalize_structure-row r h =
      rw (dated r.issued h)
        (ap (λ duration. return (record r { duration = duration })) (lasting F r.duration))

  normalize_structure-faulty :
      (fault : Fault) (r : StructureOrderRecord F)
      → normalize_structure_order_row {B = B} float iso_utc (faulty_row fault r)
        ≡ raise (value_error (complaint fault))
  unfolding normalize_structure_order_row
  normalize_structure-faulty no_object r = refl
  normalize_structure-faulty no_order_id r = refl
  normalize_structure-faulty no_type_id r = refl
  normalize_structure-faulty no_side r = refl
  normalize_structure-faulty no_price r = refl
  normalize_structure-faulty no_volume_total r = refl
  normalize_structure-faulty no_volume_remain r = refl
  normalize_structure-faulty no_min_volume r = refl
  normalize_structure-faulty no_range r = refl

structure_rows-IsRead :
    (B : Type 0) {F : Type 0} (float : ℤ → F) (iso_utc : String → Option String)
    (records : List (StructureOrderRecord F))
    → All (IsUtc iso_utc) records
    → IsRead {B = B}
        (normalize_structure_order_row float iso_utc)
        (map (λ r. mapping (structure_fields r)) records)
        records
structure_rows-IsRead B float iso_utc [] h = tt
structure_rows-IsRead B float iso_utc (r ∷ records) h =
    (normalize_structure-row float iso_utc r h.0, structure_rows-IsRead B float iso_utc records h.1)

module _ {F B : Type 0} (float : ℤ → F) (iso_utc : String → Option String) where
  -- Records of a structure's orders come back as they were from the payload that holds their rows, where
  -- a time of issue is in UTC; a time or a duration that is missing stays so.
  pub parse_structure_orders_payload-rows :
      (records : List (StructureOrderRecord F))
      → All (IsUtc iso_utc) records
      → parse_structure_orders_payload {B = B} float iso_utc
          (rows (map (λ r. mapping (structure_fields r)) records))
        ≡ return records
  unfolding parse_structure_orders_payload
  parse_structure_orders_payload-rows records h =
      IsRead-return (normalize_structure_order_row float iso_utc) _ records
        (structure_rows-IsRead B float iso_utc records h)

  -- After rows that are complete, a row that is no object or that lacks one of the eight required
  -- fields makes the whole payload raise ValueError, and the message names what is wrong with it,
  -- whatever rows follow.
  pub parse_structure_orders_payload-faulty :
      (before : List (StructureOrderRecord F)) (fault : Fault) (r : StructureOrderRecord F)
      (after : List (Entry F))
      → All (IsUtc iso_utc) before
      → parse_structure_orders_payload {B = B} float iso_utc
          (rows (map (λ x. mapping (structure_fields x)) before ++ faulty_row fault r ∷ after))
        ≡ raise (value_error (complaint fault))
  unfolding parse_structure_orders_payload
  parse_structure_orders_payload-faulty before fault r after h =
      map_all-raises (normalize_structure_order_row float iso_utc) _ before (faulty_row fault r)
        after (value_error (complaint fault)) (structure_rows-IsRead B float iso_utc before h)
        (normalize_structure-faulty float iso_utc fault r)
