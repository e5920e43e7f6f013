-- ===== src/Esi/Payloads.antt =====
-- The parsers of backend/app/services/esi/client.py: the `_parse_*` methods of orders and assets,
-- `_normalize_*_row` and `_require_*`.
use eve_station_trader.Prelude.{
  Bool, true, false, Option, none, some, List, [], ◌∷◌, String, concat, str_eq, if◌then◌else◌,
}
use eve_station_trader.Prelude.Int.{ℤ, pos}
use eve_station_trader.Esi.Request.{value_error, Outcome, return, raise}

-- A JSON value inside a row: no check accepts a list or an object there. `F` is Python's float.
pub data Value (F : Type 0) : Type 0 where
  null : Value F
  boolean : Bool → Value F
  integer : ℤ → Value F
  number : F → Value F
  text : String → Value F
  nested : Value F

pub data Entry (F : Type 0) : Type 0 where
  mapping : List (String × Value F) → Entry F
  other_entry : Entry F

pub data Payload (F : Type 0) : Type 0 where
  rows : List (Entry F) → Payload F
  other_payload : Payload F

-- EsiRegionalOrderRecord, EsiStructureOrderRecord and EsiCharacterAssetRecord
pub record RegionalOrderRecord (F : Type 0) : Type 0 where
  pub order_id : ℤ
  pub type_id : ℤ
  pub location_id : ℤ
  pub system_id : ℤ
  pub is_buy_order : Bool
  pub price : F
  pub volume_total : ℤ
  pub volume_remain : ℤ
  pub min_volume : ℤ
  pub range : String
  pub issued : String
  pub duration : ℤ

pub record StructureOrderRecord (F : Type 0) : Type 0 where
  pub order_id : ℤ
  pub type_id : ℤ
  pub is_buy_order : Bool
  pub price : F
  pub volume_total : ℤ
  pub volume_remain : ℤ
  pub min_volume : ℤ
  pub range : String
  pub issued : Option String
  pub duration : Option ℤ

-- The statement after one that may raise.
abbrev pub and_then {ℓ κ} :
    {B : Type 0} {A : Type ℓ} {C : Type κ} → Outcome B A → (A → Outcome B C) → Outcome B C
and_then (return a) f = f a
and_then (raise e) f = raise e

module _ {ℓ κ} {B : Type 0} {A : Type ℓ} {C : Type κ} where
  -- [f(entry) for entry in payload]
  unfoldable pub map_all : (A → Outcome B C) → List A → Outcome B (List C)
  map_all f [] = return []
  map_all f (x ∷ xs) = and_then (f x) (λ y. and_then (map_all f xs) (λ ys. return (y ∷ ys)))

module _ {F : Type 0} where
  -- entry.get(key), None when it is missing
  unfoldable pub get_value : String → List (String × Value F) → Value F
  get_value key [] = null
  get_value key ((k, v) ∷ m) = if str_eq k key then v else get_value key m

-- A bool is an int in Python.
abbrev pub int_of : Bool → ℤ
int_of true = pos 1
int_of false = pos 0

abbrev pub bad_integer : {B : Type 0} → String → Outcome B ℤ
bad_integer key =
    raise (value_error (concat "ESI market history rows must include integer '" (concat key "'.")))

-- `datetime.fromisoformat` raises on a text that is no time.
abbrev pub parsed_time : {B : Type 0} → Option String → Outcome B String
parsed_time (some t) = return t
parsed_time none = raise (value_error "Invalid isoformat string")

-- `duration` of a structure's order: None when it is no int.
unfoldable pub optional_integer : {F : Type 0} → Value F → Option ℤ
optional_integer (integer n) = some n
optional_integer (boolean b) = some (int_of b)
optional_integer v = none

-- `float` and `iso_utc`, the parse of a time and its print in UTC, belong to the standard library.
module _ {F : Type 0} {B : Type 0} where
  unfoldable pub as_integer : String → Value F → Outcome B ℤ
  as_integer key (integer n) = return n
  as_integer key (boolean b) = return (int_of b)
  as_integer key v = bad_integer key

  unfoldable pub as_boolean : String → Value F → Outcome B Bool
  as_boolean key (boolean b) = return b
  as_boolean key v =
      raise (value_error (concat "ESI rows must include boolean '" (concat key "'.")))

  unfoldable pub as_string : String → Value F → Outcome B String
  as_string key (text s) = return s
  as_string key v = raise (value_error (concat "ESI rows must include string '" (concat key "'.")))

  unfoldable pub require_integer : List (String × Value F) → String → Outcome B ℤ
  unfolding as_integer get_value
  require_integer entry key = as_integer key (get_value key entry)

  unfoldable pub require_boolean : List (String × Value F) → String → Outcome B Bool
  unfolding as_boolean get_value
  require_boolean entry key = as_boolean key (get_value key entry)

  unfoldable pub require_string : List (String × Value F) → String → Outcome B String
  unfolding as_string get_value
  require_string entry key = as_string key (get_value key entry)

  unfoldable pub require_mapping : Entry F → String → Outcome B (List (String × Value F))
  require_mapping (mapping m) label = return m
  require_mapping other_entry label =
      raise (value_error (concat "ESI " (concat label " must be an object.")))

  module _ (float : ℤ → F) where
    unfoldable pub as_numeric : String → Value F → Outcome B F
    as_numeric key (number x) = return x
    as_numeric key (integer n) = return (float n)
    as_numeric key (boolean b) = return (float (int_of b))
    as_numeric key v =
        raise
          (value_error (concat "ESI market history rows must include numeric '" (concat key "'.")))

    unfoldable pub require_numeric : List (String × Value F) → String → Outcome B F
    unfolding as_numeric get_value
    require_numeric entry key = as_numeric key (get_value key entry)

  module _ (iso_utc : String → Option String) where
    unfoldable pub normalize_datetime : Value F → Outcome B String
    normalize_datetime (text s) = parsed_time (iso_utc s)
    normalize_datetime v = raise (value_error "ESI rows must include an ISO datetime string.")

    -- `issued` of a structure's order: None when it is no string.
    unfoldable pub optional_datetime : Value F → Outcome B (Option String)
    unfolding normalize_datetime
    optional_datetime (text s) = and_then (normalize_datetime (text s)) (λ t. return (some t))
    optional_datetime v = return none

  module _ (float : ℤ → F) (iso_utc : String → Option String) where
    unfoldable pub normalize_regional_order_row : Entry F → Outcome B (RegionalOrderRecord F)
    unfolding require_mapping require_integer require_boolean require_numeric require_string
        normalize_datetime get_value
    normalize_regional_order_row entry =
        and_then (require_mapping entry "regional order row") λ payload.
          and_then (require_integer payload "order_id") λ order_id.
            and_then (require_integer payload "type_id") λ type_id.
              and_then (require_integer payload "location_id") λ location_id.
                and_then (require_integer payload "system_id") λ system_id.
                  and_then (require_boolean payload "is_buy_order") λ is_buy_order.
                    and_then (require_numeric float payload "price") λ price.
                      and_then (require_integer payload "volume_total") λ volume_total.
                        and_then (require_integer payload "volume_remain") λ volume_remain.
                          and_then (require_integer payload "min_volume") λ min_volume.
                            and_then (require_string payload "range") λ range.
                              and_then (normalize_datetime iso_utc (get_value "issued" payload))
                                λ issued. and_then (require_integer payload "duration") λ duration.
                                  return (record {
                                    order_id = order_id;
                                    type_id = type_id;
                                    location_id = location_id;
                                    system_id = system_id;
                                    is_buy_order = is_buy_order;
                                    price = price;
                                    volume_total = volume_total;
                                    volume_remain = volume_remain;
                                    min_volume = min_volume;
                                    range = range;
                                    issued = issued;
                                    duration = duration;
                                  })

    unfoldable pub normalize_structure_order_row : Entry F → Outcome B (StructureOrderRecord F)
    unfolding require_mapping require_integer require_boolean require_numeric require_string
        optional_datetime optional_integer get_value
    normalize_structure_order_row entry =
        and_then (require_mapping entry "structure order row") λ payload.
          and_then (require_integer payload "order_id") λ order_id.
            and_then (require_integer payload "type_id") λ type_id.
              and_then (require_boolean payload "is_buy_order") λ is_buy_order.
                and_then (require_numeric float payload "price") λ price.
                  and_then (require_integer payload "volume_total") λ volume_total.
                    and_then (require_integer payload "volume_remain") λ volume_remain.
                      and_then (require_integer payload "min_volume") λ min_volume.
                        and_then (require_string payload "range") λ range.
                          and_then (optional_datetime iso_utc (get_value "issued" payload))
                            λ issued. return (record {
                              order_id = order_id;
                              type_id = type_id;
                              is_buy_order = is_buy_order;
                              price = price;
                              volume_total = volume_total;
                              volume_remain = volume_remain;
                              min_volume = min_volume;
                              range = range;
                              issued = issued;
                              duration = optional_integer (get_value "duration" payload);
                            })

    unfoldable pub parse_regional_orders_payload :
        Payload F → Outcome B (List (RegionalOrderRecord F))
    unfolding normalize_regional_order_row map_all
    parse_regional_orders_payload other_payload =
        raise (value_error "ESI regional orders response must be a list of rows.")
    parse_regional_orders_payload (rows entries) = map_all normalize_regional_order_row entries

    unfoldable pub parse_structure_orders_payload :
        Payload F → Outcome B (List (StructureOrderRecord F))
    unfolding normalize_structure_order_row map_all
    parse_structure_orders_payload other_payload =
        raise (value_error "ESI structure orders response must be a list of rows.")
    parse_structure_orders_payload (rows entries) = map_all normalize_structure_order_row entries
