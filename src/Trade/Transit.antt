-- ===== src/Trade/Transit.antt =====
-- `list_in_transit_assets`, `upsert_in_transit_asset` and `delete_in_transit_asset` of
-- backend/app/repositories/trade_repository.py: the goods that are on their way to a market.
use eve_station_trader.Prelude.{
  ℕ, ◌+◌, ◌==◌, ltb, Bool, true, false, ◌&&◌, ◌||◌, Option, none, some, List, [], ◌∷◌, ◌++◌, String,
  str_eq, concat, find_first, delete, update_where, if◌then◌else◌, select,
}
use mathlib.Core.Option
use eve_station_trader.Prelude.Int.{ℤ, pos, ltb_ℤ, eq_ℤ}
use eve_station_trader.Prelude.Ids.{get}
use eve_station_trader.Prelude.Texts.{decimal, strip}
use eve_station_trader.Ingest.Rows.{Location, Station}
use eve_station_trader.Trade.Rows.{
  Item, resolve_location_id, resolve_type_id, display_location_name,
}

pub record InTransitAsset : Type 0 where
  pub id : ℕ
  pub source_location_id : ℕ
  pub target_location_id : ℕ
  pub type_id : ℕ
  pub quantity : ℤ
  pub note : Option String
  pub created_at : ℕ
  pub updated_at : ℕ

pub record InTransitAssetRecord : Type 0 where
  pub id : ℕ
  pub source_location_id : ℕ
  pub source_market_name : String
  pub target_location_id : ℕ
  pub target_market_name : String
  pub type_id : ℕ
  pub item_name : String
  pub quantity : ℤ
  pub note : Option String
  pub created_at : ℕ
  pub updated_at : ℕ

-- InTransitAssetUpsertRequest
pub record UpsertRequest : Type 0 where
  pub source_location_id : ℕ
  pub target_location_id : ℕ
  pub type_id : ℕ
  pub quantity : ℤ
  pub note : Option String

pub record TransitTables : Type 0 where
  pub locations : List Location
  pub stations : List Station
  pub items : List Item
  pub assets : List InTransitAsset
  pub next_asset : ℕ

-- A reply, a LookupError or a ValueError.
pub data TransitReply {ℓ} (A : Type ℓ) : Type ℓ where
  reply : A → TransitReply A
  lookup_error : String → TransitReply A
  value_error : String → TransitReply A

abbrev pub location_of : ℕ → TransitTables → Option Location
location_of i t = get (λ (l : Location). l.id) i t.locations

-- The outer join with stations.
unfoldable pub market_name : Location → List Station → String
unfolding display_location_name
market_name l stations = display_location_name l.name (
    Option.map (λ (s : Station). s.name)
      (find_first (λ (s : Station). s.station_id == l.location_id) stations))

-- The rows of the SELECT for one asset: none if a join fails.
unfoldable pub joined_record :
    InTransitAsset
    → List Station
    → Option Location
    → Option Location
    → Option Item
    → List InTransitAssetRecord
unfolding market_name
joined_record a stations (some source) (some target) (some item) =
    record {
      id = a.id;
      source_location_id = source.location_id;
      source_market_name = market_name source stations;
      target_location_id = target.location_id;
      target_market_name = market_name target stations;
      type_id = item.type_id;
      item_name = item.name;
      quantity = a.quantity;
      note = a.note;
      created_at = a.created_at;
      updated_at = a.updated_at;
    }
    ∷ []
joined_record a stations (some source) (some target) none = []
joined_record a stations (some source) none item = []
joined_record a stations none target item = []

unfoldable pub record_of : TransitTables → InTransitAsset → List InTransitAssetRecord
unfolding joined_record
record_of t a =
    joined_record a t.stations (location_of a.source_location_id t)
      (location_of a.target_location_id t) (get (λ (i : Item). i.id) a.type_id t.items)

unfoldable pub records_of : TransitTables → List InTransitAsset → List InTransitAssetRecord
unfolding record_of
records_of t [] = []
records_of t (a ∷ assets) = record_of t a ++ records_of t assets

-- payload.note.strip() if payload.note and payload.note.strip() else None
unfoldable pub clean_note : Option String → Option String
unfolding strip
clean_note none = none
clean_note (some s) = if str_eq (strip s) "" then none else some (strip s)

unfoldable pub same_note : Option String → Option String → Bool
same_note none none = true
same_note none (some s) = false
same_note (some s) none = false
same_note (some s) (some u) = str_eq s u

abbrev pub same_triple : ℕ → ℕ → ℕ → InTransitAsset → Bool
same_triple source target type_id a =
    a.source_location_id == source && a.target_location_id == target && a.type_id == type_id

-- Assignments to the row: the ORM writes nothing, and leaves updated_at, if both values are as before.
unfoldable pub assigned : ℕ → ℤ → Option String → InTransitAsset → InTransitAsset
unfolding same_note
assigned now quantity note a =
    if eq_ℤ a.quantity quantity && same_note a.note note
    then a
    else record a { quantity = quantity; note = note; updated_at = now }

abbrev pub new_asset : ℕ → ℕ → ℕ → ℕ → ℕ → ℤ → Option String → InTransitAsset
new_asset id now source target type_id quantity note = record {
  id = id;
  source_location_id = source;
  target_location_id = target;
  type_id = type_id;
  quantity = quantity;
  note = note;
  created_at = now;
  updated_at = now;
}

unfoldable pub saved_asset :
    ℕ → ℕ → ℕ → ℕ → ℤ → Option String → Option InTransitAsset → TransitTables → TransitTables
unfolding assigned
saved_asset now source target type_id quantity note none t = record t {
  assets = t.assets ++ new_asset t.next_asset now source target type_id quantity note ∷ [];
  next_asset = t.next_asset + 1;
}
saved_asset now source target type_id quantity note (some a) t = record t {
  assets = update_where (same_triple source target type_id) (assigned now quantity note) t.assets;
}

-- `name_before` is the order of names in the database.
module _ (name_before : String → String → Bool) where
  -- ORDER BY location_id, name
  unfoldable pub transit_before : InTransitAssetRecord → InTransitAssetRecord → Bool
  transit_before a b =
      ltb a.source_location_id b.source_location_id
      || (a.source_location_id == b.source_location_id && name_before a.item_name b.item_name)

  unfoldable pub insert_record :
      InTransitAssetRecord → List InTransitAssetRecord → List InTransitAssetRecord
  unfolding transit_before
  insert_record r [] = r ∷ []
  insert_record r (x ∷ xs) = if transit_before x r then x ∷ insert_record r xs else r ∷ x ∷ xs

  unfoldable pub order_records : List InTransitAssetRecord → List InTransitAssetRecord
  unfolding insert_record
  order_records [] = []
  order_records (x ∷ xs) = insert_record x (order_records xs)

  unfoldable pub list_for : Option ℕ → TransitTables → List InTransitAssetRecord
  unfolding order_records records_of
  list_for none t = []
  list_for (some target) t =
      order_records (records_of t (select (λ a. a.target_location_id == target) t.assets))

  unfoldable pub list_in_transit_assets : ℕ → TransitTables → List InTransitAssetRecord
  unfolding list_for resolve_location_id
  list_in_transit_assets target_location_id t =
      list_for (resolve_location_id target_location_id t.locations) t

  -- The loop that reads the saved record back.
  abbrev pub answers : UpsertRequest → InTransitAssetRecord → Bool
  answers q r =
      r.source_location_id == q.source_location_id
      && r.target_location_id == q.target_location_id
      && r.type_id == q.type_id

  unfoldable pub read_back : Option InTransitAssetRecord → TransitReply InTransitAssetRecord
  read_back none = lookup_error "In-transit asset could not be read back after save."
  read_back (some r) = reply r

  -- With all three references resolved.
  unfoldable pub save_in_transit :
      ℕ
      → UpsertRequest
      → ℕ
      → ℕ
      → ℕ
      → TransitTables
      → TransitReply InTransitAssetRecord × TransitTables
  unfolding saved_asset clean_note list_in_transit_assets read_back
  save_in_transit now q source target type_id t =
      let t' =
        saved_asset now source target type_id q.quantity (clean_note q.note)
          (find_first (same_triple source target type_id) t.assets) t in
      if ltb_ℤ q.quantity (pos 1)
      then (value_error "In-transit quantity must be at least 1.", t)
      else (read_back (find_first (answers q) (list_in_transit_assets q.target_location_id t')), t')

  unfoldable pub save_resolved :
      ℕ
      → UpsertRequest
      → Option ℕ
      → Option ℕ
      → Option ℕ
      → TransitTables
      → TransitReply InTransitAssetRecord × TransitTables
  unfolding save_in_transit
  save_resolved now q none target type_id t = (
    lookup_error (concat "Unknown source location " (concat (decimal q.source_location_id) ".")),
    t,
  )
  save_resolved now q (some source) none type_id t = (
    lookup_error (concat "Unknown target location " (concat (decimal q.target_location_id) ".")),
    t,
  )
  save_resolved now q (some source) (some target) none t =
      (lookup_error (concat "Unknown item type " (concat (decimal q.type_id) ".")), t)
  save_resolved now q (some source) (some target) (some type_id) t =
      save_in_transit now q source target type_id t

  unfoldable pub upsert_in_transit_asset :
      ℕ → UpsertRequest → TransitTables → TransitReply InTransitAssetRecord × TransitTables
  unfolding save_resolved resolve_location_id resolve_type_id
  upsert_in_transit_asset now q t =
      save_resolved now q (resolve_location_id q.source_location_id t.locations)
        (resolve_location_id q.target_location_id t.locations) (resolve_type_id q.type_id t.items) t

unfoldable pub delete_in_transit_asset : ℕ → TransitTables → Bool × TransitTables
delete_in_transit_asset entry_id t = elim (get (λ (a : InTransitAsset). a.id) entry_id t.assets) [
  | none ↦ (false, t)
  | some a ↦ (true, record t { assets = delete (λ a. a.id == entry_id) t.assets })
]
