-- ===== src/Ingest/Rows.antt =====
-- The tables that backend/app/services/esi/orders_ingestion.py reads and writes
-- (backend/app/models/all_models.py), its records and its result. A price is only copied, so its
-- type `F` is open. Of the numbers of EVE, `region_id` of a Region, `system_id` of a System,
-- `location_id` of a Location and `type_id` of an Item, the tables keep their own keys `id`.
use eve_station_trader.Prelude.{
  ℕ, Bool, Option, List, String, ◌==◌, ◌≡◌, refl, any_row, find_first, if◌then◌else◌, ◌∷◌,
}
use eve_station_trader.Prelude.Int.{ℤ}

pub record Region : Type 0 where
  pub id : ℕ
  pub region_id : ℕ

pub record System : Type 0 where
  pub id : ℕ
  pub system_id : ℕ
  pub region_id : ℕ

pub record Station : Type 0 where
  pub station_id : ℕ
  pub system_id : ℕ
  pub region_id : ℕ
  pub name : String

pub data LocationType : Type 0 where
  npc_station : LocationType
  structure : LocationType

pub record Location : Type 0 where
  pub id : ℕ
  pub location_id : ℕ
  pub location_type : LocationType
  pub system_id : ℕ
  pub region_id : ℕ
  pub name : String

pub record Item : Type 0 where
  pub id : ℕ
  pub type_id : ℕ

-- What fetch_station returns.
pub record StationSeed : Type 0 where
  pub station_id : ℕ
  pub system_id : ℕ
  pub name : String

-- Its outcomes: a seed, or an HTTPStatusError.
pub data Fetched : Type 0 where
  found : StationSeed → Fetched
  status_error : ℕ → Fetched

-- EsiRegionalOrderRecord
pub record OrderRecord (F : Type 0) : Type 0 where
  pub order_id : ℕ
  pub type_id : ℕ
  pub location_id : ℕ
  pub system_id : ℕ
  pub is_buy_order : Bool
  pub price : F
  pub volume_total : ℤ
  pub volume_remain : ℤ
  pub min_volume : ℤ
  pub range : String
  pub issued : String
  pub duration : ℤ

-- A row of esi_market_orders without its primary key, which nothing here reads.
pub record EsiMarketOrder (F : Type 0) : Type 0 where
  pub order_id : ℕ
  pub region_id : ℕ
  pub location_id : ℕ
  pub type_id : ℕ
  pub system_id : ℕ
  pub is_buy_order : Bool
  pub price : F
  pub volume_total : ℤ
  pub volume_remain : ℤ
  pub min_volume : ℤ
  pub order_range : String
  pub issued : ℕ
  pub duration : ℤ
  pub updated_at : ℕ

-- The tables of places and items, with the next key of a location.
pub record Places : Type 0 where
  pub regions : List Region
  pub systems : List System
  pub stations : List Station
  pub locations : List Location
  pub items : List Item
  pub next_location : ℕ

-- The exceptions that leave an ingestion. Its transaction is then rolled back.
pub data IngestError : Type 0 where
  unknown_region : ℕ → IngestError
  unknown_region_for_station : ℕ → ℕ → IngestError
  missing_system : ℕ → ℕ → IngestError
  http_status_error : ℕ → IngestError
  bad_time : String → IngestError
  integrity_error : IngestError
  job_cancelled_error : IngestError

pub data Result {ℓ} (A : Type ℓ) : Type ℓ where
  done : A → Result A
  raise : IngestError → Result A

infixl 5 ◌>>=◌
abbrev pub ◌>>=◌ {ℓ κ} : {A : Type ℓ} {B : Type κ} → Result A → (A → Result B) → Result B
done a >>= f = f a
raise e >>= f = raise e

pub record IngestionResult : Type 0 where
  pub region_id : ℕ
  pub records_processed : ℕ
  pub created : ℕ
  pub updated : ℕ
  pub deleted : ℕ
  pub stations_created : ℕ
  pub items_created : ℕ
  pub skipped_missing_items : ℕ
  pub skipped_non_npc_locations : ℕ
  pub delta_count : ℕ

abbrev pub find_region : ℕ → Places → Option Region
find_region n p = find_first (λ (r : Region). r.region_id == n) p.regions

abbrev pub find_system : ℕ → Places → Option System
find_system n p = find_first (λ (s : System). s.system_id == n) p.systems

abbrev pub find_location : ℕ → Places → Option Location
find_location n p = find_first (λ (l : Location). l.location_id == n) p.locations

abbrev pub find_item : ℕ → Places → Option Item
find_item n p = find_first (λ (i : Item). i.type_id == n) p.items

module _ {F : Type 0} where
  abbrev pub find_order : ℕ → List (EsiMarketOrder F) → Option (EsiMarketOrder F)
  find_order k orders = find_first (λ (o : EsiMarketOrder F). o.order_id == k) orders

-- A Python set of ids.
unfoldable pub add_id : ℕ → List ℕ → List ℕ
add_id x seen = if any_row (λ y. y == x) seen then seen else x ∷ seen

-- Inversion of a bind that returns.
pub >>=-eq-done {ℓ κ} :
    {A : Type ℓ} {B : Type κ} (m : Result A) (f : A → Result B) {b : B}
    → (m >>= f) ≡ done b
    → (a : A) × (m ≡ done a) × (f a ≡ done b)
>>=-eq-done (done a) f h = (a, refl, h)
>>=-eq-done (raise e) f h = cc

pub eq_of_done {ℓ} : {A : Type ℓ} {a b : A} → done a ≡ done b → a ≡ b
eq_of_done h = cc
