-- ===== src/Characters/Assets.antt =====
-- `_sync_character_assets` of backend/app/services/characters/service.py.
use eve_station_trader.Prelude.{
  ℕ, ◌+◌, Bool, true, false, ◌&&◌, Option, none, some, List, [], ◌∷◌, ◌++◌, map, ◌==◌, delete,
  find_first, if◌then◌else◌,
}
use eve_station_trader.Prelude.Int.{ℤ, pos_part}

-- EsiCharacterAssetRecord, of which location_name is not read.
pub record AssetRecord : Type 0 where
  pub type_id : ℕ
  pub quantity : ℤ
  pub location_id : Option ℕ

pub record CharacterAsset : Type 0 where
  pub character_id : ℕ
  pub type_id : ℕ
  pub quantity : ℕ
  pub external_location_id : Option ℕ
  pub resolved_location_id : Option ℕ

-- A row of items or of locations: the id that EVE uses and the id of the database.
pub record Named : Type 0 where
  pub external_id : ℕ
  pub id : ℕ

-- An entry of `aggregated`.
pub record Entry : Type 0 where
  pub type_id : ℕ
  pub location_id : Option ℕ
  pub quantity : ℕ

abbrev pub same_location : Option ℕ → Option ℕ → Bool
same_location none none = true
same_location (some a) (some b) = a == b
same_location _ _ = false

abbrev pub id_of : Option Named → Option ℕ
id_of none = none
id_of (some r) = some r.id

-- resolved_item_ids.get(...): EVE's ids are unique in the tables.
unfoldable pub resolve : List Named → ℕ → Option ℕ
resolve rows external = id_of (find_first (λ r. r.external_id == external) rows)

-- ... if external_location_id else None
abbrev pub resolve_location : List Named → Option ℕ → Option ℕ
unfolding resolve
resolve_location rows none = none
resolve_location rows (some external) = if external == 0 then none else resolve rows external

-- aggregated[key] = aggregated.get(key, 0) + quantity
unfoldable pub add_quantity : ℕ → Option ℕ → ℕ → List Entry → List Entry
add_quantity ty loc n [] = record { type_id = ty; location_id = loc; quantity = n } ∷ []
add_quantity ty loc n (e ∷ es) =
    if e.type_id == ty && same_location e.location_id loc
    then record e { quantity = e.quantity + n } ∷ es
    else e ∷ add_quantity ty loc n es

-- One round of the loop: an unknown type is passed over, a negative quantity counts as zero.
abbrev pub add_asset : Option ℕ → AssetRecord → List Entry → List Entry
unfolding add_quantity
add_asset none a entries = entries
add_asset (some ty) a entries = add_quantity ty a.location_id (pos_part a.quantity) entries

unfoldable pub aggregate : List Named → List AssetRecord → List Entry → List Entry
unfolding add_quantity resolve
aggregate items [] entries = entries
aggregate items (a ∷ rest) entries =
    aggregate items rest (add_asset (resolve items a.type_id) a entries)

unfoldable pub asset_row : ℕ → List Named → Entry → CharacterAsset
unfolding resolve
asset_row character_id locations e = record {
  character_id = character_id;
  type_id = e.type_id;
  quantity = e.quantity;
  external_location_id = e.location_id;
  resolved_location_id = resolve_location locations e.location_id;
}

unfoldable pub sync_character_assets :
    ℕ → List Named → List Named → List AssetRecord → List CharacterAsset → List CharacterAsset
unfolding aggregate asset_row
sync_character_assets character_id items locations fetched assets =
    delete (λ r. r.character_id == character_id) assets
    ++ map (asset_row character_id locations) (aggregate items fetched [])
