-- ===== src/Characters/Tests.antt =====
-- The assets of a character with two entries of one type, one type unknown, and one quantity negative.
use eve_station_trader.Prelude.{ℕ, ◌≡◌, refl, Option, none, some, List, [], ◌∷◌, delete, ◌==◌}
use eve_station_trader.Prelude.Int.{pos, negsuc}
use eve_station_trader.Characters.Assets.{AssetRecord, CharacterAsset, Named, sync_character_assets}
use eve_station_trader.Characters.Stock.{stock, fetched_total, sync_character_assets-stock}

abbrev fetched : List AssetRecord
fetched =
    record { type_id = 34; quantity = pos 5; location_id = some 600 }
    ∷ record { type_id = 34; quantity = pos 7; location_id = some 600 }
    ∷ record { type_id = 99; quantity = pos 3; location_id = some 600 }
    ∷ record { type_id = 34; quantity = negsuc 0; location_id = none }
    ∷ []

abbrev items : List Named
items = record { external_id = 34; id = 1 } ∷ []

abbrev locations : List Named
locations = record { external_id = 600; id = 2 } ∷ []

abbrev row : ℕ → ℕ → CharacterAsset
row character quantity = record {
  character_id = character;
  type_id = 1;
  quantity = quantity;
  external_location_id = some 600;
  resolved_location_id = some 2;
}

synced_stock :
    stock 8 1
      (some 600)
      (sync_character_assets 8 items locations fetched (row 8 50 ∷ row 9 60 ∷ []))
    ≡ 12
unfolding stock sync_character_assets
synced_stock = refl

sync_character_assets-stock_example :
    let synced = sync_character_assets 8 items locations fetched (row 8 50 ∷ row 9 60 ∷ []) in
    ((ty : ℕ) (loc : Option ℕ) → stock 8 ty loc synced ≡ fetched_total items ty loc fetched)
    × (delete (λ r. r.character_id == 8) synced
        ≡ delete (λ r. r.character_id == 8) (row 8 50 ∷ row 9 60 ∷ []))
sync_character_assets-stock_example =
    sync_character_assets-stock 8 items locations fetched (row 8 50 ∷ row 9 60 ∷ [])
