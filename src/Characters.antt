-- ===== src/Characters.antt =====
-- The goods of characters: `_sync_character_assets` of backend/app/services/characters/service.py.
pub mod Assets
pub mod Stock
mod Tests
