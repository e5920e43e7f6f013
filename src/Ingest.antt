-- ===== src/Ingest.antt =====
-- backend/app/services/esi/orders_ingestion.py: the orders of regions, from records to rows.
pub mod Rows
pub mod Stations
pub mod Regions
pub mod Places
pub mod Rounds
pub mod Deletes
pub mod Book
pub mod Replay
pub mod Refine
pub mod Ingested
pub mod Returns
pub mod Batches
pub mod Copies
pub mod Newest
pub mod Replaced
pub mod Copied
pub mod Service
mod Tests
