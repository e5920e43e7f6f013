-- ===== src/Jobs.antt =====
-- The life of the background jobs: backend/app/services/sync/service.py.
pub mod Rows
mod Tests
pub mod Stages
pub mod Runs
pub mod Stale
pub mod Control
pub mod Invariant
pub mod Steps
pub mod Reach
pub mod Races
pub mod Frozen
pub mod Ends
pub mod Overlap
