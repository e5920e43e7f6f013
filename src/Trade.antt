-- ===== src/Trade.antt =====
-- backend/app/repositories/trade_repository.py: what the trade page reads and writes.
pub mod Rows
pub mod Rebuild
pub mod Rebuilt
pub mod Transit
pub mod Saved
pub mod Prepare
pub mod Filters
pub mod Summaries
pub mod Fresh
pub mod Sources
pub mod Again
mod Tests
pub mod Samples
mod Scopes
