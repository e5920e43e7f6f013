-- ===== src/Structures.antt =====
-- Structures: backend/app/services/structures/.
pub mod Rows
pub mod Snapshots
pub mod Orders
pub mod Changes
pub mod Periods
pub mod Counting
pub mod Demand
mod Tests
