-- ===== src/Npc.antt =====
-- The NPC station services, backend/app/services/npc_stations.
pub mod Rows
mod Tests
pub mod Deltas
pub mod Periods
