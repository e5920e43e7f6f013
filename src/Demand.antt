-- ===== src/Demand.antt =====
-- The demand of a location: backend/app/services/demand/market_demand.py.
pub mod Rows
pub mod Estimate
pub mod Resolve
pub mod Ratios
pub mod Choice
mod Tests
