-- ===== src/Opportunities.antt =====
-- Trade opportunities: backend/app/domain/rules.py and backend/app/services/opportunities/generation.py.
pub mod Floats
pub mod Whole
pub mod Rules
pub mod Inventory
pub mod Items
pub mod Summaries
pub mod Generation
pub mod Rows
pub mod Bounds
pub mod Scope
pub mod Samples
mod Tests
