-- ===== src/Esi.antt =====
-- The client of EVE's HTTP interface: backend/app/services/esi/client.py.
pub mod Limits
pub mod Request
pub mod Retries
pub mod Recovery
pub mod Pages
pub mod Paging
pub mod Fetches
pub mod Payloads
pub mod Records
pub mod Rows
mod Tests
