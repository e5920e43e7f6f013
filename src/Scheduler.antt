-- ===== src/Scheduler.antt =====
-- The scheduler of the jobs: backend/app/workers/tasks/sync_tasks.py.
pub mod Schedule
pub mod Keys
pub mod Changes
pub mod Blocked
mod Tests
