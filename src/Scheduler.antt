-- ===== src/Scheduler.antt =====
-- The maintenance sweep of backend/app/maintenance.py and its row (maintenance_schema.py): one tick runs
-- the tasks in order, each up to three times, and writes its progress behind a fence.
pub mod State
pub mod Tick
pub mod Fencing
pub mod Completion
mod Runs
