-- ===== src/Documents.antt =====
-- Documents, their revisions, editing leases and life cycle (backend/app/documents/).
pub mod Schema
pub mod Session
pub mod Rows
pub mod Leases
pub mod RevisionCommit
pub mod Titles
pub mod Trash
pub mod Deletion
pub mod Retention
pub mod Copies
pub mod Calls
mod Sample
mod Examples
