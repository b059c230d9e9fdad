-- ===== src/Documents/Retention.antt =====
-- backend/app/documents/retention.py: the policy of an operator, the versions that it lets go, and
-- the pruning of a batch of them. Each goes by `delete_file` of the storage, whose callback is
-- `authorize`.
pub mod Policy
pub mod Prune
pub mod Sparing
pub mod Protection
pub mod Pruning
pub mod Deleting
mod Runs
