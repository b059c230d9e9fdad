-- ===== src/Storage.antt =====
-- Quota-accounted private file storage (backend/app/storage/).
pub mod Schema
pub mod Quota
pub mod FileSystem
pub mod Service
pub mod Reserving
pub mod Finishing
pub mod Accounting
pub mod World
pub mod Limits
pub mod Maintenance
pub mod Validation
pub mod Store
pub mod Reading
pub mod Recovering
mod Sample
mod Examples
