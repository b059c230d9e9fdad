-- ===== src/Fields.antt =====
-- Field proposals and the editor's review of a document (backend/app/fields/).
pub mod Schema
pub mod References
pub mod Model
pub mod Validation
pub mod Working
pub mod Rebase
mod Examples
