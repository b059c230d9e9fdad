-- ===== src/Jobs.antt =====
-- Document processing: the jobs table, its worker and its dispatcher (backend/app/jobs/).
pub mod Service
pub mod Worker
pub mod Dispatcher
pub mod Soundness
pub mod Validity
pub mod Rounds
pub mod Calls
pub mod Lifecycle
pub mod Attempts
mod Examples
