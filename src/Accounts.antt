-- ===== src/Accounts.antt =====
-- Accounts, sessions and the throttling of logins (backend/app/accounts/).
pub mod Service
pub mod Throttle
pub mod Sessions
pub mod Passwords
mod Examples
