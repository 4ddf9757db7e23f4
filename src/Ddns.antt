-- ===== src/Ddns.antt =====
-- The dynamic DNS updater, py-ddns/pyddns.
pub mod Models
pub mod Cycle
pub mod Retry
pub mod Updater
mod Examples
