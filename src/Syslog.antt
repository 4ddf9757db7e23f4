-- ===== src/Syslog.antt =====
-- The UDP syslog collector, py-syslog/pysyslog.
pub mod Record
pub mod Escape
pub mod Matching
pub mod Structured
pub mod Parser
pub mod Line
pub mod Resolver
pub mod Throttle
pub mod Server
mod Examples
pub mod Storage
