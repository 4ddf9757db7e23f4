-- ===== src/Wxverify.antt =====
-- The collection side of wxverify/wxverify.
pub mod Backoff
pub mod Budget
pub mod Jobs
pub mod AccessHold
pub mod RainPick
mod Examples
