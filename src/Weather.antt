-- ===== src/Weather.antt =====
-- The weather publisher, py-weather/pyweather: its learned cadence, the health of a station, the poll.
pub mod Cadence
pub mod Health
pub mod Scheduler
pub mod Loop
mod Examples
