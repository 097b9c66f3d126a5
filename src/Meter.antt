-- ===== src/Meter.antt =====
-- internal/meter: token estimates, the counter of a stream, and what an upstream reports.
pub mod Floats
pub mod Estimate
pub mod Counter
pub mod Usage
pub mod Fortieths
