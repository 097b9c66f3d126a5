-- ===== src/Obs.antt =====
-- internal/obs: the rolling windows of the rate metrics.
pub mod Window
pub mod Health
