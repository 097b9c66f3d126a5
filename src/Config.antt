-- ===== src/Config.antt =====
-- internal/config: the policy that can be changed while the gateway runs.
pub mod Policy
pub mod Snapshot
pub mod Load
pub mod Store
