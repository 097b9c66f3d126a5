-- ===== src/Limiter.antt =====
-- internal/limiter: rules, keys, the batch script, the token ledger, the local fallback, the breaker.
pub mod Breaker
pub mod Local
pub mod Rule
pub mod Key
pub mod Check
pub mod Ledger
pub mod Batch
