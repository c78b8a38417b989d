-- ===== src/Rates.antt =====
-- backend/src/fx-rate-cache.ts and backend/src/fx-provider.ts: rates of exchange.
pub mod Failover
pub mod State
pub mod Cache
pub mod Steps
pub mod Calm
pub mod Fallback
pub mod Sharing
pub mod Starting
pub mod Ending
pub mod OneFetch
pub mod Remembered
mod Tests
