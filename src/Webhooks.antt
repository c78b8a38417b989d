-- ===== src/Webhooks.antt =====
-- backend/src/webhooks: the subscribers, the deliveries to them, and the dead letters.
pub mod Store
pub mod Dispatcher
pub mod Attempts
pub mod Dispatch
pub mod Signatures
pub mod Service
pub mod Lookups
pub mod Registered
pub mod Postgres
pub mod Taken
mod Tests
