-- ===== src/Queue.antt =====
-- backend/src/webhook-dispatcher.ts: the queue of outbound webhooks.
pub mod Store
pub mod Dispatcher
pub mod Delay
pub mod Invariant
pub mod Runs
mod Tests
