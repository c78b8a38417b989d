-- ===== src/Inbound.antt =====
-- backend/src/webhook-handler.ts and what it calls: the webhooks of anchors, from the checks to the rows they change.
pub mod Gate
pub mod Nonces
pub mod Payload
pub mod Handlers
pub mod Webhook
pub mod Lifecycle
pub mod Sequences
pub mod Runs
pub mod Redelivery
pub mod Admission
mod Tests
