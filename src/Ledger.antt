-- ===== src/Ledger.antt =====
-- sdk/src/testing/mock-client.ts: the in-memory ledger that stands for the remittance contract.
pub mod Client
pub mod Reads
pub mod Writes
pub mod Life
pub mod Lifecycle
pub mod Admin
pub mod Trace
pub mod Effects
pub mod Invariant
pub mod Fees
pub mod Errors
pub mod Batch
pub mod Estimates
mod Tests
