-- ===== src/Transactions.antt =====
-- backend/src/transaction-state.ts: the states of anchor transactions and their updates.
pub mod State
pub mod Update
pub mod Graph
pub mod Laws
pub mod Runs
mod Tests
