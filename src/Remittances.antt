-- ===== src/Remittances.antt =====
-- api/src/db/remittanceStore.ts: the stored remittances, and the pages of a query of them.
pub mod Store
pub mod Order
pub mod Pages
pub mod Traversal
mod Tests
