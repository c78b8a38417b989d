-- ===== src/Kyc.antt =====
-- backend/src/kyc-upsert-service.ts and backend/src/transfer-guard.ts: what anchors say of a user,
-- and who may transfer.
pub mod Store
pub mod Guard
pub mod Laws
pub mod Upsert
mod Tests
