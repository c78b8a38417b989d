-- ===== src/Confirmation.antt =====
-- backend/src/admin-confirmation.ts and api/src/admin-confirmation.ts: actions of an administrator that
-- a second one must confirm.
pub mod Actions
pub mod Laws
pub mod Purge
pub mod Steps
mod Tests
