-- ===== src/Queue/Delay.antt =====
-- The delay of backend/src/webhook-dispatcher.ts before a retry.
