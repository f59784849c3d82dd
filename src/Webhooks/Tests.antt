-- ===== src/Webhooks/Tests.antt =====

