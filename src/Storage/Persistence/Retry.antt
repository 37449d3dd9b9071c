-- ===== src/Storage/Persistence/Retry.antt =====
-- How src/storage.rs backs off when a write fails.
