-- ===== src/Runtime.antt =====
-- adapters/sync-runtime: what runs a sync of a connected account.
pub mod Gate
pub mod Loopback
