-- ===== src/Application.antt =====
-- crates/application: the contracts, the synchronisation, the identity gate and the OAuth flow
pub mod Metadata
pub mod Search
pub mod Mailbox
pub mod Identity
pub mod Lifecycle
pub mod SyncPolicy
pub mod Sync
pub mod OAuth
pub mod Token
