-- ===== src/Domain.antt =====
-- crates/domain: mailbox values with bounded, redacted user-controlled data
pub mod Mailbox
