-- ===== src/Presentation.antt =====
-- crates/presentation: what is shown in a terminal.
pub mod Terminal
pub mod Mailbox
pub mod Views
