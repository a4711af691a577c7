-- ===== src/Cli.antt =====
-- apps/tersa: the command line.
pub mod Dates
